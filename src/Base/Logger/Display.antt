-- ===== src/Base/Logger/Display.antt =====
-- What the console shows of the messages.
use lib_net_toy.Base.Logger.{
  Logger, Severity, log, display, call_display, c_text, console_log, write, passes,
}
use lib_net_toy.Prelude.{
  ℕ, ◌≡◌, refl, sym, ap, ◌∙◌, inl, inr, true, none, some, List, [], ◌∷◌, ◌++◌, append-nil,
  append_assoc, Bool-cases,
}

-- The messages of a list, to be logged in order.
abbrev pub log_all : Severity → List (List ℕ) → Logger → Logger
log_all s [] l = l
log_all s (m ∷ ms) l = log_all s ms (log s true m l)

-- One line for each message.
abbrev pub lines : List (List ℕ) → List ℕ
lines [] = []
lines (m ∷ ms) = (108 ∷ 111 ∷ 103 ∷ 58 ∷ (c_text m ++ 10 ∷ [])) ++ lines ms

write-same :
    (s : Severity) (m : List ℕ) (l : Logger)
    → ((write s m l).printed ≡ l.printed) × ((write s m l).display_log ≡ l.display_log)
write-same s m l = elim (Bool-cases (passes l.filtered s)) [
  | inl let_through ↦ (rw let_through refl, rw let_through refl)
  | inr dropped ↦ (rw dropped refl, rw dropped refl)
]

display_lem :
    (m : List ℕ) (l : Logger)
    → l.display_log ≡ some console_log
    → display m l ≡ call_display console_log (c_text m) l
unfolding display
display_lem m l e = ap (λ d. elim d [ none ↦ l | some f ↦ call_display f (c_text m) l ]) e

log_lem :
    (s : Severity) (m : List ℕ) (l : Logger)
    → l.display_log ≡ some console_log
    → ((log s true m l).printed ≡ l.printed ++ (108 ∷ 111 ∷ 103 ∷ 58 ∷ (c_text m ++ 10 ∷ [])))
      × ((log s true m l).display_log ≡ some console_log)
unfolding log call_display
log_lem s m l e =
    let (p, d) = write-same s m l in
    let shown = display_lem m (write s m l) (d ∙ e) in
    (
      ap (λ (k : Logger). k.printed) shown
          ∙ ap (λ xs. xs ++ (108 ∷ 111 ∷ 103 ∷ 58 ∷ (c_text m ++ 10 ∷ []))) p,
      ap (λ (k : Logger). k.display_log) shown ∙ d ∙ e,
    )

-- With the console set, the messages that are to be shown are printed in order, one line each, cut at
-- their first NUL, whether or not the filter lets their records through.
pub log_all_lem :
    (s : Severity) (ms : List (List ℕ)) (l : Logger)
    → l.display_log ≡ some console_log
    → ((log_all s ms l).printed ≡ l.printed ++ lines ms)
      × ((log_all s ms l).display_log ≡ some console_log)
log_all_lem s [] l e = (sym (append-nil l.printed), e)
log_all_lem s (m ∷ ms) l e =
    let (printed, set) = log_lem s m l e in
    let (p, d) = log_all_lem s ms (log s true m l) set in
    (p ∙ ap (λ xs. xs ++ lines ms) printed ∙ append_assoc l.printed _ (lines ms), d)
