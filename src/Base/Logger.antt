-- ===== src/Base/Logger.antt =====
-- src/base/Logger.h and Logger.cpp: the messages that are logged, and those that are also displayed.
-- `boost::log` is the list of the records that its filter lets through. The time, the thread and the
-- sinks are left out, and so is the formatting of `msg`, whose text an operation is given.
pub mod Display
pub mod Tests
use lib_net_toy.Prelude.{
  ℕ, zero, suc, ◌+◌, ◌-◌, ◌*◌, ◌/◌, ◌%◌, ◌^◌, ◌≤◌, ◌<◌, min, ◌≡◌, refl, sym, ap, ap₂, ◌∙◌, ◌≢◌, ◌↔◌,
  ◌⊎◌, inl, inr, Bool, true, false, ◌&&◌, ◌||◌, not, Option, none, some, List, [], ◌∷◌, ◌++◌, map,
  reverse, append-nil, append_assoc, arith, dec_lt, ℕ_discrete, ltb, leb, ◌==◌, if◌then◌else◌,
  Bool-cases, Option-cases, Fault, assertion, out_of_range, length_error, null_pointer, dangling,
  bad_function_call, Result, ok, fault, ◌>>=◌, ◌>>◌, assert, Result-cases, length, take, drop,
  get_elem?,
}

pub data Severity : Type 0 where
  trace debug info warning error fatal : Severity

-- `gdisplayLog`: one of the two functions of the source, or a function of the user's.
pub data DisplayLog : Type 0 where
  console_log gui_log : DisplayLog
  users_log : ℕ → DisplayLog

pub record Record : Type 0 where
  pub severity : Severity
  pub text : List ℕ

-- Whether `init` has set the filter, the records, what was printed, and the calls of users' functions.
pub record Logger : Type 0 where
  pub display_log : Option DisplayLog
  pub filtered : Bool
  pub records : List Record
  pub printed : List ℕ
  pub shown : List (ℕ × List ℕ)

-- As the program starts.
abbrev pub new_logger : Logger
new_logger = record { display_log = none; filtered = false; records = []; printed = []; shown = [] }

-- The filter that `init` sets, `severity >= debug`.
abbrev pub init : Logger → Logger
init l = record l { filtered = true }

abbrev pub passes : Bool → Severity → Bool
passes filtered trace = not filtered
passes filtered _ = true

-- `msg.c_str()` as a callee reads it, up to the first NUL.
unfoldable pub c_text : List ℕ → List ℕ
c_text [] = []
c_text (x ∷ xs) = if x == 0 then [] else x ∷ c_text xs

-- `printf("log:%s\n", str)`, and nothing yet.
unfoldable pub call_display : DisplayLog → List ℕ → Logger → Logger
call_display console_log str l = record l {
  printed = l.printed ++ (108 ∷ 111 ∷ 103 ∷ 58 ∷ (str ++ 10 ∷ []));
}
call_display gui_log str l = l
call_display (users_log f) str l = record l { shown = l.shown ++ (f, str) ∷ [] }

unfoldable pub display : List ℕ → Logger → Logger
unfolding call_display c_text
display msg l = elim l.display_log [ none ↦ l | some d ↦ call_display d (c_text msg) l ]

abbrev pub set_display : Option DisplayLog → Logger → Logger
set_display d l = record l { display_log = d }

abbrev pub write : Severity → List ℕ → Logger → Logger
write s text l =
    if passes l.filtered s
    then record l { records = l.records ++ record { severity = s; text = text } ∷ [] }
    else l

-- `LogTrace`, `LogDebug`, `LogInfo`, `LogWarn` and `LogFatal`.
unfoldable pub log : Severity → Bool → List ℕ → Logger → Logger
unfolding display
log s show msg l = let l₁ = write s msg l in if show then display msg l₁ else l₁

-- `LogError`, with the text of `LOG_LINE`.
unfoldable pub log_error : List ℕ → Bool → List ℕ → Logger → Logger
unfolding log
log_error log_line show msg l = log error show (log_line ++ msg) l
