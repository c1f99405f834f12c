-- ===== src/Base/TimerQueue/Runs.antt =====
-- The runs of a queue, whose callbacks add and cancel timers themselves.
use lib_net_toy.Prelude.{
  ◌>>=◌, >>=-eq-ok, ℕ, ◌≡◌, ◌≢◌, inl, inr, Bool, true, false, List, [], ◌∷◌, ◌++◌, arith, ◌==◌,
  Bool-cases, Result, ok,
}
use lib_net_toy.Base.TimerQueue.{
  handle_timer, cancel, add_timer, erase_timer, holds, TimerQueue, rearm, Wait,
}

-- A callback returns, with timers added and cancelled.
pub data Acts (q : TimerQueue) : TimerQueue → Type 0 where
  stays : Acts q q
  adds_on :
      (expires interval : ℕ) {q' : TimerQueue}
      → Acts q q'
      → Acts q (add_timer expires interval q').1
  cancels_on : (t : ℕ) {q' : TimerQueue} → Acts q q' → Acts q (cancel t q')

-- What callbacks may do to the queue; one may also fail.
abbrev pub UsesQueue : (ℕ → TimerQueue → Result TimerQueue) → Type 0
UsesQueue callback = (t : ℕ) (q q' : TimerQueue) → callback t q ≡ ok q' → Acts q q'

-- Timers are added and cancelled, and waits end, in any order, each wait once.
pub data Ticks (callback : ℕ → TimerQueue → Result TimerQueue) (q : TimerQueue)
    : TimerQueue → Type 0 where
  idle : Ticks callback q q
  adds :
      (expires interval : ℕ) {q' : TimerQueue}
      → Ticks callback q q'
      → Ticks callback q (add_timer expires interval q').1
  cancels : (t : ℕ) {q' : TimerQueue} → Ticks callback q q' → Ticks callback q (cancel t q')
  ends :
      (before after : List Wait) (w : Wait) (error : Bool) {q' q'' : TimerQueue}
      → Ticks callback q q'
      → q'.waits ≡ before ++ w ∷ after
      → handle_timer callback w.timer w.interval error (record q' { waits = before ++ after })
        ≡ ok q''
      → Ticks callback q q''

-- How `handle_timer` ends where it returns.
pub data Outcome (callback : ℕ → TimerQueue → Result TimerQueue) (t interval : ℕ)
    (q q'' : TimerQueue) : Type 0 where
  expired : holds q.timer_queue t ≡ false → q'' ≡ q → Outcome callback t interval q q''
  failed :
      holds q.timer_queue t ≡ true
      → q'' ≡ record q { timer_queue = erase_timer t q.timer_queue }
      → Outcome callback t interval q q''
  called_once :
      (q₁ : TimerQueue)
      → holds q.timer_queue t ≡ true
      → callback t (record q { calls = q.calls ++ t ∷ [] }) ≡ ok q₁
      → interval ≡ 0
      → holds q₁.timer_queue t ≡ true
      → q'' ≡ record q₁ { timer_queue = erase_timer t q₁.timer_queue }
      → Outcome callback t interval q q''
  called_again :
      (q₁ : TimerQueue)
      → holds q.timer_queue t ≡ true
      → callback t (record q { calls = q.calls ++ t ∷ [] }) ≡ ok q₁
      → interval ≢ 0
      → q'' ≡ record q₁ {
        waits = q₁.waits ++ record { timer = t; expires = interval; interval = interval } ∷ [];
      }
      → Outcome callback t interval q q''

module _ (callback : ℕ → TimerQueue → Result TimerQueue) (t interval : ℕ) where
  rearm-Outcome :
      (q q₁ q'' : TimerQueue)
      → holds q.timer_queue t ≡ true
      → callback t (record q { calls = q.calls ++ t ∷ [] }) ≡ ok q₁
      → rearm t interval q₁ ≡ ok q''
      → Outcome callback t interval q q''
  unfolding rearm
  rearm-Outcome q q₁ q'' held c e = elim (Bool-cases (interval == 0)) [
    | inl once ↦ elim (Bool-cases (holds q₁.timer_queue t)) [
      | inl there ↦ called_once q₁ held c (ground arith) there (ground arith)
      | inr gone ↦ absurd (ground arith)
    ]
    | inr again ↦ called_again q₁ held c (ground arith) (ground arith)
  ]

  pub handle_timer-Outcome :
      (error : Bool) (q q'' : TimerQueue)
      → handle_timer callback t interval error q ≡ ok q''
      → Outcome callback t interval q q''
  unfolding handle_timer
  handle_timer-Outcome error q q'' e = elim (Bool-cases (holds q.timer_queue t)) [
    | inr gone ↦ expired gone (ground arith)
    | inl held ↦ elim (Bool-cases error) [
      | inl bad ↦ failed held (ground arith)
      | inr fine ↦
          let run : (callback t (record q { calls = q.calls ++ t ∷ [] }) >>= rearm t interval)
              ≡ ok q'' =
            ground arith in
          let (q₁, c, r) =
            >>=-eq-ok (callback t (record q { calls = q.calls ++ t ∷ [] })) (rearm t interval)
              run in
          rearm-Outcome q q₁ q'' held c r
    ]
  ]

-- What adding and cancelling keep, callbacks keep.
pub Acts-keeps :
    (P : TimerQueue → Type 0)
    → ((expires interval : ℕ) (q : TimerQueue) → P q → P (add_timer expires interval q).1)
    → ((t : ℕ) (q : TimerQueue) → P q → P (cancel t q))
    → {q q' : TimerQueue} → Acts q q'
    → P q
    → P q'
Acts-keeps P on_add on_cancel stays p = p
Acts-keeps P on_add on_cancel (adds_on expires interval a) p =
    on_add expires interval _ (Acts-keeps P on_add on_cancel a p)
Acts-keeps P on_add on_cancel (cancels_on t a) p = on_cancel t _ (Acts-keeps P on_add on_cancel a p)
