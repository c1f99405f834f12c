-- ===== src/Base/TimerQueue/Cancelling.antt =====
-- What a cancelled timer can still do.
use lib_net_toy.Base.TimerQueue.IsSound.{
  Ticks-IsSound, holds-erase_timer, erase_timer-absent, IsSound, holds-append,
}
use lib_net_toy.Base.TimerQueue.Runs.{
  Acts-keeps, UsesQueue, Ticks, idle, adds, cancels, ends, expired, failed, called_once,
  called_again, handle_timer-Outcome,
}
use lib_net_toy.Base.TimerQueue.{
  erase_timer, Wait, new_timer_queue, handle_timer, cancel, add_timer, holds, TimerQueue,
}
use lib_net_toy.Prelude.{
  ℕ, suc, ◌+◌, ◌<◌, ◌≡◌, refl, inl, inr, Bool, true, false, List, [], ◌∷◌, ◌++◌, arith, ◌==◌,
  if◌then◌else◌, Bool-cases, Result, ok,
}

-- How often a timer's callback was called.
abbrev pub times : ℕ → List ℕ → ℕ
times t [] = 0
times t (x ∷ xs) = if x == t then suc (times t xs) else times t xs

pub times-append :
    (t : ℕ) (xs : List ℕ) (x : ℕ) → times t (xs ++ x ∷ []) ≡ times t xs + (if x == t then 1 else 0)
times-append t [] x = ground arith
times-append t (y ∷ ys) x = ground (arith, times-append t ys x)

-- A timer that was handed out, is not in the map, and was called `n` times.
pub record IsGone (t n : ℕ) (q : TimerQueue) : Type 0 where
  pub absent : holds q.timer_queue t ≡ false
  pub old : t < q.next_timer
  pub called : times t q.calls ≡ n

absent-differs : (t u : ℕ) (xs : List ℕ) → holds xs u ≡ true → holds xs t ≡ false → (u == t) ≡ false
absent-differs t u xs held absent = elim (Bool-cases (u == t)) [
  | inl same ↦ absurd (let e : u ≡ t = ground arith in cc)
  | inr other ↦ other
]

pub add_timer-IsGone :
    (t n expires interval : ℕ) (q : TimerQueue)
    → IsGone t n q
    → IsGone t n (add_timer expires interval q).1
unfolding add_timer
add_timer-IsGone t n expires interval q g = record {
  absent = ground (arith, holds-append q.timer_queue q.next_timer t, g.absent, g.old);
  old = omega (arith, g.old);
  called = g.called;
}

cancel-IsGone : (t n u : ℕ) (q : TimerQueue) → IsGone t n q → IsGone t n (cancel u q)
unfolding cancel
cancel-IsGone t n u q g = elim (Bool-cases (holds q.timer_queue u)) [
  | inl held ↦ rw held (record {
    absent = erase_timer-absent u t q.timer_queue g.absent;
    old = g.old;
    called = g.called;
  })
  | inr gone ↦ rw gone g
]

erase_timer-IsGone :
    (t n u : ℕ) (q : TimerQueue)
    → IsGone t n q
    → IsGone t n (record q { timer_queue = erase_timer u q.timer_queue })
erase_timer-IsGone t n u q g = record {
  absent = erase_timer-absent u t q.timer_queue g.absent;
  old = g.old;
  called = g.called;
}

-- The waits do not count.
waits-IsGone :
    (t n : ℕ) (q : TimerQueue) (ws : List Wait)
    → IsGone t n q
    → IsGone t n (record q { waits = ws })
waits-IsGone t n q ws g = record { absent = g.absent; old = g.old; called = g.called }

-- A call of another timer's callback.
call-IsGone :
    (t n u : ℕ) (q : TimerQueue)
    → holds q.timer_queue u ≡ true
    → IsGone t n q
    → IsGone t n (record q { calls = q.calls ++ u ∷ [] })
call-IsGone t n u q held g = record {
  absent = g.absent;
  old = g.old;
  called =
      ground
        (arith, g.called, times-append t q.calls u, absent-differs t u q.timer_queue held g.absent);
}

handle_timer-IsGone :
    (callback : ℕ → TimerQueue → Result TimerQueue) (t n u interval : ℕ) (error : Bool)
    (q q' : TimerQueue)
    → UsesQueue callback
    → handle_timer callback u interval error q ≡ ok q'
    → IsGone t n q
    → IsGone t n q'
handle_timer-IsGone callback t n u interval error q q' uses e g =
    let after : (q₁ : TimerQueue)
        → holds q.timer_queue u ≡ true
        → callback u (record q { calls = q.calls ++ u ∷ [] }) ≡ ok q₁
        → IsGone t n q₁ =
      λ q₁ held c.
        Acts-keeps (IsGone t n) (add_timer-IsGone t n) (cancel-IsGone t n) (uses u _ q₁ c)
          (call-IsGone t n u q held g) in
    elim (handle_timer-Outcome callback u interval error q q' e) [
      | expired gone same ↦ rw same g
      | failed held same ↦ rw same (erase_timer-IsGone t n u q g)
      | called_once q₁ held c once there same ↦
          rw same (erase_timer-IsGone t n u q₁ (after q₁ held c))
      | called_again q₁ held c again same ↦ rw same (waits-IsGone t n q₁ _ (after q₁ held c))
    ]

pub Ticks-IsGone :
    {callback : ℕ → TimerQueue → Result TimerQueue} {q q' : TimerQueue} (t n : ℕ)
    → UsesQueue callback
    → IsGone t n q
    → Ticks callback q q'
    → IsGone t n q'
Ticks-IsGone t n u g idle = g
Ticks-IsGone t n u g (adds expires interval p) =
    add_timer-IsGone t n expires interval _ (Ticks-IsGone t n u g p)
Ticks-IsGone t n u g (cancels v p) = cancel-IsGone t n v _ (Ticks-IsGone t n u g p)
Ticks-IsGone {callback} t n u g (ends before after w error p m e) =
    handle_timer-IsGone callback t n w.timer w.interval error _ _ u e
      (waits-IsGone t n _ _ (Ticks-IsGone t n u g p))

cancelled-IsGone :
    (t : ℕ) (q : TimerQueue)
    → IsSound q
    → t < q.next_timer
    → IsGone t (times t q.calls) (cancel t q)
unfolding cancel
cancelled-IsGone t q s lt = elim (Bool-cases (holds q.timer_queue t)) [
  | inl held ↦
      rw held
        (record { absent = holds-erase_timer t q.timer_queue s.distinct; old = lt; called = refl })
  | inr gone ↦ rw gone (record { absent = gone; old = lt; called = refl })
]

-- A timer that was cancelled is not called any more, whatever waits end, and whatever timers are
-- added and cancelled, by callbacks too.
pub cancelled_stays_silent :
    (callback : ℕ → TimerQueue → Result TimerQueue) (t : ℕ) (q q' : TimerQueue)
    → UsesQueue callback
    → Ticks callback new_timer_queue q
    → t < q.next_timer
    → Ticks callback (cancel t q) q'
    → times t q'.calls ≡ times t q.calls
cancelled_stays_silent callback t q q' l p lt p' =
    let s : IsSound q = Ticks-IsSound l (record { distinct = tt; handed_out = λ u held. cc }) p in
    (Ticks-IsGone t (times t q.calls) l (cancelled-IsGone t q s lt) p').called
