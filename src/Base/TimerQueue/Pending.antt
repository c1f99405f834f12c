-- ===== src/Base/TimerQueue/Pending.antt =====
-- A timer of `runAfter` before, in and after its call.
use lib_net_toy.Base.TimerQueue.{Wait, cancel, add_timer, holds, TimerQueue}
use lib_net_toy.Base.TimerQueue.Runs.{
  Acts-keeps, UsesQueue, Outcome, expired, failed, called_once, called_again,
}
use lib_net_toy.Base.TimerQueue.Cancelling.{times, times-append, IsGone}
use lib_net_toy.Base.TimerQueue.IsSound.{
  holds-erase_timer, IsSound, same-IsSound, add_timer-IsSound, erase_timer-IsSound,
}
use lib_net_toy.Prelude.{
  ℕ, suc, ◌<◌, ◌≡◌, refl, ◌⊎◌, inl, inr, Bool, true, false, ◌&&◌, List, [], ◌∷◌, ◌++◌, arith, ◌==◌,
  if◌then◌else◌, Bool-cases, Result, ok,
}

-- Whether no wait of the timer is to be repeated.
abbrev pub only_once : ℕ → List Wait → Bool
only_once t [] = true
only_once t (w ∷ ws) = (if w.timer == t then w.interval == 0 else true) && only_once t ws

pub only_once-append :
    (t : ℕ) (xs ys : List Wait) → only_once t (xs ++ ys) ≡ (only_once t xs && only_once t ys)
only_once-append t [] ys = refl
only_once-append t (x ∷ xs) ys = ground (arith, only_once-append t xs ys)

-- A timer that is to be called once, and was called `n` times before.
pub record IsPending (t n : ℕ) (q : TimerQueue) : Type 0 where
  pub sound : IsSound q
  pub old : t < q.next_timer
  pub once : only_once t q.waits ≡ true
  pub called : times t q.calls ≡ n

-- Its callback runs.
pub record IsRunning (t n : ℕ) (q : TimerQueue) : Type 0 where
  pub sound : IsSound q
  pub old : t < q.next_timer
  pub called : times t q.calls ≡ n

pub add_timer-IsPending :
    (t n expires interval : ℕ) (q : TimerQueue)
    → IsPending t n q
    → IsPending t n (add_timer expires interval q).1
unfolding add_timer
add_timer-IsPending t n expires interval q p = record {
  sound = add_timer-IsSound expires interval q p.sound;
  old = omega (arith, p.old);
  once = ground (
    arith,
    p.once,
    p.old,
    only_once-append t q.waits
        (record { timer = q.next_timer; expires = expires; interval = interval } ∷ []),
  );
  called = p.called;
}

add_timer-IsRunning :
    (t n expires interval : ℕ) (q : TimerQueue)
    → IsRunning t n q
    → IsRunning t n (add_timer expires interval q).1
unfolding add_timer
add_timer-IsRunning t n expires interval q r = record {
  sound = add_timer-IsSound expires interval q r.sound;
  old = omega (arith, r.old);
  called = r.called;
}

-- Only the map is changed.
map-IsPending :
    (t n : ℕ) (q : TimerQueue) (xs : List ℕ)
    → IsSound (record q { timer_queue = xs })
    → IsPending t n q
    → IsPending t n (record q { timer_queue = xs })
map-IsPending t n q xs s p = record { sound = s; old = p.old; once = p.once; called = p.called }

pub cancel-IsPending : (t n u : ℕ) (q : TimerQueue) → IsPending t n q → IsPending t n (cancel u q)
unfolding cancel
cancel-IsPending t n u q p = elim (Bool-cases (holds q.timer_queue u)) [
  | inl held ↦ rw held (map-IsPending t n q _ (erase_timer-IsSound u q p.sound) p)
  | inr gone ↦ rw gone p
]

cancel-IsRunning : (t n u : ℕ) (q : TimerQueue) → IsRunning t n q → IsRunning t n (cancel u q)
unfolding cancel
cancel-IsRunning t n u q r = elim (Bool-cases (holds q.timer_queue u)) [
  | inl held ↦
      rw held (record { sound = erase_timer-IsSound u q r.sound; old = r.old; called = r.called })
  | inr gone ↦ rw gone r
]

-- The timer's own wait ends.
pub own-IsGone :
    (callback : ℕ → TimerQueue → Result TimerQueue) (t n : ℕ) (q q' : TimerQueue)
    → UsesQueue callback
    → IsPending t n q
    → Outcome callback t 0 q q'
    → IsGone t n q' ⊎ IsGone t (suc n) q'
own-IsGone callback t n q q' u p (expired gone same) =
    inl (rw same (record { absent = gone; old = p.old; called = p.called }))
own-IsGone callback t n q q' u p (failed held same) = inl (
    rw same (record {
      absent = holds-erase_timer t q.timer_queue p.sound.distinct;
      old = p.old;
      called = p.called;
    }))
own-IsGone callback t n q q' u p (called_once q₁ held c once there same) =
    let start : IsRunning t (suc n) (record q { calls = q.calls ++ t ∷ [] }) = record {
      sound = same-IsSound q _ refl refl p.sound;
      old = p.old;
      called = ground (arith, times-append t q.calls t, p.called);
    } in
    let r =
      Acts-keeps (IsRunning t (suc n)) (add_timer-IsRunning t (suc n)) (cancel-IsRunning t (suc n))
        (u t _ q₁ c) start in
    inr (
      rw same (record {
        absent = holds-erase_timer t q₁.timer_queue r.sound.distinct;
        old = r.old;
        called = r.called;
      }))
own-IsGone callback t n q q' u p (called_again q₁ held c again same) = absurd (again refl)

-- The wait of another timer ends.
pub other-IsPending :
    (callback : ℕ → TimerQueue → Result TimerQueue) (t n u interval : ℕ) (q q' : TimerQueue)
    → UsesQueue callback
    → (u == t) ≡ false
    → IsPending t n q
    → Outcome callback u interval q q'
    → IsPending t n q'
other-IsPending callback t n u interval q q' uses other p o =
    let start : IsPending t n (record q { calls = q.calls ++ u ∷ [] }) = record {
      sound = same-IsSound q _ refl refl p.sound;
      old = p.old;
      once = p.once;
      called = ground (arith, times-append t q.calls u, p.called, other);
    } in
    let after : (q₁ : TimerQueue)
        → callback u (record q { calls = q.calls ++ u ∷ [] }) ≡ ok q₁
        → IsPending t n q₁ =
      λ q₁ c.
        Acts-keeps (IsPending t n) (add_timer-IsPending t n) (cancel-IsPending t n) (uses u _ q₁ c)
          start in
    elim o [
      | expired gone same ↦ rw same p
      | failed held same ↦ rw same (map-IsPending t n q _ (erase_timer-IsSound u q p.sound) p)
      | called_once q₁ held c once there same ↦
          let p₁ = after q₁ c in
          rw same (map-IsPending t n q₁ _ (erase_timer-IsSound u q₁ p₁.sound) p₁)
      | called_again q₁ held c again same ↦
          let p₁ = after q₁ c in
          rw same (record {
            sound = same-IsSound q₁ _ refl refl p₁.sound;
            old = p₁.old;
            once = ground (
              arith,
              p₁.once,
              other,
              only_once-append t q₁.waits
                  (record { timer = u; expires = interval; interval = interval } ∷ []),
            );
            called = p₁.called;
          })
    ]
