-- ===== src/Base/TimerQueue/Once.antt =====
-- How often a timer of `runAfter` is called.
use lib_net_toy.Base.TimerQueue.Pending.{
  only_once, only_once-append, IsPending, own-IsGone, other-IsPending, cancel-IsPending,
  add_timer-IsPending,
}
use lib_net_toy.Base.EventLoop.Timers.{run_after}
use lib_net_toy.Base.TimerQueue.{new_timer_queue, Wait, add_timer, TimerQueue}
use lib_net_toy.Base.TimerQueue.Waiting.{
  waits_of, IsWaiting, nobody, Ticks-IsWaiting, new_timer_queue-IsWaiting,
}
use lib_net_toy.Base.TimerQueue.Runs.{
  handle_timer-Outcome, ends, cancels, idle, adds, Ticks, UsesQueue, Outcome,
}
use lib_net_toy.Base.TimerQueue.Cancelling.{Ticks-IsGone, times, IsGone}
use lib_net_toy.Base.TimerQueue.IsSound.{same-IsSound, add_timer-IsSound}
use lib_net_toy.Prelude.{
  ℕ, suc, ◌+◌, ◌≤◌, ◌≡◌, refl, sym, ap, ◌∙◌, ◌⊎◌, inl, inr, true, ◌&&◌, List, [], ◌∷◌, ◌++◌, arith,
  ◌==◌, Bool-cases, Result,
}

-- Before its call, or after it.
abbrev IsPendingOrGone : ℕ → ℕ → TimerQueue → Type 0
IsPendingOrGone t n q = IsPending t n q ⊎ (IsGone t n q ⊎ IsGone t (suc n) q)

wait-IsPendingOrGone :
    (callback : ℕ → TimerQueue → Result TimerQueue) (t n : ℕ) (before after : List Wait) (w : Wait)
    (q q' : TimerQueue)
    → UsesQueue callback
    → q.waits ≡ before ++ w ∷ after
    → IsPending t n q
    → Outcome callback w.timer w.interval (record q { waits = before ++ after }) q'
    → IsPendingOrGone t n q'
wait-IsPendingOrGone callback t n before after w q q' u m p o =
    let whole : (only_once t before && only_once t (w ∷ after)) ≡ true =
      sym (only_once-append t before (w ∷ after)) ∙ ap (only_once t) (sym m) ∙ p.once in
    let p₁ : IsPending t n (record q { waits = before ++ after }) = record {
      sound = same-IsSound q _ refl refl p.sound;
      old = p.old;
      once = ground (arith, whole, only_once-append t before after);
      called = p.called;
    } in
    elim (Bool-cases (w.timer == t)) [
      | inr other ↦ inl (other-IsPending callback t n w.timer w.interval _ q' u other p₁ o)
      | inl own ↦
          let same : w.timer ≡ t = ground arith in
          let none : w.interval ≡ 0 = ground (arith, whole) in
          inr (
            own-IsGone callback t n _ q' u p₁ (
              coe 0 1
                (i. Outcome callback (same i) (none i) (record q { waits = before ++ after }) q')
                o))
    ]

Ticks-IsPendingOrGone :
    {callback : ℕ → TimerQueue → Result TimerQueue} {q q' : TimerQueue} (t n : ℕ)
    → UsesQueue callback
    → IsPending t n q
    → Ticks callback q q'
    → IsPendingOrGone t n q'
Ticks-IsPendingOrGone t n u p idle = inl p
Ticks-IsPendingOrGone t n u p (adds expires interval x) = elim (Ticks-IsPendingOrGone t n u p x) [
  | inl a ↦ inl (add_timer-IsPending t n expires interval _ a)
  | inr (inl b) ↦ inr (inl (Ticks-IsGone t n u b (adds expires interval idle)))
  | inr (inr c) ↦ inr (inr (Ticks-IsGone t (suc n) u c (adds expires interval idle)))
]
Ticks-IsPendingOrGone t n u p (cancels v x) = elim (Ticks-IsPendingOrGone t n u p x) [
  | inl a ↦ inl (cancel-IsPending t n v _ a)
  | inr (inl b) ↦ inr (inl (Ticks-IsGone t n u b (cancels v idle)))
  | inr (inr c) ↦ inr (inr (Ticks-IsGone t (suc n) u c (cancels v idle)))
]
Ticks-IsPendingOrGone {callback} t n u p (ends before after w error x m e) =
    elim (Ticks-IsPendingOrGone t n u p x) [
      | inl a ↦
          wait-IsPendingOrGone callback t n before after w _ _ u m a
            (handle_timer-Outcome callback w.timer w.interval error _ _ e)
      | inr (inl b) ↦ inr (inl (Ticks-IsGone t n u b (ends before after w error idle m e)))
      | inr (inr c) ↦ inr (inr (Ticks-IsGone t (suc n) u c (ends before after w error idle m e)))
    ]

waits_of-only_once : (t : ℕ) (ws : List Wait) → waits_of t ws ≡ 0 → only_once t ws ≡ true
waits_of-only_once t [] e = refl
waits_of-only_once t (w ∷ ws) e = ground (arith, waits_of-only_once t ws, e)

-- Whatever happens after `runAfter`, and whatever the callbacks do, the callback of its timer is
-- called once at most.
pub fires_once :
    (callback : ℕ → TimerQueue → Result TimerQueue) (delay : ℕ) (q q' : TimerQueue)
    → UsesQueue callback
    → Ticks callback new_timer_queue q
    → Ticks callback (run_after delay q).1 q'
    → times (run_after delay q).0 q'.calls ≤ times (run_after delay q).0 q.calls + 1
unfolding add_timer
fires_once callback delay q q' u x x' =
    let t = q.next_timer in
    let n = times t q.calls in
    let v : IsWaiting nobody q = Ticks-IsWaiting u new_timer_queue-IsWaiting x in
    let w : Wait = record { timer = t; expires = delay; interval = 0 } in
    let zero : waits_of t q.waits ≡ 0 = omega (arith, v.fresh t (omega arith)) in
    let start : IsPending t n (add_timer delay 0 q).1 = record {
      sound = add_timer-IsSound delay 0 q v.sound;
      old = omega arith;
      once = ground (arith, only_once-append t q.waits (w ∷ []), waits_of-only_once t q.waits zero);
      called = refl;
    } in
    elim (Ticks-IsPendingOrGone t n u start x') [
      | inl p ↦ omega (arith, p.called)
      | inr (inl g) ↦ omega (arith, g.called)
      | inr (inr g) ↦ omega (arith, g.called)
    ]
