-- ===== src/Base/TimerQueue/Tests.antt =====
-- A queue of two timers, and the theorem applied to it.
use lib_net_toy.Base.TimerQueue.Cancelling.{cancelled_stays_silent, times}
use lib_net_toy.Base.TimerQueue.Runs.{
  UsesQueue, Ticks, adds, ends, idle, stays, Acts, adds_on, cancels_on,
}
use lib_net_toy.Base.TimerQueue.Once.{fires_once}
use lib_net_toy.Base.TimerQueue.Misuse.{self_cancel_faults}
use lib_net_toy.Base.TimerQueue.Waiting.{each_waits_once, waits_of}
use lib_net_toy.Base.TimerQueue.IsSound.{IsSound}
use lib_net_toy.Base.EventLoop.Timers.{run_after}
use lib_net_toy.Base.TimerQueue.{
  new_timer_queue, TimerQueue, rearm, holds, cancel, add_timer, handle_timer,
}
use lib_net_toy.Prelude.{
  ℕ, zero, suc, ◌≤◌, ◌≡◌, refl, true, false, [], ◌∷◌, arith, dangling, Result, ok, fault,
  ok-injective,
}

abbrev callback : ℕ → TimerQueue → Result TimerQueue
callback t q = ok q

callback-UsesQueue : UsesQueue callback
callback-UsesQueue t q q' e = rw⁻¹ (let same : q ≡ q' = cc in same) stays

-- One timer that fires once and one that is repeated.
abbrev two_timers : TimerQueue
two_timers = (add_timer 10 10 (add_timer 5 0 new_timer_queue).1).1

two_timers-Ticks : Ticks callback new_timer_queue two_timers
two_timers-Ticks = adds 10 10 (adds 5 0 idle)

-- The first is cancelled, and then the waits of both end.
abbrev later : TimerQueue
later = record {
  timer_queue = 1 ∷ [];
  next_timer = 2;
  waits = record { timer = 1; expires = 10; interval = 10 } ∷ [];
  calls = 1 ∷ [];
}

later-Ticks : Ticks callback (cancel 0 two_timers) later
unfolding handle_timer rearm cancel add_timer
later-Ticks =
    ends [] [] (record { timer = 1; expires = 10; interval = 10 }) false
      (ends [] (record { timer = 1; expires = 10; interval = 10 } ∷ [])
        (record { timer = 0; expires = 5; interval = 0 }) true idle refl refl)
      refl refl

cancelled_stays_silent_example : times 0 later.calls ≡ 0
unfolding add_timer
cancelled_stays_silent_example =
    cancelled_stays_silent callback 0 two_timers later callback-UsesQueue two_timers-Ticks
      (ground arith) later-Ticks

-- The callback of timer 0 adds a timer, and those of the others cancel timer 0.
abbrev busy_callback : ℕ → TimerQueue → Result TimerQueue
busy_callback zero q = ok (run_after 3 q).1
busy_callback (suc t) q = ok (cancel 0 q)

busy_callback-UsesQueue : UsesQueue busy_callback
busy_callback-UsesQueue zero q q' e = coe 0 1 (i. Acts q (ok-injective e i)) (adds_on 3 0 stays)
busy_callback-UsesQueue (suc t) q q' e = coe 0 1 (i. Acts q (ok-injective e i)) (cancels_on 0 stays)

-- Timer 0 was called, and then the timer that its callback has added.
abbrev fired : TimerQueue
fired = record { timer_queue = []; next_timer = 2; waits = []; calls = 0 ∷ 1 ∷ [] }

fired-Ticks : Ticks busy_callback (run_after 5 new_timer_queue).1 fired
unfolding handle_timer rearm cancel add_timer
fired-Ticks =
    ends [] [] (record { timer = 1; expires = 3; interval = 0 }) false
      (ends [] [] (record { timer = 0; expires = 5; interval = 0 }) false idle refl refl) refl refl

fires_once_example : times 0 fired.calls ≤ 1
unfolding add_timer
fires_once_example =
    fires_once busy_callback 5 new_timer_queue fired busy_callback-UsesQueue idle fired-Ticks

each_waits_once_example :
    ((t : ℕ) → holds two_timers.timer_queue t ≡ true → waits_of t two_timers.waits ≡ 1)
    × ((t : ℕ) → waits_of t two_timers.waits ≤ 1)
    × ((t : ℕ) → two_timers.next_timer ≤ t → waits_of t two_timers.waits ≡ 0)
each_waits_once_example =
    each_waits_once busy_callback two_timers busy_callback-UsesQueue (adds 10 10 (adds 5 0 idle))

abbrev own_callback : ℕ → TimerQueue → Result TimerQueue
own_callback t q = ok (cancel t q)

two_timers-IsSound : IsSound two_timers
unfolding add_timer
two_timers-IsSound = record {
  distinct = (refl, (refl, tt));
  handed_out = λ t held. ground (arith, held);
}

self_cancel_faults_example : handle_timer own_callback 0 0 false two_timers ≡ fault dangling
unfolding add_timer
self_cancel_faults_example =
    self_cancel_faults own_callback 0 two_timers two_timers-IsSound refl (λ p. refl)
