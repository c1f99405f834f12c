-- ===== src/Base/TimerQueue/Misuse.antt =====
-- A callback that cancels its own timer.
use lib_net_toy.Base.TimerQueue.IsSound.{IsSound, holds-erase_timer}
use lib_net_toy.Base.TimerQueue.{handle_timer, cancel, holds, TimerQueue, rearm}
use lib_net_toy.Prelude.{ℕ, ◌≡◌, true, false, [], ◌∷◌, ◌++◌, arith, dangling, Result, ok, fault}

-- The flaw: when the callback of a timer that fires once cancels this timer, the entry that
-- `handleTimer` erases behind the call is gone already.
pub self_cancel_faults :
    (callback : ℕ → TimerQueue → Result TimerQueue) (t : ℕ) (q : TimerQueue)
    → IsSound q
    → holds q.timer_queue t ≡ true
    → ((p : TimerQueue) → callback t p ≡ ok (cancel t p))
    → handle_timer callback t 0 false q ≡ fault dangling
unfolding handle_timer rearm cancel
self_cancel_faults callback t q s held own = ground (
  arith,
  held,
  own (record q { calls = q.calls ++ t ∷ [] }),
  holds-erase_timer t q.timer_queue s.distinct,
)
