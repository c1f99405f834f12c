-- ===== src/Base/EventLoop/Timers.antt =====
-- src/base/EventLoop.h: the timers of a loop, by its queue. Delays and intervals are not negative.
use lib_net_toy.Base.TimerQueue.{TimerQueue, add_timer}
use lib_net_toy.Base.TimerQueue
use lib_net_toy.Prelude.{ℕ}

abbrev pub run_after : ℕ → TimerQueue → ℕ × TimerQueue
run_after delay_ms q = add_timer delay_ms 0 q

abbrev pub run_every : ℕ → TimerQueue → ℕ × TimerQueue
run_every interval_ms q = add_timer interval_ms interval_ms q

abbrev pub cancel : ℕ → TimerQueue → TimerQueue
cancel to_kill q = TimerQueue.cancel to_kill q
