-- ===== src/Base/TimerQueue.antt =====
-- src/base/TimerQueue.h and TimerQueue.cpp: the timers of a loop. A timer is a number; the map alone
-- holds it, so a weak pointer to it is alive while it is in the map. `waits` has the waits that were
-- started, for which asio will call `handle_timer`, and `calls` the timers whose callbacks were
-- called, in order. A callback is named by its timer, and what it does to the queue is an argument.
pub mod Runs
pub mod IsSound
pub mod Cancelling
pub mod Waiting
pub mod Pending
pub mod Once
pub mod Misuse
pub mod Tests
use lib_net_toy.Prelude.{
  ℕ, ◌+◌, Bool, false, ◌||◌, List, [], ◌∷◌, ◌++◌, ◌==◌, if◌then◌else◌, dangling, Result, ok, fault,
  ◌>>=◌, ◌>>◌,
}

-- The timer, after how many milliseconds it expires, and its interval.
pub record Wait : Type 0 where
  pub timer : ℕ
  pub expires : ℕ
  pub interval : ℕ

pub record TimerQueue : Type 0 where
  pub timer_queue : List ℕ
  pub next_timer : ℕ
  pub waits : List Wait
  pub calls : List ℕ

abbrev pub new_timer_queue : TimerQueue
new_timer_queue = record { timer_queue = []; next_timer = 0; waits = []; calls = [] }

-- Whether the map has the timer, which is also what `lock` on a weak pointer to it says.
abbrev pub holds : List ℕ → ℕ → Bool
holds [] t = false
holds (x ∷ xs) t = x == t || holds xs t

abbrev pub erase_timer : ℕ → List ℕ → List ℕ
erase_timer t [] = []
erase_timer t (x ∷ xs) = if x == t then xs else x ∷ erase_timer t xs

unfoldable pub add_timer : ℕ → ℕ → TimerQueue → ℕ × TimerQueue
add_timer expires interval q = (
  q.next_timer,
  record q {
    timer_queue = q.timer_queue ++ q.next_timer ∷ [];
    next_timer = q.next_timer + 1;
    waits = q.waits ++ record { timer = q.next_timer; expires = expires; interval = interval } ∷ [];
  },
)

unfoldable pub cancel : ℕ → TimerQueue → TimerQueue
cancel t q =
    if holds q.timer_queue t then record q { timer_queue = erase_timer t q.timer_queue } else q

-- After the callback: a timer that the callback has erased itself leaves the iterator dangling.
unfoldable pub rearm : ℕ → ℕ → TimerQueue → Result TimerQueue
rearm t interval q =
    if interval == 0
    then if holds q.timer_queue t
      then ok (record q { timer_queue = erase_timer t q.timer_queue })
      else fault dangling
    else ok (record q {
      waits = q.waits ++ record { timer = t; expires = interval; interval = interval } ∷ [];
    })

module _ (callback : ℕ → TimerQueue → Result TimerQueue) where
  unfoldable pub handle_timer : ℕ → ℕ → Bool → TimerQueue → Result TimerQueue
  handle_timer t interval error q =
      if holds q.timer_queue t
      then if error
        then ok (record q { timer_queue = erase_timer t q.timer_queue })
        else (do q₁ ← callback t (record q { calls = q.calls ++ t ∷ [] }); rearm t interval q₁)
      else ok q
