-- ===== src/Base/EventLoop.antt =====
-- src/base/EventLoop.h and EventLoop.cpp. `boost::asio::io_service` is not modelled: `post`, `run`
-- and `stop` are the environment's, and a client says what they do to its own state. A functor is
-- a value of the client's task type, `exec` is what calling it does, and `post` queues it.
pub mod Timers
use lib_net_toy.Prelude.{
  ℕ, ◌≡◌, Bool, true, Option, none, some, ◌==◌, if◌then◌else◌, Result, ok, assert, arith,
}

-- The address of the loop, and the thread that constructed it.
pub record EventLoop : Type 0 where
  pub this : ℕ
  pub thread_id : ℕ

-- The constructor, in thread `thread` with `loop_in_this_thread` of that thread: the second loop of
-- a thread is logged as fatal and not entered.
pub new_event_loop : ℕ → ℕ → Option ℕ → EventLoop × Option ℕ
new_event_loop this thread none = (record { this = this; thread_id = thread }, some this)
new_event_loop this thread (some other) = (record { this = this; thread_id = thread }, some other)

abbrev pub get_event_loop_of_current_thread : Option ℕ → Option ℕ
get_event_loop_of_current_thread loop_in_this_thread = loop_in_this_thread

abbrev pub is_in_loop_thread : EventLoop → ℕ → Bool
is_in_loop_thread loop thread = loop.thread_id == thread

abbrev pub assert_in_loop_thread : EventLoop → ℕ → Result (Unit {0})
assert_in_loop_thread loop thread = assert (is_in_loop_thread loop thread)

module _ {ℓ κ} {T : Type ℓ} {S : Type κ} (exec : T → S → Result S) (post : T → S → S) where
  abbrev pub queue_in_loop : T → S → S
  queue_in_loop cb s = post cb s

  -- At once in the loop's own thread, queued from any other.
  abbrev pub run_in_loop : EventLoop → ℕ → T → S → Result S
  run_in_loop loop thread cb s =
      if is_in_loop_thread loop thread then exec cb s else ok (queue_in_loop cb s)

pub is_in_loop_thread-true :
    (loop : EventLoop) (thread : ℕ) → loop.thread_id ≡ thread → is_in_loop_thread loop thread ≡ true
is_in_loop_thread-true loop thread h = ground arith
