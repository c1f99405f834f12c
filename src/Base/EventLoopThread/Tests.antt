-- ===== src/Base/EventLoopThread/Tests.antt =====
-- One order of the steps, from the construction to the destruction, and the theorems applied to it.
use lib_net_toy.Base.EventLoopThread.Progress.{
  start_loop_goes_on, steps_bounded, Run, left, begin, then_step,
}
use lib_net_toy.Base.EventLoopThread.Outcome.{start_loop_result}
use lib_net_toy.Base.EventLoop.{EventLoop}
use lib_net_toy.Base.EventLoopThread.{
  EventLoopThread, WorkerPc, waiting, returned, destroyed, calling, ended, Step, spawns,
  owner_locks, finds, waits, relocks, returns, quits, joins, worker_locks, makes, notifies,
  worker_unlocks, calls, ends, Reach, start, later, new_thread,
}
use lib_net_toy.Prelude.{◌+◌, ◌*◌, ◌≤◌, ◌<◌, ◌≡◌, refl, true, false, some, [], ◌∷◌}

abbrev its_loop : EventLoop
its_loop = record { this = 2; thread_id = 8 }

-- The owner waits before the worker has begun.
abbrev waited : EventLoopThread
waited = record (new_thread true) { owner_pc = waiting; worker_pc = WorkerPc.locking }

waited-Run : Run its_loop true 3 0 waited
waited-Run =
    then_step (then_step (then_step begin (spawns refl)) (owner_locks refl refl)) (waits refl refl)

waited-Reach : Reach its_loop true waited
waited-Reach = later (later (later start (spawns refl)) (owner_locks refl refl)) (waits refl refl)

-- The worker makes the loop and notifies, and `startLoop` returns.
abbrev served : EventLoopThread
served = record waited { loop = some its_loop; owner_pc = returned its_loop; worker_pc = calling }

served-Reach : Reach its_loop true served
served-Reach =
    later
      (later
        (later
          (later
            (later (later (later waited-Reach (worker_locks refl refl)) (makes refl))
              (notifies refl))
            (worker_unlocks refl))
          (relocks refl refl))
        (finds its_loop refl refl))
      (returns its_loop refl)

-- The destructor stops the loop before the worker has entered it.
abbrev gone : EventLoopThread
gone = record served {
  owner_pc = destroyed;
  worker_pc = ended;
  stopped = true;
  called = its_loop ∷ [];
}

gone-Reach : Reach its_loop true gone
gone-Reach =
    later
      (later (later (later served-Reach (quits its_loop refl)) (calls its_loop refl refl))
        (ends refl refl))
      (joins refl refl)

start_loop_goes_on_example : (t : EventLoopThread) × Step its_loop waited t × (left t < left waited)
start_loop_goes_on_example = start_loop_goes_on waited-Reach refl

steps_bounded_example : 3 ≤ 28 + 3 * 0
steps_bounded_example = steps_bounded waited-Run

start_loop_result_example :
    (its_loop ≡ its_loop) × (served.loop ≡ some its_loop) × (served.stopped ≡ false)
start_loop_result_example = start_loop_result served-Reach refl
