-- ===== src/Base/EventLoopThread/Outcome.antt =====
-- What `startLoop` returns, and what the destructor leaves.
use lib_net_toy.Base.EventLoopThread.Invariant.{Reach-Inv}
use lib_net_toy.Base.EventLoop.{EventLoop}
use lib_net_toy.Base.EventLoopThread.{
  EventLoopThread, returned, destroyed, ended, Step, spawns, owner_locks, finds, waits,
  wakes_by_itself, relocks, returns, quits, joins, worker_locks, makes, notifies, worker_unlocks,
  calls, ends, Reach, start, later,
}
use lib_net_toy.Prelude.{◌≡◌, refl, ◌∙◌, Bool, false, some, [], ◌∷◌, arith, if◌then◌else◌}

Step-has_callback :
    {new_loop : EventLoop} {s t : EventLoopThread}
    → Step new_loop s t
    → t.has_callback ≡ s.has_callback
Step-has_callback (spawns o) = refl
Step-has_callback (owner_locks o m) = refl
Step-has_callback (finds l o h) = refl
Step-has_callback (waits o h) = refl
Step-has_callback (wakes_by_itself o) = refl
Step-has_callback (relocks o m) = refl
Step-has_callback (returns l o) = refl
Step-has_callback (quits l o) = refl
Step-has_callback (joins o w) = refl
Step-has_callback (worker_locks w m) = refl
Step-has_callback (makes w) = refl
Step-has_callback (notifies w) = refl
Step-has_callback (worker_unlocks w) = refl
Step-has_callback (calls l w h) = refl
Step-has_callback (ends w h) = refl

Reach-has_callback :
    {new_loop : EventLoop} {has_callback : Bool} {s : EventLoopThread}
    → Reach new_loop has_callback s
    → s.has_callback ≡ has_callback
Reach-has_callback start = refl
Reach-has_callback (later r st) = Step-has_callback st ∙ Reach-has_callback r

-- `startLoop` returns the loop that the worker has made and stored, and the loop is not stopped.
pub start_loop_result :
    {new_loop l : EventLoop} {has_callback : Bool} {s : EventLoopThread}
    → Reach new_loop has_callback s
    → s.owner_pc ≡ returned l
    → (l ≡ new_loop) × (s.loop ≡ some l) × (s.stopped ≡ false)
start_loop_result r e = let v = Reach-Inv r in ground (arith, v.got, v.built, v.halted)

-- When the destructor is done the worker has ended, and has called the callback, if there is one,
-- once, with its loop.
pub destroyed_result :
    {new_loop : EventLoop} {has_callback : Bool} {s : EventLoopThread}
    → Reach new_loop has_callback s
    → s.owner_pc ≡ destroyed
    → (s.worker_pc ≡ ended) × (s.called ≡ (if has_callback then new_loop ∷ [] else []))
destroyed_result r e = let v = Reach-Inv r in ground (arith, v.got, v.told, Reach-has_callback r)
