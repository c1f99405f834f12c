-- ===== src/Base/EventLoopThread/Invariant.antt =====
-- What holds in every order of the two threads' steps.
use lib_net_toy.Base.EventLoop.{EventLoop}
use lib_net_toy.Base.EventLoopThread.{
  EventLoopThread, OwnerPc, WorkerPc, Thread, owner, worker, testing, waiting, returned, joining,
  destroyed, unborn, making, notifying, running, ended, Step, spawns, owner_locks, finds, waits,
  wakes_by_itself, relocks, returns, quits, joins, worker_locks, makes, notifies, worker_unlocks,
  calls, ends, Reach, start, later, new_thread,
}
use lib_net_toy.Prelude.{
  ◌≡◌, Bool, true, false, ◌&&◌, Option, none, some, [], ◌∷◌, arith, if◌then◌else◌,
}

abbrev pub owner_holds : OwnerPc → Bool
owner_holds testing = true
owner_holds (OwnerPc.unlocking l) = true
owner_holds _ = false

abbrev pub worker_holds : WorkerPc → Bool
worker_holds making = true
worker_holds notifying = true
worker_holds WorkerPc.unlocking = true
worker_holds _ = false

abbrev pub holder : OwnerPc → WorkerPc → Option Thread
holder o w = if owner_holds o then some owner else if worker_holds w then some worker else none

-- Whether `new EventLoop` is done, and whether `notify_one` is.
abbrev pub has_made : WorkerPc → Bool
has_made unborn = false
has_made WorkerPc.locking = false
has_made making = false
has_made _ = true

abbrev pub has_notified : WorkerPc → Bool
has_notified notifying = false
has_notified w = has_made w

abbrev pub has_called : WorkerPc → Bool
has_called running = true
has_called ended = true
has_called _ = false

abbrev pub is_unstarted : OwnerPc → Bool
is_unstarted OwnerPc.unstarted = true
is_unstarted _ = false

abbrev pub is_unborn : WorkerPc → Bool
is_unborn unborn = true
is_unborn _ = false

abbrev pub is_waiting : OwnerPc → Bool
is_waiting waiting = true
is_waiting _ = false

abbrev pub has_quit : OwnerPc → Bool
has_quit joining = true
has_quit destroyed = true
has_quit _ = false

-- What the owner has got from `startLoop`, and that it is the worker's loop.
abbrev pub Got : EventLoop → OwnerPc → WorkerPc → Type 0
Got new_loop (OwnerPc.unlocking l) w = (l ≡ new_loop) × (has_made w ≡ true)
Got new_loop (returned l) w = (l ≡ new_loop) × (has_made w ≡ true)
Got new_loop joining w = has_made w ≡ true
Got new_loop destroyed w = w ≡ ended
Got new_loop _ w = Unit {0}

pub record Inv (new_loop : EventLoop) (s : EventLoopThread) : Type 0 where
  pub locked : s.mutex ≡ holder s.owner_pc s.worker_pc
  pub apart : (owner_holds s.owner_pc && worker_holds s.worker_pc) ≡ false
  pub built : s.loop ≡ (if has_made s.worker_pc then some new_loop else none)
  pub born : is_unstarted s.owner_pc ≡ is_unborn s.worker_pc
  pub unlost : (is_waiting s.owner_pc && has_notified s.worker_pc) ≡ false
  pub got : Got new_loop s.owner_pc s.worker_pc
  pub halted : s.stopped ≡ has_quit s.owner_pc
  pub told : s.called ≡ (if has_called s.worker_pc && s.has_callback then new_loop ∷ [] else [])

new_thread-Inv :
    (new_loop : EventLoop) (has_callback : Bool) → Inv new_loop (new_thread has_callback)
new_thread-Inv new_loop has_callback = ground arith

Step-Inv :
    {new_loop : EventLoop} {s t : EventLoopThread}
    → Step new_loop s t
    → Inv new_loop s
    → Inv new_loop t
Step-Inv (spawns o) v = ground arith
Step-Inv (owner_locks o m) v = ground arith
Step-Inv (finds l o h) v = ground arith
Step-Inv (waits o h) v = ground arith
Step-Inv (wakes_by_itself o) v = ground arith
Step-Inv (relocks o m) v = ground arith
Step-Inv (returns l o) v = ground arith
Step-Inv (quits l o) v = ground arith
Step-Inv (joins o w) v = ground arith
Step-Inv (worker_locks w m) v = ground arith
Step-Inv (makes w) v = ground arith
Step-Inv (notifies w) v = ground arith
Step-Inv (worker_unlocks w) v = ground arith
Step-Inv (calls l w h) v = ground arith
Step-Inv (ends w h) v = ground arith

pub Reach-Inv :
    {new_loop : EventLoop} {has_callback : Bool} {s : EventLoopThread}
    → Reach new_loop has_callback s
    → Inv new_loop s
Reach-Inv {new_loop} {has_callback} start = new_thread-Inv new_loop has_callback
Reach-Inv (later r st) = Step-Inv st (Reach-Inv r)
