-- ===== src/Base/EventLoopThread.antt =====
-- src/base/EventLoopThread.h and EventLoopThread.cpp: a loop in a thread of its own. The owner calls
-- `startLoop` and then destroys the object, the worker runs `threadFunc`; a step is what one of them does
-- between two accesses to what they share, and any order of steps may happen. `wait` gives the mutex
-- back and waits in one step, and may end without a `notify_one`. `EventLoop::loop` returns when the
-- loop was stopped. `new_loop` is the loop that the worker makes.
pub mod Invariant
pub mod Progress
pub mod Tests
pub mod Outcome
use lib_net_toy.Base.EventLoop.{EventLoop}
use lib_net_toy.Prelude.{◌≡◌, Bool, true, false, Option, none, some, List, [], ◌∷◌, ◌++◌}

pub data Thread : Type 0 where
  owner worker : Thread

-- Where the owner stands: in `startLoop`, up to `returned`, and in the destructor.
pub data OwnerPc : Type 0 where
  unstarted locking testing waiting relocking : OwnerPc
  unlocking returned : EventLoop → OwnerPc
  joining destroyed : OwnerPc

-- Where the worker stands in `threadFunc`.
pub data WorkerPc : Type 0 where
  unborn locking making notifying unlocking calling running ended : WorkerPc

-- The fields, the mutex with its holder, the two threads, whether the loop was stopped, and the
-- calls of `callback_`.
pub record EventLoopThread : Type 0 where
  pub has_callback : Bool
  pub loop : Option EventLoop
  pub mutex : Option Thread
  pub owner_pc : OwnerPc
  pub worker_pc : WorkerPc
  pub stopped : Bool
  pub called : List EventLoop

-- The constructor.
abbrev pub new_thread : Bool → EventLoopThread
new_thread has_callback = record {
  has_callback = has_callback;
  loop = none;
  mutex = none;
  owner_pc = unstarted;
  worker_pc = unborn;
  stopped = false;
  called = [];
}

-- `cv_.notify_one()`: the owner, if it waits, goes on to take the mutex again.
abbrev pub notify : OwnerPc → OwnerPc
notify waiting = relocking
notify pc = pc

-- `if(callback_) callback_(loop_)`
abbrev pub call_back : Bool → EventLoop → List EventLoop → List EventLoop
call_back true l called = called ++ l ∷ []
call_back false l called = called

pub data Step (new_loop : EventLoop) (s : EventLoopThread) : EventLoopThread → Type 0 where
  spawns :
      s.owner_pc ≡ OwnerPc.unstarted
      → Step new_loop s (record s { owner_pc = OwnerPc.locking; worker_pc = WorkerPc.locking })
  owner_locks :
      s.owner_pc ≡ OwnerPc.locking
      → s.mutex ≡ none
      → Step new_loop s (record s { owner_pc = testing; mutex = some owner })
  finds :
      (l : EventLoop)
      → s.owner_pc ≡ testing
      → s.loop ≡ some l
      → Step new_loop s (record s { owner_pc = OwnerPc.unlocking l })
  waits :
      s.owner_pc ≡ testing
      → s.loop ≡ none
      → Step new_loop s (record s { owner_pc = waiting; mutex = none })
  wakes_by_itself : s.owner_pc ≡ waiting → Step new_loop s (record s { owner_pc = relocking })
  relocks :
      s.owner_pc ≡ relocking
      → s.mutex ≡ none
      → Step new_loop s (record s { owner_pc = testing; mutex = some owner })
  returns :
      (l : EventLoop)
      → s.owner_pc ≡ OwnerPc.unlocking l
      → Step new_loop s (record s { owner_pc = returned l; mutex = none })
  quits :
      (l : EventLoop)
      → s.owner_pc ≡ returned l
      → Step new_loop s (record s { owner_pc = joining; stopped = true })
  joins :
      s.owner_pc ≡ joining
      → s.worker_pc ≡ ended
      → Step new_loop s (record s { owner_pc = destroyed })
  worker_locks :
      s.worker_pc ≡ WorkerPc.locking
      → s.mutex ≡ none
      → Step new_loop s (record s { worker_pc = making; mutex = some worker })
  makes :
      s.worker_pc ≡ making
      → Step new_loop s (record s { worker_pc = notifying; loop = some new_loop })
  notifies :
      s.worker_pc ≡ notifying
      → Step new_loop s (record s { worker_pc = WorkerPc.unlocking; owner_pc = notify s.owner_pc })
  worker_unlocks :
      s.worker_pc ≡ WorkerPc.unlocking
      → Step new_loop s (record s { worker_pc = calling; mutex = none })
  calls :
      (l : EventLoop)
      → s.worker_pc ≡ calling
      → s.loop ≡ some l
      → Step new_loop s
          (record s { worker_pc = running; called = call_back s.has_callback l s.called })
  ends : s.worker_pc ≡ running → s.stopped ≡ true → Step new_loop s (record s { worker_pc = ended })

pub data Reach (new_loop : EventLoop) (has_callback : Bool) : EventLoopThread → Type 0 where
  start : Reach new_loop has_callback (new_thread has_callback)
  later :
      {s t : EventLoopThread}
      → Reach new_loop has_callback s
      → Step new_loop s t
      → Reach new_loop has_callback t
