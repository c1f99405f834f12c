-- ===== src/Base/EventLoopThread/Progress.antt =====
-- That `startLoop` returns: no order of steps ends before, and none goes on for ever.
use lib_net_toy.Base.EventLoopThread.{
  notify, EventLoopThread, OwnerPc, WorkerPc, testing, waiting, relocking, returned, joining,
  destroyed, unborn, making, notifying, calling, running, ended, Step, spawns, owner_locks, finds,
  waits, wakes_by_itself, relocks, returns, quits, joins, worker_locks, makes, notifies,
  worker_unlocks, calls, ends, Reach, start, later, new_thread,
}
use lib_net_toy.Base.EventLoopThread.Invariant.{is_unborn, Reach-Inv, has_made, Inv, worker_holds}
use lib_net_toy.Base.EventLoop.{EventLoop}
use lib_net_toy.Prelude.{
  ℕ, ◌+◌, ◌*◌, ◌≤◌, ◌<◌, ◌≡◌, refl, ◌⊎◌, inl, inr, Bool, true, false, arith, Bool-cases,
}

abbrev owner_left : OwnerPc → ℕ
owner_left OwnerPc.unstarted = 7
owner_left OwnerPc.locking = 6
owner_left relocking = 6
owner_left testing = 5
owner_left waiting = 4
owner_left (OwnerPc.unlocking l) = 3
owner_left (returned l) = 2
owner_left joining = 1
owner_left destroyed = 0

abbrev worker_left : WorkerPc → ℕ
worker_left unborn = 7
worker_left WorkerPc.locking = 6
worker_left making = 5
worker_left notifying = 4
worker_left WorkerPc.unlocking = 3
worker_left calling = 2
worker_left running = 1
worker_left ended = 0

-- What is left to do, where a wake-up that nobody asked for adds to it.
abbrev pub left : EventLoopThread → ℕ
left s = owner_left s.owner_pc + 3 * worker_left s.worker_pc

-- Whether `startLoop` was not called, or has not returned.
abbrev pub is_starting : OwnerPc → Bool
is_starting (returned l) = false
is_starting joining = false
is_starting destroyed = false
is_starting _ = true

-- A step that brings the end nearer.
abbrev Nearer : EventLoop → EventLoopThread → Type 0
Nearer new_loop s = (t : EventLoopThread) × Step new_loop s t × (left t < left s)

notify_left : (o : OwnerPc) → owner_left (notify o) ≤ owner_left o + 2
notify_left OwnerPc.unstarted = omega arith
notify_left OwnerPc.locking = omega arith
notify_left testing = omega arith
notify_left waiting = omega arith
notify_left relocking = omega arith
notify_left (OwnerPc.unlocking l) = omega arith
notify_left (returned l) = omega arith
notify_left joining = omega arith
notify_left destroyed = omega arith

unborn_left : (w : WorkerPc) → is_unborn w ≡ true → worker_left w ≡ 7
unborn_left w h = ground arith

worker_holding :
    (new_loop : EventLoop) (s : EventLoopThread) (w : WorkerPc)
    → s.worker_pc ≡ w
    → worker_holds w ≡ true
    → Nearer new_loop s
worker_holding new_loop s making e h = (_, makes e, ground arith)
worker_holding new_loop s notifying e h = (_, notifies e, ground (arith, notify_left s.owner_pc))
worker_holding new_loop s WorkerPc.unlocking e h = (_, worker_unlocks e, ground arith)
worker_holding new_loop s unborn e h = cc
worker_holding new_loop s WorkerPc.locking e h = cc
worker_holding new_loop s calling e h = cc
worker_holding new_loop s running e h = cc
worker_holding new_loop s ended e h = cc

-- The owner takes the mutex, or the worker that has it goes on.
takes :
    (new_loop : EventLoop) (s : EventLoopThread)
    → Inv new_loop s
    → (s.owner_pc ≡ OwnerPc.locking) ⊎ (s.owner_pc ≡ relocking)
    → Nearer new_loop s
takes new_loop s v e = elim (Bool-cases (worker_holds s.worker_pc)) [
  | inl held ↦ worker_holding new_loop s s.worker_pc refl held
  | inr free ↦ elim e [
    | inl first ↦ (_, owner_locks first (ground (arith, v.locked)), ground arith)
    | inr again ↦ (_, relocks again (ground (arith, v.locked)), ground arith)
  ]
]

waiting_goes_on :
    (new_loop : EventLoop) (s : EventLoopThread) (w : WorkerPc)
    → Inv new_loop s
    → s.owner_pc ≡ waiting
    → s.worker_pc ≡ w
    → Nearer new_loop s
waiting_goes_on new_loop s WorkerPc.locking v o e =
    (_, worker_locks e (ground (arith, v.locked)), ground arith)
waiting_goes_on new_loop s making v o e = worker_holding new_loop s making e refl
waiting_goes_on new_loop s notifying v o e = worker_holding new_loop s notifying e refl
waiting_goes_on new_loop s unborn v o e = absurd (let h = v.born in ground arith)
waiting_goes_on new_loop s WorkerPc.unlocking v o e = absurd (let h = v.unlost in ground arith)
waiting_goes_on new_loop s calling v o e = absurd (let h = v.unlost in ground arith)
waiting_goes_on new_loop s running v o e = absurd (let h = v.unlost in ground arith)
waiting_goes_on new_loop s ended v o e = absurd (let h = v.unlost in ground arith)

goes_on :
    (new_loop : EventLoop) (s : EventLoopThread) (o : OwnerPc)
    → Inv new_loop s
    → s.owner_pc ≡ o
    → is_starting o ≡ true
    → Nearer new_loop s
goes_on new_loop s OwnerPc.unstarted v e h =
    (_, spawns e, ground (arith, unborn_left s.worker_pc, v.born))
goes_on new_loop s OwnerPc.locking v e h = takes new_loop s v (inl e)
goes_on new_loop s relocking v e h = takes new_loop s v (inr e)
goes_on new_loop s testing v e h = elim (Bool-cases (has_made s.worker_pc)) [
  | inl made ↦ (_, finds new_loop e (ground (arith, v.built)), ground arith)
  | inr unmade ↦ (_, waits e (ground (arith, v.built)), ground arith)
]
goes_on new_loop s waiting v e h = waiting_goes_on new_loop s s.worker_pc v e refl
goes_on new_loop s (OwnerPc.unlocking l) v e h = (_, returns l e, ground arith)
goes_on new_loop s (returned l) v e h = cc
goes_on new_loop s joining v e h = cc
goes_on new_loop s destroyed v e h = cc

-- `startLoop` does not lock up: from every state that the two threads can reach before it has
-- returned a step can be made that leaves less to do. No notification is lost.
pub start_loop_goes_on :
    {new_loop : EventLoop} {has_callback : Bool} {s : EventLoopThread}
    → Reach new_loop has_callback s
    → is_starting s.owner_pc ≡ true
    → (t : EventLoopThread) × Step new_loop s t × (left t < left s)
start_loop_goes_on {new_loop} {s} r h = goes_on new_loop s s.owner_pc (Reach-Inv r) refl h

-- 1 for a wake-up that nobody asked for.
abbrev pub unasked : {new_loop : EventLoop} {s t : EventLoopThread} → Step new_loop s t → ℕ
unasked (wakes_by_itself o) = 1
unasked _ = 0

-- `n` steps, of which `k` are wake-ups that nobody asked for.
pub data Run (new_loop : EventLoop) (has_callback : Bool) : ℕ → ℕ → EventLoopThread → Type 0 where
  begin : Run new_loop has_callback 0 0 (new_thread has_callback)
  then_step :
      {n k : ℕ} {s t : EventLoopThread}
      → Run new_loop has_callback n k s
      → (st : Step new_loop s t) → Run new_loop has_callback (n + 1) (k + unasked st) t

Run-Reach :
    {new_loop : EventLoop} {has_callback : Bool} {n k : ℕ} {s : EventLoopThread}
    → Run new_loop has_callback n k s
    → Reach new_loop has_callback s
Run-Reach begin = start
Run-Reach (then_step r st) = later (Run-Reach r) st

Step-left :
    {new_loop : EventLoop} {s t : EventLoopThread} (st : Step new_loop s t)
    → Inv new_loop s
    → left t + 1 ≤ left s + 3 * unasked st
Step-left {s} (spawns o) v = ground (arith, unborn_left s.worker_pc, v.born)
Step-left (owner_locks o m) v = ground arith
Step-left (finds l o h) v = ground arith
Step-left (waits o h) v = ground arith
Step-left (wakes_by_itself o) v = ground arith
Step-left (relocks o m) v = ground arith
Step-left (returns l o) v = ground arith
Step-left (quits l o) v = ground arith
Step-left (joins o w) v = ground arith
Step-left (worker_locks w m) v = ground arith
Step-left (makes w) v = ground arith
Step-left {s} (notifies w) v = ground (arith, notify_left s.owner_pc)
Step-left (worker_unlocks w) v = ground arith
Step-left (calls l w h) v = ground arith
Step-left (ends w h) v = ground arith

Run-left :
    {new_loop : EventLoop} {has_callback : Bool} {n k : ℕ} {s : EventLoopThread}
    → Run new_loop has_callback n k s
    → n + left s ≤ 28 + 3 * k
Run-left begin = omega arith
Run-left (then_step r st) = omega (arith, Run-left r, Step-left st (Reach-Inv (Run-Reach r)))

-- However the two threads' steps are ordered, from the construction to the destruction there are 28
-- at most, and three more for each wake-up of the owner that nobody asked for.
pub steps_bounded :
    {new_loop : EventLoop} {has_callback : Bool} {n k : ℕ} {s : EventLoopThread}
    → Run new_loop has_callback n k s
    → n ≤ 28 + 3 * k
steps_bounded r = omega (arith, Run-left r)
