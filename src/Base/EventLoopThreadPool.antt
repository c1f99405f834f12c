-- ===== src/Base/EventLoopThreadPool.antt =====
-- src/base/EventLoopThreadPool.h and EventLoopThreadPool.cpp: a pool of loops, each in a thread of
-- its own, handed out in turn. `EventLoopThread::startLoop` returns a loop that is new: it enters
-- as the supply of loops. Names are byte strings; the pool's own thread is an argument.
pub mod Tests
pub mod Turns
use lib_net_toy.Prelude.{
  ℕ, zero, suc, ◌+◌, ◌-◌, ◌*◌, ◌/◌, ◌%◌, ◌^◌, ◌≤◌, ◌<◌, min, ◌≡◌, refl, sym, ap, ap₂, ◌∙◌, ◌≢◌, ◌↔◌,
  ◌⊎◌, inl, inr, Bool, true, false, ◌&&◌, ◌||◌, not, Option, none, some, List, [], ◌∷◌, ◌++◌, map,
  reverse, append-nil, append_assoc, arith, dec_lt, ℕ_discrete, ltb, leb, ◌==◌, if◌then◌else◌,
  Bool-cases, Option-cases, Fault, assertion, out_of_range, length_error, null_pointer, dangling,
  bad_function_call, Result, ok, fault, ◌>>=◌, ◌>>◌, assert, Result-cases, length, take, drop,
  get_elem?,
}
use lib_net_toy.Prelude.Int.{ℤ, pos, negsuc, pos_part}
use lib_net_toy.Prelude.Decimal.{decimal}
use lib_net_toy.Base.EventLoop.{EventLoop, assert_in_loop_thread}

pub record EventLoopThread : Type 0 where
  pub name : List ℕ
  pub loop : EventLoop

pub record EventLoopThreadPool : Type 0 where
  pub base_loop : EventLoop
  pub name : List ℕ
  pub started : Bool
  pub num_threads : ℤ
  pub next : ℕ
  pub threads : List EventLoopThread
  pub loops : List EventLoop

-- `v[i]` of a vector, undefined outside it.
abbrev pub at {ℓ} : {A : Type ℓ} → List A → ℕ → Result A
at xs i = elim (get_elem? xs i) [ none ↦ fault out_of_range | some x ↦ ok x ]

pub at-eq-ok {ℓ} :
    {A : Type ℓ} (xs : List A) (i : ℕ) (x : A) → get_elem? xs i ≡ some x → at xs i ≡ ok x
at-eq-ok xs i x e = rw (at, e) refl

pub get_elem?-at {ℓ} :
    {A : Type ℓ} (xs : List A) (i : ℕ) (x : A) → at xs i ≡ ok x → get_elem? xs i ≡ some x
get_elem?-at xs i x e = ground arith

unfoldable pub init : EventLoop → List ℕ → EventLoopThreadPool
init base_loop name = record {
  base_loop = base_loop;
  name = name;
  started = false;
  num_threads = pos 0;
  next = 0;
  threads = [];
  loops = [];
}

unfoldable pub set_thread_num : EventLoopThreadPool → ℤ → EventLoopThreadPool
set_thread_num p num_threads = record p { num_threads = num_threads }

-- `c_str()`, as a C function reads it: up to the first NUL.
abbrev pub c_string : List ℕ → List ℕ
c_string [] = []
c_string (c ∷ cs) = if c == 0 then [] else c ∷ c_string cs

-- `snprintf(buf, 255, "%s%d", ...)` keeps 254 characters.
abbrev pub thread_name : List ℕ → ℕ → List ℕ
thread_name name i = take 254 (c_string name ++ decimal i)

-- The loop of `start`: `n` rounds from `i` on; `supply i` is the loop that thread `i` starts.
unfoldable pub start_threads : (ℕ → EventLoop) → EventLoopThreadPool → ℕ → ℕ → EventLoopThreadPool
start_threads supply p zero i = p
start_threads supply p (suc n) i =
    start_threads supply
      (record p {
        threads = p.threads ++ record { name = thread_name p.name i; loop = supply i } ∷ [];
        loops = p.loops ++ supply i ∷ [];
      })
      n (i + 1)

abbrev pub is_zero : ℤ → Bool
is_zero (pos n) = n == 0
is_zero (negsuc n) = false

-- `start(cb)`: the pool, and the loops that `cb` is called with in this thread.
unfoldable pub start :
    (ℕ → EventLoop) → ℕ → Bool → EventLoopThreadPool → Result (EventLoopThreadPool × List EventLoop)
unfolding start_threads
start supply thread has_cb p = do
  assert (not p.started)
  assert_in_loop_thread p.base_loop thread
  let p' = start_threads supply (record p { started = true }) (pos_part p.num_threads) 0
  ok (p', if is_zero p.num_threads && has_cb then p.base_loop ∷ [] else [])

abbrev pub is_empty {ℓ} : {A : Type ℓ} → List A → Bool
is_empty [] = true
is_empty (x ∷ xs) = false

-- The branch of `getNextLoop` on a pool with threads.
unfoldable pub advance : EventLoopThreadPool → Result (EventLoop × EventLoopThreadPool)
advance p = do
  loop ← at p.loops p.next
  let next = p.next + 1
  ok (loop, record p { next = if leb (length p.loops) next then 0 else next })

unfoldable pub get_next_loop : ℕ → EventLoopThreadPool → Result (EventLoop × EventLoopThreadPool)
unfolding advance
get_next_loop thread p = do
  assert_in_loop_thread p.base_loop thread
  assert p.started
  if is_empty p.loops then ok (p.base_loop, p) else advance p

pub get_loop_for_hash : ℕ → EventLoopThreadPool → ℕ → Result EventLoop
get_loop_for_hash thread p hash_code = do
  assert_in_loop_thread p.base_loop thread
  if is_empty p.loops then ok p.base_loop else at p.loops (hash_code % length p.loops)

pub get_all_loops : ℕ → EventLoopThreadPool → Result (List EventLoop)
get_all_loops thread p = do
  assert_in_loop_thread p.base_loop thread
  assert p.started
  ok (if is_empty p.loops then p.base_loop ∷ [] else p.loops)
