-- ===== src/Base/EventLoopThreadPool/Turns.antt =====
-- Who gets the next loop: the round robin of the pool.
use lib_net_toy.Base.EventLoop.{is_in_loop_thread-true, EventLoop}
use lib_net_toy.Prelude.{
  ◌&&◌, ◌==◌, length-append, get_elem?-append_last, get_elem?-append_left, dec_lt, Bool-cases,
  if◌then◌else◌, get_elem?-eq-some, ℕ, zero, suc, ◌+◌, ◌%◌, ◌<◌, ◌≡◌, refl, sym, ap, ◌∙◌, inl, inr,
  Bool, true, false, List, [], ◌∷◌, ◌++◌, length, some, get_elem?, leb, Result, ok, fault,
  assertion, ◌>>=◌, arith,
}
use lib_net_toy.Base.EventLoopThreadPool.{
  thread_name, EventLoopThread, is_empty, EventLoopThreadPool, init, set_thread_num, start_threads,
  start, advance, get_next_loop, get_loop_for_hash,
}
use native.Mathlib.Nat.{mod-add-mod, add-zero, mod-eq_of_lt}
use Prim.Native.Nat.{◌<◌}
use lib_net_toy.Prelude.Int.{pos, pos_part}

is_empty-false {ℓ} : {A : Type ℓ} (xs : List A) (n : ℕ) → n < length xs → is_empty xs ≡ false
is_empty-false [] n h = absurd (omega arith)
is_empty-false (x ∷ xs) n h = refl

-- The loops that `n` calls of `getNextLoop` return.
pub deal : ℕ → ℕ → EventLoopThreadPool → Result (List EventLoop × EventLoopThreadPool)
deal thread zero p = ok ([], p)
deal thread (suc n) p = do
  (loop, p') ← get_next_loop thread p
  (rest, p'') ← deal thread n p'
  ok (loop ∷ rest, p'')

wrap : (n i : ℕ) → i < n → (if leb n (i + 1) then 0 else i + 1) ≡ (i + 1) % n
wrap n i h = elim (Bool-cases (leb n (i + 1))) [
  | inl last ↦ rw last (let e : i + 1 ≡ n = ground arith in rw e (grind arith))
  | inr more ↦ rw more (sym (mod-eq_of_lt (ground arith)))
]

pub shift : (n i k j : ℕ) → j ≡ i + suc k → ((i + 1) % n + k) % n ≡ j % n
shift n i k j h = rw mod-add-mod (ap (λ m. m % n) (omega arith))

-- In the loop's thread, on a started pool with threads, a call returns the loop whose turn it is
-- and moves the turn on, round the vector.
pub get_next_loop_lem :
    (thread : ℕ) (p : EventLoopThreadPool)
    → p.base_loop.thread_id ≡ thread
    → p.started ≡ true
    → p.next < length p.loops
    → (loop : EventLoop) × (get_elem? p.loops p.next ≡ some loop)
      × (get_next_loop thread p ≡ ok (loop, record p { next = (p.next + 1) % length p.loops }))
unfolding get_next_loop advance
get_next_loop_lem thread p t s h =
    let (loop, e) = get_elem?-eq-some p.loops p.next h in
    (loop, e, ground (arith, e, is_empty-false p.loops p.next h, wrap (length p.loops) p.next h))

pub deal_turns :
    (loops xs : List EventLoop) (i n : ℕ) (loop : EventLoop)
    → i < length loops
    → get_elem? loops i ≡ some loop
    → ((k : ℕ)
        → k < n
        → get_elem? xs k ≡ get_elem? loops (((i + 1) % length loops + k) % length loops))
    → (k : ℕ) → k < suc n
    → get_elem? (loop ∷ xs) k ≡ get_elem? loops ((i + k) % length loops)
deal_turns loops xs i n loop h g r zero lt =
    sym (rw (mod-eq_of_lt {n = i + 0} {m = length loops} (omega arith)) (rw add-zero g))
deal_turns loops xs i n loop h g r (suc k) lt =
    r k (omega arith) ∙ ap (get_elem? loops) (shift (length loops) i k (i + suc k) refl)

deal_lem :
    (thread n : ℕ) (p : EventLoopThreadPool)
    → p.base_loop.thread_id ≡ thread
    → p.started ≡ true
    → p.next < length p.loops
    → (xs : List EventLoop) × (deal thread n p
        ≡ ok (xs, record p { next = (p.next + n) % length p.loops }))
      × (length xs ≡ n)
      × ((k : ℕ) → k < n → get_elem? xs k ≡ get_elem? p.loops ((p.next + k) % length p.loops))
unfolding deal
deal_lem thread zero p t s h = (
  [],
  ap (λ m. ok ([], record p { next = m }))
      (sym (mod-eq_of_lt {n = p.next + 0} {m = length p.loops} (omega arith) ∙ add-zero p.next)),
  refl,
  λ k lt. absurd (omega arith),
)
deal_lem thread (suc n) p t s h =
    let (loop, g, e) = get_next_loop_lem thread p t s h in
    let (xs, e', l, r) =
      deal_lem thread n (record p { next = (p.next + 1) % length p.loops }) t s (omega arith) in
    (
      loop ∷ xs,
      rw (e, e')
          (ap (λ m. ok (loop ∷ xs, record p { next = m }))
            (shift (length p.loops) p.next n (p.next + suc n) refl)),
      ap suc l,
      deal_turns p.loops xs p.next n loop h g r,
    )

-- `n` calls deal the loops round the vector from the current turn on: call `k` gets the loop at
-- `(next + k) % size`, and afterwards the turn has moved on by `n`.
pub deal_turn :
    (thread n k : ℕ) (p : EventLoopThreadPool)
    → p.base_loop.thread_id ≡ thread
    → p.started ≡ true
    → p.next < length p.loops
    → k < n
    → (xs : List EventLoop) × (deal thread n p
        ≡ ok (xs, record p { next = (p.next + n) % length p.loops }))
      × (length xs ≡ n)
      × (get_elem? xs k ≡ get_elem? p.loops ((p.next + k) % length p.loops))
deal_turn thread n k p t s h lt =
    let (xs, e, l, r) = deal_lem thread n p t s h in (xs, e, l, r k lt)

next_loop :
    (supply : ℕ → EventLoop) (loops : List EventLoop) (i : ℕ)
    → length loops ≡ i
    → ((k : ℕ) → k < i → get_elem? loops k ≡ some (supply k))
    → (k : ℕ) → k < i + 1
    → get_elem? (loops ++ supply i ∷ []) k ≡ some (supply k)
next_loop supply loops i l h k lt = elim (dec_lt k i) [
  | yes old ↦ get_elem?-append_left loops (supply i ∷ []) k (omega arith) ∙ h k old
  | no new ↦
      get_elem?-append_last loops (supply i) k (omega arith)
      ∙ ap (λ j. some (supply j)) (omega arith)
]

start_threads_lem :
    (supply : ℕ → EventLoop) (n i : ℕ) (p : EventLoopThreadPool)
    → length p.loops ≡ i
    → ((k : ℕ) → k < i → get_elem? p.loops k ≡ some (supply k))
    → (loops : List EventLoop) × (threads : List EventLoopThread) × (start_threads supply p n i
        ≡ record p { loops = loops; threads = threads })
      × (length loops ≡ i + n)
      × ((k : ℕ) → k < i + n → get_elem? loops k ≡ some (supply k))
unfolding start_threads
start_threads_lem supply zero i p l h =
    (p.loops, p.threads, refl, omega arith, λ k lt. h k (omega arith))
start_threads_lem supply (suc n) i p l h =
    let q : EventLoopThreadPool = record p {
      threads = p.threads ++ record { name = thread_name p.name i; loop = supply i } ∷ [];
      loops = p.loops ++ supply i ∷ [];
    } in
    let (loops, threads, e, l', h') =
      start_threads_lem supply n (i + 1) q (omega (arith, length-append p.loops (supply i ∷ [])))
        (next_loop supply p.loops i l h) in
    (loops, threads, e, omega arith, λ k lt. h' k (omega arith))

start_lem :
    (supply : ℕ → EventLoop) (thread n : ℕ) (has_cb : Bool) (base_loop : EventLoop) (name : List ℕ)
    → base_loop.thread_id ≡ thread
    → (p : EventLoopThreadPool) × (called : List EventLoop) × (start supply thread has_cb
          (set_thread_num (init base_loop name) (pos n))
        ≡ ok (p, called))
      × (length p.loops ≡ n)
      × ((k : ℕ) → k < n → get_elem? p.loops k ≡ some (supply k))
      × (p.started ≡ true)
      × (p.next ≡ 0)
      × (p.base_loop ≡ base_loop)
      × (called ≡ (if n == 0 && has_cb then base_loop ∷ [] else []))
unfolding start init set_thread_num
start_lem supply thread n has_cb base_loop name t =
    let fresh : EventLoopThreadPool = record (set_thread_num (init base_loop name) (pos n)) {
      started = true;
    } in
    let (loops, threads, e, l, h) =
      start_threads_lem supply n 0 fresh refl (λ k lt. absurd (omega arith)) in
    (
      record fresh { loops = loops; threads = threads },
      (if n == 0 && has_cb then base_loop ∷ [] else []),
      rw (is_in_loop_thread-true base_loop thread t, e),
      omega arith,
      λ k lt. h k (omega arith),
      refl,
      refl,
      refl,
      refl,
    )

-- `start` of a pool of `n` threads creates `n` loops and holds them in the order of their start:
-- the `k`th is that of thread `k`. The callback is not called on the base loop.
pub start_loops :
    (supply : ℕ → EventLoop) (thread n k : ℕ) (has_cb : Bool) (base_loop : EventLoop)
    (name : List ℕ)
    → base_loop.thread_id ≡ thread
    → k < n
    → (p : EventLoopThreadPool) × (called : List EventLoop) × (start supply thread has_cb
          (set_thread_num (init base_loop name) (pos n))
        ≡ ok (p, called))
      × (length p.loops ≡ n)
      × (get_elem? p.loops k ≡ some (supply k))
      × (p.started ≡ true)
      × (p.next ≡ 0)
      × (called ≡ [])
start_loops supply thread n k has_cb base_loop name t lt =
    let (p, called, e, l, g, s, x, b, c) = start_lem supply thread n has_cb base_loop name t in
    (p, called, e, l, g k lt, s, x, c ∙ ground arith)

-- Without threads the pool has no loops and calls the callback, if there is one, on the base loop;
-- every connection then gets the base loop.
pub start_no_threads :
    (supply : ℕ → EventLoop) (thread : ℕ) (has_cb : Bool) (base_loop : EventLoop) (name : List ℕ)
    → base_loop.thread_id ≡ thread
    → (p : EventLoopThreadPool) × (start supply thread has_cb
          (set_thread_num (init base_loop name) (pos 0))
        ≡ ok (p, if has_cb then base_loop ∷ [] else []))
      × (get_next_loop thread p ≡ ok (base_loop, p))
unfolding start start_threads init set_thread_num get_next_loop
start_no_threads supply thread has_cb base_loop name t = (
  record (set_thread_num (init base_loop name) (pos 0)) { started = true },
  rw (is_in_loop_thread-true base_loop thread t),
  rw (is_in_loop_thread-true base_loop thread t),
)

started-start_threads :
    (supply : ℕ → EventLoop) (n i : ℕ) (p : EventLoopThreadPool)
    → (start_threads supply p n i).started ≡ p.started
unfolding start_threads
started-start_threads supply zero i p = refl
started-start_threads supply (suc n) i p = started-start_threads supply n (i + 1) _

-- A second `start` fails its assertion.
pub start_twice :
    (supply : ℕ → EventLoop) (thread : ℕ) (has_cb : Bool) (p q : EventLoopThreadPool)
    (called : List EventLoop)
    → start supply thread has_cb p ≡ ok (q, called)
    → start supply thread has_cb q ≡ fault assertion
unfolding start
start_twice supply thread has_cb p q called e =
    ground
      (arith, started-start_threads supply (pos_part p.num_threads) 0 (record p { started = true }))

-- `getLoopForHash` gives every hash code a loop of the pool, the same one for the same code.
pub get_loop_for_hash_lem :
    (thread hash_code : ℕ) (p : EventLoopThreadPool)
    → p.base_loop.thread_id ≡ thread
    → 0 < length p.loops
    → (loop : EventLoop) × (get_loop_for_hash thread p hash_code ≡ ok loop)
      × (get_elem? p.loops (hash_code % length p.loops) ≡ some loop)
unfolding get_loop_for_hash
get_loop_for_hash_lem thread hash_code p t h =
    let (loop, e) = get_elem?-eq-some p.loops (hash_code % length p.loops) (omega arith) in
    (loop, ground (arith, e, is_empty-false p.loops 0 h), e)
