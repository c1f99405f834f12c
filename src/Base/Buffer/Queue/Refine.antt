-- ===== src/Base/Buffer/Queue/Refine.antt =====
-- No sequence of calls tells a valid buffer from the queue of its readable bytes.
use lib_net_toy.Base.Buffer.IsValid.{
  length-retrieve, unwrite_too_much, retrieve_as_string_too_much, IsValid, content, retrieve_lem,
  retrieve_too_much, retrieve_as_string_lem, unwrite_lem, retrieve_all_lem,
}
use lib_net_toy.Prelude.{
  Fault, read_range, leb→le, ℕ, ◌+◌, ◌≤◌, ◌≡◌, refl, ◌⊎◌, inl, inr, List, [], ◌∷◌, length, take,
  leb, Bool-cases, Result, ok, fault, ◌>>=◌, assertion, arith, max_size,
}
use lib_net_toy.Base.Buffer.{Buffer, retrieve, retrieve_as_string, retrieve_all, unwrite}
use lib_net_toy.Base.Buffer.Room.{ensure_writable_bytes_lem}
use lib_net_toy.Base.Buffer.Append.{append_lem}
use lib_net_toy.Base.Buffer.Queue.{
  Op, put, skip, take_string, undo, reserve, clear, step, spec_step, run, spec_run, need, need_all,
}

-- The two results of a call: both succeed with the same reply, or both fail alike.
abbrev Answers : Buffer → Op → Type 0
Answers b o =
    ((x : List ℕ) × (b' : Buffer) × (step b o ≡ ok (x, b'))
      × (spec_step (content b) o ≡ ok (x, content b'))
      × IsValid b'
      × (length b'.buffer ≤ length b.buffer + need o))
    ⊎ ((f : Fault) × (step b o ≡ fault f) × (spec_step (content b) o ≡ fault f))

length-unwrite :
    (b : Buffer) (n : ℕ) {b' : Buffer} → unwrite b n ≡ ok b' → length b'.buffer ≡ length b.buffer
unfolding unwrite
length-unwrite b n e = ground arith

length-retrieve_as_string :
    (b : Buffer) (n : ℕ) {x : List ℕ} {b' : Buffer}
    → retrieve_as_string b n ≡ ok (x, b')
    → length b'.buffer ≡ length b.buffer
unfolding retrieve_as_string retrieve retrieve_all read_range
length-retrieve_as_string b n e = ground arith

step-Answers : {b : Buffer} (o : Op) → IsValid b → length b.buffer + need o ≤ max_size → Answers b o
unfolding step spec_step retrieve_all
step-Answers (put ds) v h =
    let (b', e, v', c, l) = append_lem ds v h in inl ([], b', rw e, rw c, v', l)
step-Answers {b} (skip n) v h = elim (Bool-cases (leb n (length (content b)))) [
  | inl fits ↦
      let (b', e, v', c) = retrieve_lem n v (leb→le _ _ fits) in
      inl ([], b', rw e, rw (fits, c), v', omega (arith, length-retrieve b n e))
  | inr short ↦ inr (assertion, rw (retrieve_too_much n v (ground arith)), rw short)
]
step-Answers {b} (take_string n) v h = elim (Bool-cases (leb n (length (content b)))) [
  | inl fits ↦
      let (b', e, v', c) = retrieve_as_string_lem n v (leb→le _ _ fits) in
      inl (
        take n (content b),
        b',
        e,
        rw (fits, c),
        v',
        omega (arith, length-retrieve_as_string b n e),
      )
  | inr short ↦ inr (assertion, retrieve_as_string_too_much n v (ground arith), rw short)
]
step-Answers {b} (undo n) v h = elim (Bool-cases (leb n (length (content b)))) [
  | inl fits ↦
      let (b', e, v', c) = unwrite_lem n v (leb→le _ _ fits) in
      inl ([], b', rw e, rw (fits, c), v', omega (arith, length-unwrite b n e))
  | inr short ↦ inr (assertion, rw (unwrite_too_much n v (ground arith)), rw short)
]
step-Answers {b} (reserve n) v h =
    let (b', e, r) = ensure_writable_bytes_lem n v h in
    inl ([], b', rw e, rw r.same, r.valid, r.bounded)
step-Answers {b} clear v h =
    inl (
      [],
      retrieve_all b,
      refl,
      rw (retrieve_all_lem v).1,
      (retrieve_all_lem v).0,
      retrieve_all_size,
    )
  where
    retrieve_all_size : length (retrieve_all b).buffer ≤ length b.buffer + 0
    retrieve_all_size = omega arith

-- Forgets the layout.
abbrev pub view {ℓ} : {A : Type ℓ} → Result (A × Buffer) → Result (A × List ℕ)
view r = r >>= λ (x, b). ok (x, content b)

view-cons :
    (x : List ℕ) (m : Result (List (List ℕ) × Buffer)) (n : Result (List (List ℕ) × List ℕ))
    → view m ≡ n
    → view (m >>= λ (rs, b). ok (x ∷ rs, b)) ≡ (n >>= λ (rs, xs). ok (x ∷ rs, xs))
view-cons x (ok (rs, b)) n h = rw (← h)
view-cons x (fault f) n h = rw (← h)

-- A valid buffer and the queue of its bytes give the same replies to every sequence of calls, fail
-- at the same call, and end with the same bytes, as long as the vector's limit is not reached.
pub run_refines :
    {b : Buffer} (os : List Op)
    → IsValid b
    → length b.buffer + need_all os ≤ max_size
    → view (run b os) ≡ spec_run (content b) os
unfolding run spec_run
run_refines [] v h = refl
run_refines {b} (o ∷ os) v h = elim (step-Answers o v (omega arith)) [
  | inl (x, b', e, s, v', l) ↦
      rw (e, s)
        (view-cons x (run b' os) (spec_run (content b') os) (run_refines os v' (omega arith)))
  | inr (f, e, s) ↦ rw (e, s)
]
