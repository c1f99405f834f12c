-- ===== src/Base/Buffer/Queue.antt =====
-- What a client may ask of a buffer, and the queue of bytes that answers as the buffer does.
pub mod Refine
use lib_net_toy.Prelude.{
  ℕ, ◌+◌, ◌-◌, ◌≤◌, ◌<◌, ◌≡◌, refl, sym, ap, ◌∙◌, ◌⊎◌, inl, inr, List, [], ◌∷◌, ◌++◌, length, take,
  drop, ltb, leb, if◌then◌else◌, Result, ok, fault, ◌>>=◌, ◌>>◌, assert, assertion, arith, max_size,
}
use lib_net_toy.Base.Buffer.{
  Buffer, append, retrieve, retrieve_as_string, retrieve_all, unwrite, ensure_writable_bytes,
}
use lib_net_toy.Base.Buffer.IsValid.{IsValid, content}

pub data Op : Type 0 where
  put : List ℕ → Op
  skip take_string undo reserve : ℕ → Op
  clear : Op

-- A call's reply is the string that it returns, empty for the calls that return nothing.
pub step : Buffer → Op → Result (List ℕ × Buffer)
step b (put ds) = do b' ← append b ds; ok ([], b')
step b (skip n) = do b' ← retrieve b n; ok ([], b')
step b (take_string n) = retrieve_as_string b n
step b (undo n) = do b' ← unwrite b n; ok ([], b')
step b (reserve n) = do b' ← ensure_writable_bytes b n; ok ([], b')
step b clear = ok ([], retrieve_all b)

-- The same call on the queue. A call for more bytes than there are fails its assertion.
pub spec_step : List ℕ → Op → Result (List ℕ × List ℕ)
spec_step xs (put ds) = ok ([], xs ++ ds)
spec_step xs (skip n) = do assert (leb n (length xs)); ok ([], drop n xs)
spec_step xs (take_string n) = do assert (leb n (length xs)); ok (take n xs, drop n xs)
spec_step xs (undo n) = do assert (leb n (length xs)); ok ([], take (length xs - n) xs)
spec_step xs (reserve n) = ok ([], xs)
spec_step xs clear = ok ([], [])

pub run : Buffer → List Op → Result (List (List ℕ) × Buffer)
run b [] = ok ([], b)
run b (o ∷ os) = do (r, b') ← step b o; (rs, b'') ← run b' os; ok (r ∷ rs, b'')

pub spec_run : List ℕ → List Op → Result (List (List ℕ) × List ℕ)
spec_run xs [] = ok ([], xs)
spec_run xs (o ∷ os) = do (r, xs') ← spec_step xs o; (rs, xs'') ← spec_run xs' os; ok (r ∷ rs, xs'')

-- The bytes that a call may add to the vector.
abbrev pub need : Op → ℕ
need (put ds) = length ds
need (reserve n) = n
need _ = 0

abbrev pub need_all : List Op → ℕ
need_all [] = 0
need_all (o ∷ os) = need o + need_all os
