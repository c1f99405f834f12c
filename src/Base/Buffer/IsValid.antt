-- ===== src/Base/Buffer/IsValid.antt =====
-- The buffer's invariant, 8 <= size and readerIndex <= writerIndex <= size, its readable bytes, and
-- what each operation makes of both: Buffer.h against a queue of bytes.
use lib_net_toy.Base.Buffer.{
  read_range, retrieve_as_string, retrieve_until, retrieve_all_as_string, Buffer, readable_bytes,
  writable_bytes, prependable_bytes, init, retrieve_all, retrieve, has_written, unwrite,
}
use lib_net_toy.Prelude.{
  take_all, read_range_ok, slice-add, Bool-cases, ltb, inl, inr, ℕ, ◌+◌, ◌-◌, ◌≤◌, ◌<◌, ◌≡◌, refl,
  sym, ◌∙◌, ap, List, [], ◌++◌, length, take, drop, Result, ok, fault, assertion, arith, slice,
  max_size, length-slice, resized, length-resized, take-take, drop_all, drop-slice, resize_ok,
}
use lib_net_toy.Prelude.Size.{add_size, sub_size}

pub record IsValid (b : Buffer) : Type 0 where
  pub cheap : 8 ≤ length b.buffer
  pub ordered : b.reader_index ≤ b.writer_index
  pub in_bounds : b.writer_index ≤ length b.buffer
  pub small : length b.buffer ≤ max_size

-- The readable bytes, oldest first: what the buffer stands for.
abbrev pub content : Buffer → List ℕ
content b = slice b.buffer b.reader_index (b.writer_index - b.reader_index)

-- A call that returns a valid buffer with this content.
abbrev pub Yields : Result Buffer → List ℕ → Type 0
Yields r xs = (b : Buffer) × (r ≡ ok b) × IsValid b × (content b ≡ xs)

-- No `size_t` subtraction wraps.
pub readable_bytes_lem :
    {b : Buffer}
    → IsValid b
    → (readable_bytes b ≡ length (content b))
      × (readable_bytes b + b.reader_index ≡ b.writer_index)
      × (writable_bytes b + b.writer_index ≡ length b.buffer)
readable_bytes_lem {b} v =
    omega
      (arith, length-slice b.buffer b.reader_index (b.writer_index - b.reader_index) (omega arith))

pub init_lem :
    (n : ℕ)
    → n + 8 ≤ max_size
    → (b : Buffer) × (init n ≡ ok b)
      × IsValid b
      × (content b ≡ [])
      × (writable_bytes b ≡ n)
      × (prependable_bytes b ≡ 8)
unfolding init
init_lem n h = (
  record { buffer = resized [] (add_size 8 n); reader_index = 8; writer_index = 8 },
  ground (arith, resize_ok [] (add_size 8 n), length-resized [] (add_size 8 n)),
  omega (arith, length-resized [] (add_size 8 n)),
  refl,
  omega (arith, length-resized [] (add_size 8 n)),
  refl,
)

pub retrieve_all_lem :
    {b : Buffer} → IsValid b → IsValid (retrieve_all b) × (content (retrieve_all b) ≡ [])
unfolding retrieve_all
retrieve_all_lem v = (omega arith, refl)

-- `retrieve` drops the oldest bytes.
pub retrieve_lem :
    {b : Buffer} (n : ℕ)
    → IsValid b
    → n ≤ length (content b)
    → Yields (retrieve b n) (drop n (content b))
unfolding retrieve
retrieve_lem {b} n v h = elim (Bool-cases (ltb n (readable_bytes b))) [
  | inl part ↦ (
    record b { reader_index = add_size b.reader_index n },
    ground (arith, readable_bytes_lem v),
    ground (arith, readable_bytes_lem v),
    sym (
        drop-slice b.buffer b.reader_index _ n _ _ (ground (arith, readable_bytes_lem v))
          (ground (arith, readable_bytes_lem v))),
  )
  | inr all ↦ (
    retrieve_all b,
    ground (arith, readable_bytes_lem v),
    (retrieve_all_lem v).0,
    (retrieve_all_lem v).1 ∙ sym (drop_all n (content b) (ground (arith, readable_bytes_lem v))),
  )
]

-- Asking for more than there is fails the assertion.
pub retrieve_too_much :
    {b : Buffer} (n : ℕ) → IsValid b → length (content b) < n → retrieve b n ≡ fault assertion
unfolding retrieve
retrieve_too_much {b} n v h = ground (arith, readable_bytes_lem v)

pub has_written_lem :
    {b : Buffer} (n : ℕ)
    → IsValid b
    → n ≤ writable_bytes b
    → Yields (has_written b n) (content b ++ slice b.buffer b.writer_index n)
unfolding has_written
has_written_lem {b} n v h = (
  record b { writer_index = add_size b.writer_index n },
  ground (arith, readable_bytes_lem v),
  ground (arith, readable_bytes_lem v),
  slice-add b.buffer b.reader_index _ n b.writer_index _ (omega arith) (omega arith),
)

pub unwrite_lem :
    {b : Buffer} (n : ℕ)
    → IsValid b
    → n ≤ length (content b)
    → Yields (unwrite b n) (take (length (content b) - n) (content b))
unfolding unwrite
unwrite_lem {b} n v h = (
  record b { writer_index = sub_size b.writer_index n },
  ground (arith, readable_bytes_lem v),
  ground (arith, readable_bytes_lem v),
  ap (slice b.buffer b.reader_index) (ground (arith, readable_bytes_lem v))
      ∙ sym (
          take-take (length (content b) - n) (b.writer_index - b.reader_index)
            (drop b.reader_index b.buffer) (ground (arith, readable_bytes_lem v))),
)

-- The read at `peek()` that copies the oldest bytes.
pub read_front :
    {b : Buffer} (n : ℕ)
    → IsValid b
    → n ≤ length (content b)
    → read_range b.buffer b.reader_index n ≡ ok (take n (content b))
read_front {b} n v h =
    read_range_ok b.buffer b.reader_index n (ground (arith, readable_bytes_lem v))
    ∙ ap ok (
        sym (
          take-take n (b.writer_index - b.reader_index) (drop b.reader_index b.buffer)
            (ground (arith, readable_bytes_lem v))))

-- A string is read off the front, and its bytes are gone from the buffer.
pub retrieve_as_string_lem :
    {b : Buffer} (n : ℕ)
    → IsValid b
    → n ≤ length (content b)
    → (b' : Buffer) × (retrieve_as_string b n ≡ ok (take n (content b), b'))
      × IsValid b'
      × (content b' ≡ drop n (content b))
unfolding retrieve_as_string
retrieve_as_string_lem {b} n v h =
    let (b', e, v', c) = retrieve_lem n v h in
    (
      b',
      ground (
        arith,
        e,
        readable_bytes_lem v,
        read_range_ok b.buffer b.reader_index n,
        take-take n (b.writer_index - b.reader_index) (drop b.reader_index b.buffer),
      ),
      v',
      c,
    )

pub retrieve_all_as_string_lem :
    {b : Buffer}
    → IsValid b
    → (b' : Buffer) × (retrieve_all_as_string b ≡ ok (content b, b'))
      × IsValid b'
      × (content b' ≡ [])
unfolding retrieve_all_as_string
retrieve_all_as_string_lem {b} v =
    let (b', e, v', c) =
      retrieve_as_string_lem (readable_bytes b) v (omega (arith, readable_bytes_lem v)) in
    (
      b',
      e
          ∙ ap (λ xs. ok (xs, b'))
              (take_all (readable_bytes b) (content b) (omega (arith, readable_bytes_lem v))),
      v',
      c ∙ drop_all (readable_bytes b) (content b) (omega (arith, readable_bytes_lem v)),
    )

-- `retrieveUntil` drops what stands in front of the pointer.
pub retrieve_until_lem :
    {b : Buffer} (end : ℕ)
    → IsValid b
    → b.reader_index ≤ end
    → end ≤ b.writer_index
    → Yields (retrieve_until b end) (drop (end - b.reader_index) (content b))
unfolding retrieve_until
retrieve_until_lem {b} end v h k =
    let (b', e, v', c) =
      retrieve_lem (sub_size end b.reader_index) v (omega (arith, readable_bytes_lem v)) in
    (b', ground (arith, e), v', c ∙ ap (λ n. drop n (content b)) (omega arith))

pub retrieve_as_string_too_much :
    {b : Buffer} (n : ℕ)
    → IsValid b
    → length (content b) < n
    → retrieve_as_string b n ≡ fault assertion
unfolding retrieve_as_string
retrieve_as_string_too_much {b} n v h = ground (arith, readable_bytes_lem v)

pub unwrite_too_much :
    {b : Buffer} (n : ℕ) → IsValid b → length (content b) < n → unwrite b n ≡ fault assertion
unfolding unwrite
unwrite_too_much {b} n v h = ground (arith, readable_bytes_lem v)

pub length-retrieve :
    (b : Buffer) (n : ℕ) {b' : Buffer} → retrieve b n ≡ ok b' → length b'.buffer ≡ length b.buffer
unfolding retrieve retrieve_all
length-retrieve b n e = ground arith
