-- ===== src/Base/Buffer/Room.antt =====
-- `makeSpace` and what stands on it: room for more bytes never costs a readable byte.
use lib_net_toy.Prelude.{
  ltb→lt, slice-overwrite_left, Bool-cases, ltb, inl, inr, ℕ, ◌+◌, ◌≤◌, ◌<◌, ◌≡◌, refl, ◌∙◌, ap,
  List, length, ok, arith, slice, max_size, overwrite, length-slice, length-overwrite, resized,
  length-resized, slice-resized, slice-overwrite_self, read_range_ok, write_range_ok, resize_ok,
}
use lib_net_toy.Prelude.Size.{add_size}
use lib_net_toy.Base.Buffer.{
  Buffer, readable_bytes, writable_bytes, prependable_bytes, grow, compact, make_space,
  ensure_writable_bytes, write_at_end,
}
use lib_net_toy.Base.Buffer.IsValid.{IsValid, content, readable_bytes_lem}

-- A write into the free part leaves the content; the bytes stand behind it.
pub write_at_end_lem :
    {b : Buffer} (ds : List ℕ)
    → IsValid b
    → length ds ≤ writable_bytes b
    → (b' : Buffer) × (write_at_end b ds ≡ ok b')
      × IsValid b'
      × (content b' ≡ content b)
      × (slice b'.buffer b'.writer_index (length ds) ≡ ds)
      × (writable_bytes b' ≡ writable_bytes b)
unfolding write_at_end
write_at_end_lem {b} ds v h = (
  record b { buffer = overwrite b.buffer b.writer_index ds },
  ground (arith, write_range_ok b.buffer b.writer_index ds),
  omega (arith, length-overwrite b.buffer ds b.writer_index),
  slice-overwrite_left b.buffer ds b.writer_index b.reader_index _ (omega arith) (omega arith),
  slice-overwrite_self b.buffer ds b.writer_index (length ds) refl (omega arith),
  omega (arith, length-overwrite b.buffer ds b.writer_index),
)

pub grow_lem :
    {b : Buffer} (n : ℕ)
    → IsValid b
    → writable_bytes b < n
    → b.writer_index + n ≤ max_size
    → (b' : Buffer) × (grow b n ≡ ok b')
      × IsValid b'
      × (content b' ≡ content b)
      × (writable_bytes b' ≡ n)
      × (length b'.buffer ≡ b.writer_index + n)
unfolding grow
grow_lem {b} n v h small = (
  record b { buffer = resized b.buffer (add_size b.writer_index n) },
  ground (arith, resize_ok b.buffer (add_size b.writer_index n)),
  omega (arith, length-resized b.buffer (add_size b.writer_index n)),
  slice-resized b.buffer (add_size b.writer_index n) b.reader_index _ (omega arith) (omega arith),
  omega (arith, length-resized b.buffer (add_size b.writer_index n)),
  omega (arith, length-resized b.buffer (add_size b.writer_index n)),
)

-- What `makeSpace` moves.
abbrev moved : Buffer → List ℕ
moved b = slice b.buffer b.reader_index (readable_bytes b)

length-moved : {b : Buffer} → IsValid b → length (moved b) ≡ readable_bytes b
length-moved {b} v =
    length-slice b.buffer b.reader_index (readable_bytes b) (omega (arith, readable_bytes_lem v))

pub compact_lem :
    {b : Buffer}
    → IsValid b
    → 8 < b.reader_index
    → (b' : Buffer) × (compact b ≡ ok b')
      × IsValid b'
      × (content b' ≡ content b)
      × (length b'.buffer ≡ length b.buffer)
      × (prependable_bytes b' ≡ 8)
      × (writable_bytes b' + 8 ≡ writable_bytes b + prependable_bytes b)
unfolding compact
compact_lem {b} v h = (
  record {
    buffer = overwrite b.buffer 8 (moved b);
    reader_index = 8;
    writer_index = add_size 8 (readable_bytes b);
  },
  ground (
    arith,
    readable_bytes_lem v,
    length-moved v,
    read_range_ok b.buffer b.reader_index (readable_bytes b),
    write_range_ok b.buffer 8 (moved b),
  ),
  ground (arith, readable_bytes_lem v, length-moved v, length-overwrite b.buffer (moved b) 8),
  slice-overwrite_self b.buffer (moved b) 8 _ (ground (arith, readable_bytes_lem v, length-moved v))
        (ground (arith, readable_bytes_lem v, length-moved v))
      ∙ ap (slice b.buffer b.reader_index) (omega (arith, readable_bytes_lem v)),
  ground (arith, readable_bytes_lem v, length-moved v, length-overwrite b.buffer (moved b) 8),
  refl,
  ground (arith, readable_bytes_lem v, length-moved v, length-overwrite b.buffer (moved b) 8),
)

-- `b'` has room for `n` bytes and the content of `b`; the vector does not grow where the free
-- bytes in front and behind are enough.
pub record HasRoom (b : Buffer) (n : ℕ) (b' : Buffer) : Type 0 where
  pub valid : IsValid b'
  pub same : content b' ≡ content b
  pub room : n ≤ writable_bytes b'
  pub bounded : length b'.buffer ≤ length b.buffer + n
  pub kept : length (content b) + n + 8 ≤ length b.buffer → length b'.buffer ≡ length b.buffer

make_space_lem :
    {b : Buffer} (n : ℕ)
    → IsValid b
    → writable_bytes b < n
    → b.writer_index + n ≤ max_size
    → (b' : Buffer) × (make_space b n ≡ ok b') × HasRoom b n b'
unfolding make_space
make_space_lem {b} n v h small =
    elim (Bool-cases (ltb (add_size (writable_bytes b) (prependable_bytes b)) (add_size n 8))) [
      | inl full ↦
          let (b', e, v', c, w, l) = grow_lem n v h small in
          (
            b',
            rw full e,
            record {
              valid = v';
              same = c;
              room = omega arith;
              bounded = omega arith;
              kept = ground (arith, readable_bytes_lem v);
            },
          )
      | inr room ↦
          let (b', e, v', c, l, p, w) = compact_lem v (ground arith) in
          (
            b',
            rw room e,
            record {
              valid = v';
              same = c;
              room = ground arith;
              bounded = omega arith;
              kept = λ _. l;
            },
          )
    ]

-- Room is made without losing a readable byte.
pub ensure_writable_bytes_lem :
    {b : Buffer} (n : ℕ)
    → IsValid b
    → length b.buffer + n ≤ max_size
    → (b' : Buffer) × (ensure_writable_bytes b n ≡ ok b') × HasRoom b n b'
unfolding ensure_writable_bytes
ensure_writable_bytes_lem {b} n v small = elim (Bool-cases (ltb (writable_bytes b) n)) [
  | inl full ↦
      let (b', e, r) = make_space_lem n v (ltb→lt _ _ full) (omega arith) in
      (b', ground (arith, full, e, r.room), r)
  | inr room ↦ (
    b,
    ground arith,
    record { valid = v; same = refl; room = ground arith; bounded = omega arith; kept = λ _. refl },
  )
]

-- Asking for no room does nothing.
pub ensure_writable_bytes_zero : (b : Buffer) → ensure_writable_bytes b 0 ≡ ok b
unfolding ensure_writable_bytes
ensure_writable_bytes_zero b = ground arith
