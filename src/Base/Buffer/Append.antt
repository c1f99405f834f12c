-- ===== src/Base/Buffer/Append.antt =====
-- `append` and `prepend`: a byte goes to the end or to the front of what stands in the buffer.
use lib_net_toy.Base.Buffer.Room.{ensure_writable_bytes_lem, write_at_end_lem}
use lib_net_toy.Prelude.{
  ap₂, ℕ, ◌+◌, ◌≤◌, ◌<◌, ◌≡◌, ◌∙◌, List, ◌++◌, length, ok, fault, assertion, arith, max_size,
  write_range, overwrite, length-overwrite, slice-overwrite_before, write_range_ok,
}
use lib_net_toy.Prelude.Size.{sub_size}
use lib_net_toy.Base.Buffer.{Buffer, prependable_bytes, has_written, write_at_end, append, prepend}
use lib_net_toy.Base.Buffer.IsValid.{IsValid, content, has_written_lem}

-- A write in place keeps the vector's size.
pub length-has_written :
    (b : Buffer) (n : ℕ) {b' : Buffer}
    → has_written b n ≡ ok b'
    → length b'.buffer ≡ length b.buffer
unfolding has_written
length-has_written b n e = ground arith

pub length-write_at_end :
    (b : Buffer) (ds : List ℕ) {b' : Buffer}
    → write_at_end b ds ≡ ok b'
    → length b'.buffer ≡ length b.buffer
unfolding write_at_end write_range
length-write_at_end b ds e = ground (arith, length-overwrite b.buffer ds b.writer_index)

append_whole :
    {b : Buffer} (ds : List ℕ)
    → IsValid b
    → length b.buffer + length ds ≤ max_size
    → (b' : Buffer) × (append b ds ≡ ok b')
      × IsValid b'
      × (content b' ≡ content b ++ ds)
      × (length b'.buffer ≤ length b.buffer + length ds)
      × (length (content b) + length ds + 8 ≤ length b.buffer → length b'.buffer ≡ length b.buffer)
unfolding append
append_whole {b} ds v small =
    let (b₁, e₁, r) = ensure_writable_bytes_lem (length ds) v small in
    let (b₂, e₂, v₂, c₂, s₂, w₂) = write_at_end_lem {b = b₁} ds r.valid r.room in
    let (b₃, e₃, v₃, c₃) = has_written_lem {b = b₂} (length ds) v₂ (omega arith) in
    (
      b₃,
      ground (arith, e₁, e₂, e₃),
      v₃,
      c₃ ∙ ap₂ ◌++◌ (c₂ ∙ r.same) s₂,
      omega (arith, length-has_written b₂ (length ds) e₃, length-write_at_end b₁ ds e₂, r.bounded),
      λ fits.
          omega (
            arith,
            length-has_written b₂ (length ds) e₃,
            length-write_at_end b₁ ds e₂,
            r.kept fits,
          ),
    )

-- `append` puts the bytes at the end, and grows the vector by their number at most.
pub append_lem :
    {b : Buffer} (ds : List ℕ)
    → IsValid b
    → length b.buffer + length ds ≤ max_size
    → (b' : Buffer) × (append b ds ≡ ok b')
      × IsValid b'
      × (content b' ≡ content b ++ ds)
      × (length b'.buffer ≤ length b.buffer + length ds)
append_lem ds v small = let (b', e, v', c, l, k) = append_whole ds v small in (b', e, v', c, l)

-- Where the free bytes in front of the content and behind it are enough the vector does not grow.
pub append_in_place :
    {b : Buffer} (ds : List ℕ)
    → IsValid b
    → length (content b) + length ds + 8 ≤ length b.buffer
    → length b.buffer + length ds ≤ max_size
    → (b' : Buffer) × (append b ds ≡ ok b')
      × (content b' ≡ content b ++ ds)
      × (length b'.buffer ≡ length b.buffer)
append_in_place ds v fits small =
    let (b', e, v', c, l, k) = append_whole ds v small in (b', e, c, k fits)

-- `prepend` puts the bytes in front, without moving any other.
pub prepend_lem :
    {b : Buffer} (ds : List ℕ)
    → IsValid b
    → length ds ≤ prependable_bytes b
    → (b' : Buffer) × (prepend b ds ≡ ok b')
      × IsValid b'
      × (content b' ≡ ds ++ content b)
      × (prependable_bytes b' + length ds ≡ prependable_bytes b)
unfolding prepend
prepend_lem {b} ds v h = (
  record b {
    buffer = overwrite b.buffer (sub_size b.reader_index (length ds)) ds;
    reader_index = sub_size b.reader_index (length ds);
  },
  ground (arith, write_range_ok b.buffer (sub_size b.reader_index (length ds)) ds),
  omega (arith, length-overwrite b.buffer ds (sub_size b.reader_index (length ds))),
  slice-overwrite_before b.buffer ds _ b.reader_index _ _ (omega arith) (omega arith) (omega arith),
  omega arith,
)

-- Without that room the assertion fails.
pub prepend_no_room :
    (b : Buffer) (ds : List ℕ) → prependable_bytes b < length ds → prepend b ds ≡ fault assertion
unfolding prepend
prepend_no_room b ds h = ground arith
