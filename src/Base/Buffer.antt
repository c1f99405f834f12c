-- ===== src/Base/Buffer.antt =====
-- src/base/Buffer.h and Buffer.cpp: the byte buffer of a connection. A pointer into the vector is
-- its offset from `begin()`. Bytes are numbers below 256; `size_t` is written out at 64 bits.
-- `capacity()` depends on the growth of `std::vector` and is not modelled.
pub mod IsValid
pub mod Room
pub mod Append
pub mod Endian
pub mod Search
pub mod Queue
pub mod Tests
use lib_net_toy.Prelude.{
  ℕ, ◌+◌, List, [], length, ltb, leb, ◌==◌, if◌then◌else◌, Result, ok, ◌>>=◌, ◌>>◌, assert,
  read_range, write_range, resize, overwrite, arith,
}
use lib_net_toy.Prelude.Size.{add_size, sub_size}

pub record Buffer : Type 0 where
  pub buffer : List ℕ
  pub reader_index : ℕ
  pub writer_index : ℕ

abbrev pub k_cheap_prepend : ℕ
k_cheap_prepend = 8

abbrev pub k_initial_size : ℕ
k_initial_size = 4096

abbrev pub readable_bytes : Buffer → ℕ
readable_bytes b = sub_size b.writer_index b.reader_index

abbrev pub writable_bytes : Buffer → ℕ
writable_bytes b = sub_size (length b.buffer) b.writer_index

abbrev pub prependable_bytes : Buffer → ℕ
prependable_bytes b = b.reader_index

abbrev pub peek : Buffer → ℕ
peek b = b.reader_index

abbrev pub begin_write : Buffer → ℕ
begin_write b = b.writer_index

-- The constructor; the vector's own constructor fills it with zeros.
unfoldable pub init : ℕ → Result Buffer
init initial_size = do
  bytes ← resize [] (add_size k_cheap_prepend initial_size)
  let b : Buffer = record {
    buffer = bytes;
    reader_index = k_cheap_prepend;
    writer_index = k_cheap_prepend;
  }
  assert (readable_bytes b == 0)
  assert (writable_bytes b == initial_size)
  assert (prependable_bytes b == k_cheap_prepend)
  ok b

unfoldable pub swap : Buffer → Buffer → Buffer × Buffer
swap lhs rhs = (
  record lhs {
    buffer = rhs.buffer;
    reader_index = rhs.reader_index;
    writer_index = rhs.writer_index;
  },
  record rhs {
    buffer = lhs.buffer;
    reader_index = lhs.reader_index;
    writer_index = lhs.writer_index;
  },
)

unfoldable pub retrieve_all : Buffer → Buffer
retrieve_all b = record b { reader_index = k_cheap_prepend; writer_index = k_cheap_prepend }

unfoldable pub retrieve : Buffer → ℕ → Result Buffer
unfolding retrieve_all
retrieve b len = do
  assert (leb len (readable_bytes b))
  ok (
      if ltb len (readable_bytes b)
      then record b { reader_index = add_size b.reader_index len }
      else retrieve_all b)

unfoldable pub retrieve_until : Buffer → ℕ → Result Buffer
retrieve_until b end = do
  assert (leb (peek b) end)
  assert (leb end (begin_write b))
  retrieve b (sub_size end (peek b))

pub retrieve_int32 : Buffer → Result Buffer
retrieve_int32 b = retrieve b 4

pub retrieve_int16 : Buffer → Result Buffer
retrieve_int16 b = retrieve b 2

pub retrieve_int8 : Buffer → Result Buffer
retrieve_int8 b = retrieve b 1

unfoldable pub retrieve_as_string : Buffer → ℕ → Result (List ℕ × Buffer)
retrieve_as_string b len = do
  assert (leb len (readable_bytes b))
  result ← read_range b.buffer (peek b) len
  rest ← retrieve b len
  ok (result, rest)

unfoldable pub retrieve_all_as_string : Buffer → Result (List ℕ × Buffer)
retrieve_all_as_string b = retrieve_as_string b (readable_bytes b)

-- The first branch of `makeSpace`: the vector grows.
unfoldable pub grow : Buffer → ℕ → Result Buffer
grow b len = do
  bytes ← resize b.buffer (add_size b.writer_index len)
  ok (record b { buffer = bytes })

-- The second branch of `makeSpace`: the readable bytes move to the front.
unfoldable pub compact : Buffer → Result Buffer
compact b = do
  assert (ltb k_cheap_prepend b.reader_index)
  let readable = readable_bytes b
  moved ← read_range b.buffer b.reader_index (sub_size b.writer_index b.reader_index)
  bytes ← write_range b.buffer k_cheap_prepend moved
  let b' : Buffer = record {
    buffer = bytes;
    reader_index = k_cheap_prepend;
    writer_index = add_size k_cheap_prepend readable;
  }
  assert (readable == readable_bytes b')
  ok b'

unfoldable pub make_space : Buffer → ℕ → Result Buffer
unfolding grow compact
make_space b len =
    if ltb (add_size (writable_bytes b) (prependable_bytes b)) (add_size len k_cheap_prepend)
    then grow b len
    else compact b

unfoldable pub ensure_writable_bytes : Buffer → ℕ → Result Buffer
ensure_writable_bytes b len = do
  b' ← if ltb (writable_bytes b) len then make_space b len else ok b
  assert (leb len (writable_bytes b'))
  ok b'

unfoldable pub has_written : Buffer → ℕ → Result Buffer
has_written b len = do
  assert (leb len (writable_bytes b))
  ok (record b { writer_index = add_size b.writer_index len })

unfoldable pub unwrite : Buffer → ℕ → Result Buffer
unwrite b len = do
  assert (leb len (readable_bytes b))
  ok (record b { writer_index = sub_size b.writer_index len })

-- The write through `beginWrite()` that `append` and a socket's read make.
unfoldable pub write_at_end : Buffer → List ℕ → Result Buffer
write_at_end b ds = do
  bytes ← write_range b.buffer (begin_write b) ds
  ok (record b { buffer = bytes })

-- All three overloads of `append`: a pointer and a length, and a string.
unfoldable pub append : Buffer → List ℕ → Result Buffer
append b ds = do
  b' ← ensure_writable_bytes b (length ds)
  b'' ← write_at_end b' ds
  has_written b'' (length ds)

unfoldable pub prepend : Buffer → List ℕ → Result Buffer
prepend b ds = do
  assert (leb (length ds) (prependable_bytes b))
  let r = sub_size b.reader_index (length ds)
  bytes ← write_range b.buffer r ds
  ok (record b { buffer = bytes; reader_index = r })
