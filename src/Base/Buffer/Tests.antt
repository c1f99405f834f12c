-- ===== src/Base/Buffer/Tests.antt =====
-- Runs of the buffer on small inputs, and the theorems applied to them.
use lib_net_toy.Base.Buffer.Queue.Refine.{run_refines, view}
use lib_net_toy.Base.Buffer.Queue.{spec_run, skip, undo, take_string, put, run}
use lib_net_toy.Base.Buffer.{
  retrieve_all, has_written, write_at_end, retrieve, retrieve_all_as_string, grow, compact,
  make_space, init, ensure_writable_bytes, Buffer, swap, append, retrieve_as_string,
}
use lib_net_toy.Base.Buffer.Search.{search_first, memchr, find_crlf, find_eol_from, begins_with}
use lib_net_toy.Base.Buffer.Append.{append_lem}
use lib_net_toy.Base.Buffer.Endian.RoundTrip.{read_int32-prepend_int32}
use lib_net_toy.Base.Buffer.IsValid.{content, IsValid}
use lib_net_toy.Base.Buffer.Endian.{read_int32, prepend_int32}
use lib_net_toy.Prelude.{
  ◌≤◌, ◌≡◌, refl, some, [], ◌∷◌, arith, ok, ◌>>=◌, length, resize, resized, read_range, write_range,
  overwrite,
}

-- `hi\r\n\n` in a vector of 24 bytes.
abbrev greeting : Buffer
greeting = record {
  buffer =
      0 ∷ 0 ∷ 0 ∷ 0 ∷ 0 ∷ 0 ∷ 0 ∷ 0 ∷ 104 ∷ 105 ∷ 13 ∷ 10 ∷ 10 ∷ 0 ∷ 0 ∷ 0 ∷ 0 ∷ 0 ∷ 0 ∷ 0 ∷ 0 ∷ 0
      ∷ 0 ∷ 0 ∷ [];
  reader_index = 8;
  writer_index = 13;
}

greeting-IsValid : IsValid greeting
greeting-IsValid = ground arith

-- The same vector with nothing readable, and with the last five bytes readable.
abbrev empty : Buffer
empty = record greeting { writer_index = 8 }

empty-IsValid : IsValid empty
empty-IsValid = ground arith

abbrev tail : Buffer
tail = record greeting { reader_index = 19; writer_index = 24 }

tail-IsValid : IsValid tail
tail-IsValid = ground arith

init_test :
    init 4
    ≡ ok (record {
      buffer = 0 ∷ 0 ∷ 0 ∷ 0 ∷ 0 ∷ 0 ∷ 0 ∷ 0 ∷ 0 ∷ 0 ∷ 0 ∷ 0 ∷ [];
      reader_index = 8;
      writer_index = 8;
    })
unfolding init resize resized
init_test = refl

-- What is left of `tail` when two bytes were appended, which moved the content to the front, and
-- all was taken out.
abbrev empty_again : Buffer
empty_again = record {
  buffer =
      0 ∷ 0 ∷ 0 ∷ 0 ∷ 0 ∷ 0 ∷ 0 ∷ 0 ∷ 0 ∷ 0 ∷ 0 ∷ 0 ∷ 0 ∷ 1 ∷ 2 ∷ 0 ∷ 0 ∷ 0 ∷ 0 ∷ 0 ∷ 0 ∷ 0 ∷ 0 ∷ 0
      ∷ [];
  reader_index = 8;
  writer_index = 8;
}

append_test :
    (append tail (1 ∷ 2 ∷ []) >>= retrieve_all_as_string)
    ≡ ok (0 ∷ 0 ∷ 0 ∷ 0 ∷ 0 ∷ 1 ∷ 2 ∷ [], empty_again)
unfolding append ensure_writable_bytes make_space compact grow retrieve_all_as_string
    retrieve_as_string retrieve write_at_end has_written read_range write_range overwrite
    retrieve_all
append_test = refl

swap_test : swap empty tail ≡ (tail, empty)
unfolding swap
swap_test = refl

find_crlf_test : find_crlf greeting ≡ some 10
unfolding find_crlf search_first begins_with
find_crlf_test = refl

find_eol_from_test : find_eol_from greeting 12 ≡ ok (some 12)
unfolding find_eol_from memchr
find_eol_from_test = refl

run_refines_example :
    view (run greeting (put (1 ∷ 2 ∷ []) ∷ take_string 3 ∷ undo 1 ∷ skip 9 ∷ []))
    ≡ spec_run (content greeting) (put (1 ∷ 2 ∷ []) ∷ take_string 3 ∷ undo 1 ∷ skip 9 ∷ [])
run_refines_example =
    run_refines (put (1 ∷ 2 ∷ []) ∷ take_string 3 ∷ undo 1 ∷ skip 9 ∷ []) greeting-IsValid
      (ground arith)

append_lem_example :
    (b : Buffer) × (append tail (1 ∷ 2 ∷ []) ≡ ok b)
    × IsValid b
    × (content b ≡ 0 ∷ 0 ∷ 0 ∷ 0 ∷ 0 ∷ 1 ∷ 2 ∷ [])
    × (length b.buffer ≤ 26)
append_lem_example = append_lem {b = tail} (1 ∷ 2 ∷ []) tail-IsValid (ground arith)

read_int32-prepend_int32_example :
    (b : Buffer) × ((prepend_int32 greeting 5 >>= read_int32) ≡ ok (5, b))
    × IsValid b
    × (content b ≡ 104 ∷ 105 ∷ 13 ∷ 10 ∷ 10 ∷ [])
read_int32-prepend_int32_example =
    read_int32-prepend_int32 {b = greeting} 5 greeting-IsValid (ground arith) (ground arith)
