-- ===== src/Base/StringPiece.antt =====
-- src/base/StringPiece.h: a string that points into other memory. `block` is the object that `ptr_`
-- points into, and `ptr` the offset in it; NULL points into an empty object. A `char` is a byte,
-- compared unsigned as `memcmp` compares it; of the result of `memcmp` only the sign is specified.
pub mod Lex
pub mod Comparing
pub mod Sorting
pub mod Tests
pub mod Prefixes
use lib_net_toy.Prelude.Int.{ℤ, pos, negsuc, sub_ℕ, ltb_ℤ, leb_ℤ, sub_int, int_of_size, size_of_int}
use lib_net_toy.Prelude.{
  read_range, max_size, ℕ, suc, ◌+◌, ◌-◌, Bool, false, ◌&&◌, ◌||◌, not, none, some, List, [], ◌∷◌,
  ltb, leb, ◌==◌, if◌then◌else◌, out_of_range, length_error, Result, ok, fault, ◌>>=◌, length, drop,
  get_elem?,
}

pub record StringPiece : Type 0 where
  pub block : List ℕ
  pub ptr : ℕ
  pub len : ℤ

-- `strlen` from an offset on; without a NUL it reads past the object.
unfoldable pub strlen : List ℕ → Result ℕ
strlen [] = fault out_of_range
strlen (c ∷ cs) = let rest = strlen cs in if c == 0 then ok 0 else rest >>= λ n. ok (suc n)

-- The five constructors: of nothing, of a C string (both char types), of a `std::string`, and of a
-- pointer with a length. The `set` functions do the same.
abbrev pub empty_piece : StringPiece
empty_piece = record { block = []; ptr = 0; len = pos 0 }

unfoldable pub of_c_string : List ℕ → ℕ → Result StringPiece
of_c_string block ptr = do
  n ← strlen (drop ptr block)
  ok (record { block = block; ptr = ptr; len = int_of_size n })

abbrev pub of_string : List ℕ → StringPiece
of_string s = record { block = s; ptr = 0; len = int_of_size (length s) }

abbrev pub of_range : List ℕ → ℕ → ℤ → StringPiece
of_range block offset len = record { block = block; ptr = offset; len = len }

abbrev pub clear : StringPiece → StringPiece
clear x = record { block = []; ptr = 0; len = pos 0 }

abbrev pub set_range : StringPiece → List ℕ → ℕ → ℤ → StringPiece
set_range x block offset len = record { block = block; ptr = offset; len = len }

unfoldable pub set_c_string : StringPiece → List ℕ → ℕ → Result StringPiece
unfolding of_c_string
set_c_string x block ptr = of_c_string block ptr

abbrev pub size : StringPiece → ℤ
size x = x.len

abbrev pub is_empty : StringPiece → Bool
is_empty x = elim x.len [ pos n ↦ n == 0 | negsuc n ↦ false ]

-- `ptr_ + n`, which must stay in the object or right behind it.
unfoldable pub move_ptr : List ℕ → ℕ → ℤ → Result ℕ
move_ptr block ptr (pos n) =
    if leb (ptr + n) (length block) then ok (ptr + n) else fault out_of_range
move_ptr block ptr (negsuc n) = if ltb n ptr then ok (ptr - suc n) else fault out_of_range

-- `operator[]`, with no check.
unfoldable pub char_at : StringPiece → ℤ → Result ℕ
unfolding move_ptr
char_at x i = do
  p ← move_ptr x.block x.ptr i
  elim (get_elem? x.block p) [ none ↦ fault out_of_range | some c ↦ ok c ]

unfoldable pub remove_prefix : StringPiece → ℤ → Result StringPiece
unfolding move_ptr
remove_prefix x n = do
  ptr ← move_ptr x.block x.ptr n
  len ← sub_int x.len n
  ok (record x { ptr = ptr; len = len })

unfoldable pub remove_suffix : StringPiece → ℤ → Result StringPiece
remove_suffix x n = do len ← sub_int x.len n; ok (record x { len = len })

-- The difference of the first bytes that differ; the C standard promises its sign.
unfoldable pub byte_difference : List ℕ → List ℕ → ℤ
byte_difference (x ∷ xs) (y ∷ ys) = if x == y then byte_difference xs ys else sub_ℕ x y
byte_difference [] ys = pos 0
byte_difference (x ∷ xs) [] = pos 0

-- `memcmp` of `n` bytes, an `int` converted to `size_t`.
unfoldable pub memcmp : StringPiece → StringPiece → ℤ → Result ℤ
unfolding byte_difference
memcmp x y n = do
  xs ← read_range x.block x.ptr (size_of_int n)
  ys ← read_range y.block y.ptr (size_of_int n)
  ok (byte_difference xs ys)

abbrev pub min_len : StringPiece → StringPiece → ℤ
min_len x y = if ltb_ℤ x.len y.len then x.len else y.len

abbrev pub is_zero : ℤ → Bool
is_zero z = elim z [ pos n ↦ n == 0 | negsuc n ↦ false ]

abbrev pub same_len : StringPiece → StringPiece → Bool
same_len x y = leb_ℤ x.len y.len && leb_ℤ y.len x.len

-- `operator==` and `operator!=`
unfoldable pub equal : StringPiece → StringPiece → Result Bool
equal x y = if same_len x y then memcmp x y x.len >>= (λ r. ok (is_zero r)) else ok false

unfoldable pub not_equal : StringPiece → StringPiece → Result Bool
unfolding equal
not_equal x y = equal x y >>= λ e. ok (not e)

-- `STRINGPIECE_BINARY_PREDICATE(cmp, auxcmp)`
unfoldable pub binary_predicate :
    (ℤ → ℤ → Bool) → (ℤ → ℤ → Bool) → StringPiece → StringPiece → Result Bool
binary_predicate cmp auxcmp x y = do
  r ← memcmp x y (min_len x y)
  ok (auxcmp r (pos 0) || (is_zero r && cmp x.len y.len))

abbrev gt_ℤ : ℤ → ℤ → Bool
gt_ℤ a b = ltb_ℤ b a

abbrev ge_ℤ : ℤ → ℤ → Bool
ge_ℤ a b = leb_ℤ b a

-- The operators `<`, `<=`, `>=` and `>`.
unfoldable pub less : StringPiece → StringPiece → Result Bool
unfolding binary_predicate
less = binary_predicate ltb_ℤ ltb_ℤ

unfoldable pub less_equal : StringPiece → StringPiece → Result Bool
unfolding binary_predicate
less_equal = binary_predicate leb_ℤ ltb_ℤ

unfoldable pub greater_equal : StringPiece → StringPiece → Result Bool
unfolding binary_predicate
greater_equal = binary_predicate ge_ℤ gt_ℤ

unfoldable pub greater : StringPiece → StringPiece → Result Bool
unfolding binary_predicate
greater = binary_predicate gt_ℤ gt_ℤ

unfoldable pub compare_pieces : StringPiece → StringPiece → Result ℤ
compare_pieces x y = do
  r ← memcmp x y (min_len x y)
  ok (
      if is_zero r
      then if ltb_ℤ x.len y.len then negsuc 0 else if ltb_ℤ y.len x.len then pos 1 else r
      else r)

-- `as_string`, and `CopyToStdString`, which assigns the same bytes: a negative length is a size
-- past the longest string, and throws.
unfoldable pub as_string : StringPiece → Result (List ℕ)
as_string x =
    if leb (size_of_int x.len) max_size
    then read_range x.block x.ptr (size_of_int x.len)
    else fault length_error

unfoldable pub copy_to_std_string : StringPiece → List ℕ → Result (List ℕ)
unfolding as_string
copy_to_std_string x target = as_string x

unfoldable pub starts_with : StringPiece → StringPiece → Result Bool
starts_with x y = if leb_ℤ y.len x.len then memcmp x y y.len >>= (λ r. ok (is_zero r)) else ok false
