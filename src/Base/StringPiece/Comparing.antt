-- ===== src/Base/StringPiece/Comparing.antt =====
-- The six operators and `compare` all read one order.
use lib_net_toy.Base.StringPiece.{
  same_len, compare_pieces, not_equal, greater_equal, greater, ge_ℤ, less_equal, less, equal, gt_ℤ,
  binary_predicate, is_zero, sub_ℕ, min_len, memcmp, StringPiece, byte_difference,
}
use lib_net_toy.Base.StringPiece.Lex.{
  is_before, is_after, is_same, compare_numbers, lex, Order, before, same, after,
}
use lib_net_toy.Prelude.Int.{ltb_ℤ, leb_ℤ, ℤ, pos, negsuc, pos_part}
use lib_net_toy.Prelude.{
  ℕ, zero, suc, ◌+◌, ◌≤◌, min, ◌≡◌, refl, sym, ap, ap₂, ◌∙◌, ◌≢◌, ◌⊎◌, inl, inr, Bool, true, false,
  ◌&&◌, ◌||◌, not, List, [], ◌∷◌, arith, ℕ_discrete, ◌==◌, if◌then◌else◌, Bool-cases, ok, ◌>>=◌,
  length, take, drop, read_range_ok, take-take, slice, length-slice,
}

-- A piece with a length that is not negative, inside its object.
pub record IsPiece (x : StringPiece) (n : ℕ) : Type 0 where
  pub its_len : x.len ≡ pos n
  pub inside : x.ptr + n ≤ length x.block

abbrev pub chars : StringPiece → List ℕ
chars x = slice x.block x.ptr (pos_part x.len)

pub length-chars : (x : StringPiece) (n : ℕ) → IsPiece x n → length (chars x) ≡ n
length-chars x n v = rw v.its_len (length-slice x.block x.ptr n v.inside)

byte_difference-take :
    (m : ℕ) (xs ys : List ℕ)
    → (length xs ≤ m) ⊎ (length ys ≤ m)
    → byte_difference (take m xs) (take m ys) ≡ byte_difference xs ys
unfolding byte_difference
byte_difference-take zero [] ys h = refl
byte_difference-take (suc m) [] ys h = refl
byte_difference-take zero (x ∷ xs) [] h = refl
byte_difference-take (suc m) (x ∷ xs) [] h = refl
byte_difference-take zero (x ∷ xs) (y ∷ ys) h = absurd (omega arith)
byte_difference-take (suc m) (x ∷ xs) (y ∷ ys) h = ground (arith, byte_difference-take m xs ys)

-- What the first difference and the lengths tell of the order.
abbrev told : ℤ → ℕ → ℕ → Order
told (negsuc d) a b = before
told (pos zero) a b = compare_numbers a b
told (pos (suc d)) a b = after

told_suc : (d : ℤ) (a b : ℕ) → told d (suc a) (suc b) ≡ told d a b
unfolding compare_numbers
told_suc (negsuc d) a b = refl
told_suc (pos zero) a b = ground arith
told_suc (pos (suc d)) a b = refl

told-sub_ℕ : (x y a b : ℕ) → (x == y) ≡ false → told (sub_ℕ x y) a b ≡ compare_numbers x y
unfolding compare_numbers
told-sub_ℕ x y a b h = ground arith

told-lex : (xs ys : List ℕ) → told (byte_difference xs ys) (length xs) (length ys) ≡ lex xs ys
unfolding byte_difference lex compare_numbers
told-lex [] [] = ground arith
told-lex [] (y ∷ ys) = ground arith
told-lex (x ∷ xs) [] = ground arith
told-lex (x ∷ xs) (y ∷ ys) = elim (Bool-cases (x == y)) [
  | inl alike ↦ rw alike (told_suc (byte_difference xs ys) (length xs) (length ys) ∙ told-lex xs ys)
  | inr unlike ↦ rw unlike (told-sub_ℕ x y (suc (length xs)) (suc (length ys)) unlike)
]

-- The memory that `memcmp` reads is there.
pub memcmp_lem :
    (x y : StringPiece) (k : ℕ)
    → x.ptr + k ≤ length x.block
    → y.ptr + k ≤ length y.block
    → memcmp x y (pos k) ≡ ok (byte_difference (slice x.block x.ptr k) (slice y.block y.ptr k))
unfolding memcmp
memcmp_lem x y k h i = rw (read_range_ok x.block x.ptr k h, read_range_ok y.block y.ptr k i) refl

min_len_lem :
    (x y : StringPiece) (m n : ℕ) → IsPiece x m → IsPiece y n → min_len x y ≡ pos (min m n)
min_len_lem x y m n v w = ground (arith, v.its_len, w.its_len)

pub take-chars :
    (x : StringPiece) (k n : ℕ) → IsPiece x n → k ≤ n → slice x.block x.ptr k ≡ take k (chars x)
take-chars x k n v h = rw v.its_len (sym (take-take k n (drop x.ptr x.block) h))

memcmp_min :
    (x y : StringPiece) (m n : ℕ)
    → IsPiece x m
    → IsPiece y n
    → memcmp x y (min_len x y) ≡ ok (byte_difference (chars x) (chars y))
memcmp_min x y m n v w =
    ap (memcmp x y) (min_len_lem x y m n v w)
    ∙ memcmp_lem x y (min m n) (omega (arith, v.inside)) (omega (arith, w.inside))
    ∙ ap₂ (λ xs ys. ok (byte_difference xs ys)) (take-chars x (min m n) m v (omega arith))
        (take-chars y (min m n) n w (omega arith))
    ∙ ap ok (
        byte_difference-take (min m n) (chars x) (chars y)
          (omega (arith, length-chars x m v, length-chars y n w)))

abbrev pub sign : ℤ → Order
sign (negsuc d) = before
sign (pos zero) = same
sign (pos (suc d)) = after

-- `cmp` and `auxcmp` of the macro, at a difference and two lengths.
predicate_lem :
    (cmp auxcmp : ℤ → ℤ → Bool) (x y : StringPiece) (m n : ℕ)
    → IsPiece x m
    → IsPiece y n
    → binary_predicate cmp auxcmp x y
      ≡ ok (
          auxcmp (byte_difference (chars x) (chars y)) (pos 0)
          || (is_zero (byte_difference (chars x) (chars y)) && cmp (pos m) (pos n)))
unfolding binary_predicate
predicate_lem cmp auxcmp x y m n v w = rw (memcmp_min x y m n v w, v.its_len, w.its_len) refl

less_told :
    (d : ℤ) (m n : ℕ)
    → (ltb_ℤ d (pos 0) || (is_zero d && ltb_ℤ (pos m) (pos n))) ≡ is_before (told d m n)
unfolding compare_numbers
less_told (negsuc d) m n = ground arith
less_told (pos zero) m n = ground arith
less_told (pos (suc d)) m n = ground arith

less_equal_told :
    (d : ℤ) (m n : ℕ)
    → (ltb_ℤ d (pos 0) || (is_zero d && leb_ℤ (pos m) (pos n))) ≡ not (is_after (told d m n))
unfolding compare_numbers
less_equal_told (negsuc d) m n = ground arith
less_equal_told (pos zero) m n = ground arith
less_equal_told (pos (suc d)) m n = ground arith

greater_told :
    (d : ℤ) (m n : ℕ)
    → (gt_ℤ d (pos 0) || (is_zero d && gt_ℤ (pos m) (pos n))) ≡ is_after (told d m n)
unfolding compare_numbers
greater_told (negsuc d) m n = ground arith
greater_told (pos zero) m n = ground arith
greater_told (pos (suc d)) m n = ground arith

greater_equal_told :
    (d : ℤ) (m n : ℕ)
    → (gt_ℤ d (pos 0) || (is_zero d && ge_ℤ (pos m) (pos n))) ≡ not (is_before (told d m n))
unfolding compare_numbers
greater_equal_told (negsuc d) m n = ground arith
greater_equal_told (pos zero) m n = ground arith
greater_equal_told (pos (suc d)) m n = ground arith

-- The result of `compare`, from the first difference and the lengths.
abbrev compared : ℤ → ℕ → ℕ → ℤ
compared d m n =
    if is_zero d
    then if ltb_ℤ (pos m) (pos n) then negsuc 0 else if ltb_ℤ (pos n) (pos m) then pos 1 else d
    else d

compare_told : (d : ℤ) (m n : ℕ) → sign (compared d m n) ≡ told d m n
unfolding compare_numbers
compare_told (negsuc d) m n = ground arith
compare_told (pos zero) m n = ground arith
compare_told (pos (suc d)) m n = ground arith

same_told : (d : ℤ) (m : ℕ) → is_zero d ≡ is_same (told d m m)
unfolding compare_numbers
same_told (negsuc d) m = ground arith
same_told (pos zero) m = ground arith
same_told (pos (suc d)) m = ground arith

other_told : (d : ℤ) (m n : ℕ) → m ≢ n → is_same (told d m n) ≡ false
unfolding compare_numbers
other_told (negsuc d) m n h = ground arith
other_told (pos zero) m n h = ground arith
other_told (pos (suc d)) m n h = ground arith

told_chars :
    (x y : StringPiece) (m n : ℕ)
    → IsPiece x m
    → IsPiece y n
    → told (byte_difference (chars x) (chars y)) m n ≡ lex (chars x) (chars y)
told_chars x y m n v w =
    ap₂ (told (byte_difference (chars x) (chars y))) (sym (length-chars x m v))
      (sym (length-chars y n w))
    ∙ told-lex (chars x) (chars y)

equal_lem :
    (x y : StringPiece) (m n : ℕ)
    → IsPiece x m
    → IsPiece y n
    → equal x y ≡ ok (is_same (lex (chars x) (chars y)))
unfolding equal
equal_lem x y m n v w = elim (ℕ_discrete m n) [
  | yes alike ↦ rw (let e : same_len x y ≡ true = ground (arith, v.its_len, w.its_len) in e) (
      ap (λ k. memcmp x y k >>= (λ r. ok (is_zero r)))
        (v.its_len
          ∙ ap pos (let e : m ≡ min m n = omega arith in e)
          ∙ sym (min_len_lem x y m n v w))
      ∙ (rw (memcmp_min x y m n v w) refl)
      ∙ ap ok (
          same_told (byte_difference (chars x) (chars y)) m
          ∙ ap (λ k. is_same (told (byte_difference (chars x) (chars y)) m k)) alike
          ∙ ap is_same (told_chars x y m n v w)))
  | no unlike ↦ rw (let e : same_len x y ≡ false = ground (arith, v.its_len, w.its_len) in e) (
      ap ok (
        sym (other_told (byte_difference (chars x) (chars y)) m n unlike)
        ∙ ap is_same (told_chars x y m n v w)))
]

-- The six operators are those of one order, that of the strings byte by byte, and `compare` returns
-- a number of its sign.
pub comparisons_agree :
    (x y : StringPiece) (m n : ℕ)
    → IsPiece x m
    → IsPiece y n
    → (less x y ≡ ok (is_before (lex (chars x) (chars y))))
      × (less_equal x y ≡ ok (not (is_after (lex (chars x) (chars y)))))
      × (greater x y ≡ ok (is_after (lex (chars x) (chars y))))
      × (greater_equal x y ≡ ok (not (is_before (lex (chars x) (chars y)))))
      × (equal x y ≡ ok (is_same (lex (chars x) (chars y))))
      × (not_equal x y ≡ ok (not (is_same (lex (chars x) (chars y)))))
      × ((r : ℤ) × (compare_pieces x y ≡ ok r) × (sign r ≡ lex (chars x) (chars y)))
unfolding less less_equal greater greater_equal not_equal compare_pieces
comparisons_agree x y m n v w =
    let d = byte_difference (chars x) (chars y) in
    let o = told_chars x y m n v w in
    (
      predicate_lem ltb_ℤ ltb_ℤ x y m n v w ∙ ap ok (less_told d m n ∙ ap is_before o),
      predicate_lem leb_ℤ ltb_ℤ x y m n v w
          ∙ ap ok (less_equal_told d m n ∙ ap (λ q. not (is_after q)) o),
      predicate_lem gt_ℤ gt_ℤ x y m n v w ∙ ap ok (greater_told d m n ∙ ap is_after o),
      predicate_lem ge_ℤ gt_ℤ x y m n v w
          ∙ ap ok (greater_equal_told d m n ∙ ap (λ q. not (is_before q)) o),
      equal_lem x y m n v w,
      rw (equal_lem x y m n v w) refl,
      (
        compared d m n,
        rw (memcmp_min x y m n v w, v.its_len, w.its_len) refl,
        compare_told d m n ∙ o,
      ),
    )
