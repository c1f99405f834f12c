-- ===== src/Base/StringPiece/Prefixes.antt =====
-- `starts_with`, and what `remove_prefix` and `remove_suffix` leave.
use lib_net_toy.Prelude.{
  slice, drop-slice, take-take, leb→le, length-take, take-append-drop, ℕ, ◌+◌, ◌-◌, ◌^◌, ◌≤◌, ◌<◌,
  ◌≡◌, refl, sym, ap, ap₂, ◌∙◌, ◌≢◌, ◌⊎◌, inl, inr, true, false, List, [], ◌∷◌, ◌++◌, arith, leb,
  Bool-cases, ok, ◌>>=◌, length, take, drop,
}
use lib_net_toy.Base.StringPiece.Comparing.{chars, IsPiece, length-chars, memcmp_lem, take-chars}
use lib_net_toy.Base.StringPiece.{
  StringPiece, remove_suffix, starts_with, remove_prefix, is_zero, byte_difference, memcmp,
}
use lib_net_toy.Prelude.Int.{leb_ℤ, pos, pos_part}

byte_difference_self : (xs : List ℕ) → byte_difference xs xs ≡ pos 0
unfolding byte_difference
byte_difference_self [] = refl
byte_difference_self (x ∷ xs) = ground (arith, byte_difference_self xs)

byte_difference-zero :
    (xs ys : List ℕ) → length xs ≡ length ys → is_zero (byte_difference xs ys) ≡ true → xs ≡ ys
unfolding byte_difference
byte_difference-zero [] [] h e = refl
byte_difference-zero [] (y ∷ ys) h e = absurd (omega arith)
byte_difference-zero (x ∷ xs) [] h e = absurd (omega arith)
byte_difference-zero (x ∷ xs) (y ∷ ys) h e = ground (arith, byte_difference-zero xs ys)

pub remove_prefix_lem :
    (x : StringPiece) (m k : ℕ)
    → IsPiece x m
    → m < 2 ^ 31
    → k ≤ m
    → (x' : StringPiece) × (remove_prefix x (pos k) ≡ ok x')
      × IsPiece x' (m - k)
      × (chars x' ≡ drop k (chars x))
unfolding remove_prefix
remove_prefix_lem x m k v small le = (
  record x { ptr = x.ptr + k; len = pos (m - k) },
  ground (arith, v.its_len, v.inside),
  record { its_len = refl; inside = omega (arith, v.inside) },
  rw v.its_len (sym (drop-slice x.block x.ptr m k (x.ptr + k) (m - k) refl (omega arith))),
)

pub remove_suffix_lem :
    (x : StringPiece) (m k : ℕ)
    → IsPiece x m
    → m < 2 ^ 31
    → k ≤ m
    → (x' : StringPiece) × (remove_suffix x (pos k) ≡ ok x')
      × IsPiece x' (m - k)
      × (chars x' ≡ take (m - k) (chars x))
unfolding remove_suffix
remove_suffix_lem x m k v small le = (
  record x { len = pos (m - k) },
  ground (arith, v.its_len),
  record { its_len = refl; inside = omega (arith, v.inside) },
  rw v.its_len (sym (take-take (m - k) m (drop x.ptr x.block) (omega arith))),
)

length-take-chars :
    (x y : StringPiece) (m n : ℕ)
    → IsPiece x m
    → IsPiece y n
    → n ≤ m
    → length (take n (chars x)) ≡ length (chars y)
length-take-chars x y m n v w le =
    omega (arith, length-take n (chars x), length-chars x m v, length-chars y n w)

starts_with_fits :
    (x y : StringPiece) (m n : ℕ)
    → IsPiece x m
    → IsPiece y n
    → n ≤ m
    → starts_with x y ≡ ok (is_zero (byte_difference (take n (chars x)) (chars y)))
unfolding starts_with
starts_with_fits x y m n v w le =
    rw (let e : leb_ℤ y.len x.len ≡ true = ground (arith, v.its_len, w.its_len) in e) (
      ap (λ k. memcmp x y k >>= (λ r. ok (is_zero r))) w.its_len
      ∙ rw (memcmp_lem x y n (omega (arith, v.inside)) w.inside) (
          ap₂ (λ xs ys. ok (is_zero (byte_difference xs ys))) (take-chars x n m v le)
            (ap (slice y.block y.ptr) (ap pos_part (sym w.its_len)))))

starts_with_short :
    (x y : StringPiece) (m n : ℕ) → IsPiece x m → IsPiece y n → m < n → starts_with x y ≡ ok false
unfolding starts_with
starts_with_short x y m n v w lt = ground (arith, v.its_len, w.its_len)

-- `starts_with` says whether the one string begins with the other, and removing that prefix leaves
-- the rest.
pub starts_with_lem :
    (x y : StringPiece) (m n : ℕ)
    → IsPiece x m
    → IsPiece y n
    → m < 2 ^ 31
    → ((starts_with x y ≡ ok true)
        × ((rest : StringPiece) × (remove_prefix x y.len ≡ ok rest)
            × (chars x ≡ chars y ++ chars rest)))
      ⊎ ((starts_with x y ≡ ok false) × (take n (chars x) ≢ chars y))
starts_with_lem x y m n v w small = elim (Bool-cases (leb n m)) [
  | inr short ↦
      let lt : m < n = ground arith in
      inr (
        starts_with_short x y m n v w lt,
        λ e.
            omega
              (arith, ap length e, length-take n (chars x), length-chars x m v, length-chars y n w),
      )
  | inl fits ↦
      let le : n ≤ m = leb→le n m fits in
      let (rest, e, r, c) = remove_prefix_lem x m n v small le in
      elim (Bool-cases (is_zero (byte_difference (take n (chars x)) (chars y)))) [
        | inl hit ↦
            let begin =
              byte_difference-zero (take n (chars x)) (chars y) (length-take-chars x y m n v w le)
                hit in
            inl (
              starts_with_fits x y m n v w le ∙ ap ok hit,
              (
                rest,
                ap (remove_prefix x) w.its_len ∙ e,
                sym (take-append-drop n (chars x)) ∙ ap₂ ◌++◌ begin (sym c),
              ),
            )
        | inr miss ↦ inr (
          starts_with_fits x y m n v w le ∙ ap ok miss,
          λ same. cc (miss, same, byte_difference_self (chars y)),
        )
      ]
]
