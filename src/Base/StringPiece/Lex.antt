-- ===== src/Base/StringPiece/Lex.antt =====
-- The order of byte strings, apart from the code: where the first bytes differ the smaller decides,
-- and a proper prefix comes first.
use lib_net_toy.Prelude.{
  ℕ, ◌≡◌, refl, ◌⊎◌, inl, inr, Bool, true, false, List, [], ◌∷◌, arith, ltb, ◌==◌, if◌then◌else◌,
}

pub data Order : Type 0 where
  before same after : Order

unfoldable pub compare_numbers : ℕ → ℕ → Order
compare_numbers a b = if ltb a b then before else if ltb b a then after else same

unfoldable pub lex : List ℕ → List ℕ → Order
lex [] [] = same
lex [] (y ∷ ys) = before
lex (x ∷ xs) [] = after
lex (x ∷ xs) (y ∷ ys) = if x == y then lex xs ys else compare_numbers x y

abbrev pub is_before : Order → Bool
is_before before = true
is_before _ = false

abbrev pub is_after : Order → Bool
is_after after = true
is_after _ = false

abbrev pub is_same : Order → Bool
is_same same = true
is_same _ = false

abbrev pub reversed : Order → Order
reversed before = after
reversed same = same
reversed after = before

pub lex-same : (xs ys : List ℕ) → lex xs ys ≡ same → xs ≡ ys
unfolding lex compare_numbers
lex-same [] [] h = refl
lex-same [] (y ∷ ys) h = cc
lex-same (x ∷ xs) [] h = cc
lex-same (x ∷ xs) (y ∷ ys) h = ground (arith, lex-same xs ys)

pub lex_refl : (xs : List ℕ) → lex xs xs ≡ same
unfolding lex
lex_refl [] = refl
lex_refl (x ∷ xs) = ground (arith, lex_refl xs)

pub lex-reversed : (xs ys : List ℕ) → lex ys xs ≡ reversed (lex xs ys)
unfolding lex compare_numbers
lex-reversed [] [] = refl
lex-reversed [] (y ∷ ys) = refl
lex-reversed (x ∷ xs) [] = refl
lex-reversed (x ∷ xs) (y ∷ ys) = ground (arith, lex-reversed xs ys)

pub lex_trans : (xs ys zs : List ℕ) → lex xs ys ≡ before → lex ys zs ≡ before → lex xs zs ≡ before
unfolding lex compare_numbers
lex_trans [] [] zs p q = cc
lex_trans [] (y ∷ ys) [] p q = cc
lex_trans [] (y ∷ ys) (z ∷ zs) p q = refl
lex_trans (x ∷ xs) [] zs p q = cc
lex_trans (x ∷ xs) (y ∷ ys) [] p q = cc
lex_trans (x ∷ xs) (y ∷ ys) (z ∷ zs) p q = ground (arith, lex_trans xs ys zs)

pub Order-cases : (o : Order) → (o ≡ before) ⊎ (o ≡ same) ⊎ (o ≡ after)
Order-cases before = inl refl
Order-cases same = inr (inl refl)
Order-cases after = inr (inr refl)
