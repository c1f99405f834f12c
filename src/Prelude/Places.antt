-- ===== src/Prelude/Places.antt =====
-- The places of a list: what stands where when an element is replaced or added, and what holds of all.
use lib_net_toy.Prelude.Lists.{length, get_elem?, set}
use Prim.Native.Nat.{ℕ, zero, suc, ◌<◌}
use mathlib.Core.Path.{◌≡◌, refl, ap}
use mathlib.Core.Logic.{◌≢◌, ◌⊎◌, inl, inr}
use mathlib.Core.List.{List, [], ◌∷◌, ◌++◌}
use mathlib.Core.Option.{some}
use native.Mathlib.Omega.{arith}

module _ {ℓ} {A : Type ℓ} where
  pub length-set : (xs : List A) (i : ℕ) (a : A) → length (set xs i a) ≡ length xs
  length-set [] i a = refl
  length-set (x ∷ xs) zero a = refl
  length-set (x ∷ xs) (suc i) a = ap suc (length-set xs i a)

  pub get_elem?-set_self :
      (xs : List A) (i : ℕ) (a b : A) → get_elem? xs i ≡ some a → get_elem? (set xs i b) i ≡ some b
  get_elem?-set_self [] i a b e = cc
  get_elem?-set_self (x ∷ xs) zero a b e = refl
  get_elem?-set_self (x ∷ xs) (suc i) a b e = get_elem?-set_self xs i a b e

  pub get_elem?-set_ne :
      (xs : List A) (i j : ℕ) (b : A) → i ≢ j → get_elem? (set xs i b) j ≡ get_elem? xs j
  get_elem?-set_ne [] i j b h = refl
  get_elem?-set_ne (x ∷ xs) zero zero b h = absurd (omega arith)
  get_elem?-set_ne (x ∷ xs) zero (suc j) b h = refl
  get_elem?-set_ne (x ∷ xs) (suc i) zero b h = refl
  get_elem?-set_ne (x ∷ xs) (suc i) (suc j) b h = get_elem?-set_ne xs i j b (omega arith)

  pub get_elem?-set-cases :
      (xs : List A) (i j : ℕ) (a b : A)
      → get_elem? (set xs i b) j ≡ some a
      → ((j ≡ i) × (a ≡ b)) ⊎ ((j ≢ i) × (get_elem? xs j ≡ some a))
  get_elem?-set-cases [] i j a b e = cc
  get_elem?-set-cases (x ∷ xs) zero zero a b e = inl (refl, cc)
  get_elem?-set-cases (x ∷ xs) zero (suc j) a b e = inr (omega arith, e)
  get_elem?-set-cases (x ∷ xs) (suc i) zero a b e = inr (omega arith, e)
  get_elem?-set-cases (x ∷ xs) (suc i) (suc j) a b e = elim (get_elem?-set-cases xs i j a b e) [
    | inl (same, at) ↦ inl (omega (arith, same), at)
    | inr (other, at) ↦ inr (omega (arith, other), at)
  ]

  pub set-get_elem? : (xs : List A) (i : ℕ) (a : A) → get_elem? xs i ≡ some a → set xs i a ≡ xs
  set-get_elem? [] i a e = refl
  set-get_elem? (x ∷ xs) zero a e = cc
  set-get_elem? (x ∷ xs) (suc i) a e = ap (λ ys. x ∷ ys) (set-get_elem? xs i a e)

  pub set-set : (xs : List A) (i : ℕ) (a b : A) → set (set xs i a) i b ≡ set xs i b
  set-set [] i a b = refl
  set-set (x ∷ xs) zero a b = refl
  set-set (x ∷ xs) (suc i) a b = ap (λ ys. x ∷ ys) (set-set xs i a b)

  -- What is there stays there behind an append, and a place below the end is one of the first part
  -- or the last.
  pub get_elem?-append :
      (xs ys : List A) (i : ℕ) (a : A) → get_elem? xs i ≡ some a → get_elem? (xs ++ ys) i ≡ some a
  get_elem?-append [] ys i a e = cc
  get_elem?-append (x ∷ xs) ys zero a e = e
  get_elem?-append (x ∷ xs) ys (suc i) a e = get_elem?-append xs ys i a e

  pub get_elem?-append-cases :
      (xs : List A) (y : A) (i : ℕ) (a : A)
      → get_elem? (xs ++ y ∷ []) i ≡ some a
      → (get_elem? xs i ≡ some a) ⊎ ((i ≡ length xs) × (a ≡ y))
  get_elem?-append-cases [] y zero a e = inr (refl, cc)
  get_elem?-append-cases [] y (suc i) a e = cc
  get_elem?-append-cases (x ∷ xs) y zero a e = inl e
  get_elem?-append-cases (x ∷ xs) y (suc i) a e = elim (get_elem?-append-cases xs y i a e) [
    | inl here ↦ inl here
    | inr (last, same) ↦ inr (omega (arith, last), same)
  ]

  pub get_elem?-lt : (xs : List A) (i : ℕ) (a : A) → get_elem? xs i ≡ some a → i < length xs
  get_elem?-lt [] i a e = cc
  get_elem?-lt (x ∷ xs) zero a e = omega arith
  get_elem?-lt (x ∷ xs) (suc i) a e = omega (arith, get_elem?-lt xs i a e)

pub set-append_last {ℓ} :
    {A : Type ℓ} (xs : List A) (x y : A) → set (xs ++ x ∷ []) (length xs) y ≡ xs ++ y ∷ []
set-append_last [] x y = refl
set-append_last (z ∷ xs) x y = ap (λ ys. z ∷ ys) (set-append_last xs x y)

pub append-injective {ℓ} :
    {A : Type ℓ} (xs : List A) {ys zs : List A} → xs ++ ys ≡ xs ++ zs → ys ≡ zs
append-injective [] e = e
append-injective (x ∷ xs) e = append-injective xs (cc e)

-- Every element has the property.
abbrev pub All {ℓ κ} : {A : Type ℓ} → (A → Type κ) → List A → Type κ
All P [] = Unit
All P (x ∷ xs) = P x × All P xs

module _ {ℓ κ} {A : Type ℓ} (P : A → Type κ) where
  pub All-append : (xs ys : List A) → All P xs → All P ys → All P (xs ++ ys)
  All-append [] ys h k = k
  All-append (x ∷ xs) ys h k = (h.0, All-append xs ys h.1 k)

  -- Out of the middle.
  pub All-middle : (xs ys : List A) (x : A) → All P (xs ++ x ∷ ys) → P x × All P (xs ++ ys)
  All-middle [] ys x h = h
  All-middle (y ∷ xs) ys x h = let (k, rest) = All-middle xs ys x h.1 in (k, (h.0, rest))

  pub All-mono : (Q : A → Type κ) (xs : List A) → ((x : A) → P x → Q x) → All P xs → All Q xs
  All-mono Q [] f h = tt
  All-mono Q (x ∷ xs) f h = (f x h.0, All-mono Q xs f h.1)
