-- ===== src/Prelude/Faults.antt =====
-- What can go wrong in the C++ program, as values: a failed `assert`, an access outside an object,
-- and a `std::vector` that would grow past its limit. A call returns its result or the fault.
use mathlib.Core.Path.{◌≡◌, refl}
use mathlib.Core.Logic.{◌⊎◌, inl, inr}
use mathlib.Core.Bool.{Bool, true, false}

pub data Fault : Type 0 where
  assertion out_of_range length_error null_pointer dangling bad_function_call signed_overflow :
      Fault

pub data Result {ℓ} (A : Type ℓ) : Type ℓ where
  ok : A → Result A
  fault : Fault → Result A

infixl 5 ◌>>=◌ ◌>>◌
abbrev pub ◌>>=◌ {ℓ κ} : {X : Type ℓ} {Y : Type κ} (r : Result X) (next : X → Result Y) → Result Y
fault f >>= next = fault f
ok x >>= next = next x

abbrev pub ◌>>◌ {ℓ} : {Y : Type ℓ} (r : Result (Unit {0})) (next : Result Y) → Result Y
r >> next = r >>= λ done. next

-- `assert(b)`, in a build that keeps assertions.
abbrev pub assert : Bool → Result (Unit {0})
assert true = ok tt
assert false = fault assertion

-- Inversion of a successful step.
pub >>=-eq-ok {ℓ κ} :
    {X : Type ℓ} {Y : Type κ} (r : Result X) (next : X → Result Y) {y : Y} (e : (r >>= next) ≡ ok y)
    → (x : X) × (r ≡ ok x) × (next x ≡ ok y)
>>=-eq-ok (fault f) next e = cc
>>=-eq-ok (ok x) next e = (x, refl, e)

-- To split on an outcome and keep the equation.
pub Result-cases {ℓ} :
    {A : Type ℓ} (r : Result A) → ((a : A) × (r ≡ ok a)) ⊎ ((f : Fault) × (r ≡ fault f))
Result-cases (ok a) = inl (a, refl)
Result-cases (fault f) = inr (f, refl)

pub assert-eq-ok : (b : Bool) {u : Unit {0}} → assert b ≡ ok u → b ≡ true
assert-eq-ok true e = refl
assert-eq-ok false e = cc

pub ok-injective {ℓ} : {A : Type ℓ} {a b : A} → ok a ≡ ok b → a ≡ b
ok-injective e = cc
