-- ===== src/Prelude/Decimal.antt =====
-- Decimal printing, as `%d` and `operator<<` print a non-negative `int`.
use Prim.Native.Nat.{ℕ, zero, suc, ◌+◌, ◌-◌, ◌*◌, ◌/◌, ◌%◌, ◌<◌}
use mathlib.Core.Path.{◌≡◌, refl, sym, ap, ◌∙◌}
use mathlib.Core.List.{List, [], ◌∷◌, ◌++◌}
use native.Mathlib.Omega.{arith}
use lib_net_toy.Prelude.Tests.{ltb, if◌then◌else◌}

unfoldable pub decimal_fuel : ℕ → ℕ → List ℕ
decimal_fuel zero n = []
decimal_fuel (suc f) n =
    let rest = decimal_fuel f (n / 10) in
    if ltb n 10 then (48 + n) ∷ [] else (rest ++ (48 + n % 10) ∷ [])

-- The digits of `n`, most significant first; `n + 1` rounds are enough.
unfoldable pub decimal : ℕ → List ℕ
unfolding decimal_fuel
decimal n = decimal_fuel (n + 1) n

-- The number that a row of digits stands for, behind the digits already read.
value : ℕ → List ℕ → ℕ
value acc [] = acc
value acc (d ∷ ds) = value (acc * 10 + (d - 48)) ds

value-append :
    (acc : ℕ) (xs : List ℕ) (d : ℕ) → value acc (xs ++ d ∷ []) ≡ value acc xs * 10 + (d - 48)
unfolding value
value-append acc [] d = refl
value-append acc (x ∷ xs) d = value-append (acc * 10 + (x - 48)) xs d

value-decimal_fuel : (f n : ℕ) → n < f → value 0 (decimal_fuel f n) ≡ n
unfolding decimal_fuel value
value-decimal_fuel zero n h = absurd (omega arith)
value-decimal_fuel (suc f) n h =
    ground
      (arith, value-decimal_fuel f (n / 10), value-append 0 (decimal_fuel f (n / 10)) (48 + n % 10))

-- Different numbers print differently.
pub decimal-injective : (m n : ℕ) → decimal m ≡ decimal n → m ≡ n
unfolding decimal
decimal-injective m n e =
    sym (value-decimal_fuel (m + 1) m (omega arith))
    ∙ ap (value 0) e
    ∙ value-decimal_fuel (n + 1) n (omega arith)
