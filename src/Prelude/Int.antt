-- ===== src/Prelude/Int.antt =====
-- `int` values that may be negative; `negsuc n` is -(n + 1).
use Prim.Native.Nat.{ℕ, suc, ◌+◌, ◌-◌, ◌%◌, ◌^◌}
use mathlib.Core.Bool.{Bool}
use lib_net_toy.Prelude.Tests.{ltb, leb, if◌then◌else◌}
use lib_net_toy.Prelude.Faults.{Result, ok, fault, signed_overflow}

pub data ℤ : Type 0 where
  pos : ℕ → ℤ
  negsuc : ℕ → ℤ

-- The rounds of `for (int i = 0; i < n; ++i)`.
abbrev pub pos_part : ℤ → ℕ
pos_part (pos n) = n
pos_part (negsuc n) = 0

abbrev pub neg_part : ℤ → ℕ
neg_part (pos n) = 0
neg_part (negsuc n) = suc n

-- a - b, as an integer.
abbrev pub sub_ℕ : ℕ → ℕ → ℤ
sub_ℕ a b = if leb b a then pos (a - b) else negsuc (b - a - 1)

abbrev pub ltb_ℤ : ℤ → ℤ → Bool
ltb_ℤ a b = ltb (pos_part a + neg_part b) (pos_part b + neg_part a)

abbrev pub leb_ℤ : ℤ → ℤ → Bool
leb_ℤ a b = leb (pos_part a + neg_part b) (pos_part b + neg_part a)

-- The result of `int` arithmetic; outside 32 bits it is undefined.
abbrev pub check_int : ℤ → Result ℤ
check_int (pos n) = if ltb n (2 ^ 31) then ok (pos n) else fault signed_overflow
check_int (negsuc n) = if ltb n (2 ^ 31) then ok (negsuc n) else fault signed_overflow

abbrev pub sub_int : ℤ → ℤ → Result ℤ
sub_int a b = check_int (sub_ℕ (pos_part a + neg_part b) (neg_part a + pos_part b))

-- `static_cast<int>` of a `size_t`, and the `size_t` that an `int` converts to.
abbrev pub int_of_size : ℕ → ℤ
int_of_size n =
    if ltb (n % 2 ^ 32) (2 ^ 31) then pos (n % 2 ^ 32) else negsuc (2 ^ 32 - 1 - n % 2 ^ 32)

abbrev pub size_of_int : ℤ → ℕ
size_of_int (pos n) = n
size_of_int (negsuc n) = 2 ^ 64 - 1 - n
