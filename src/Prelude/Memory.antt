-- ===== src/Prelude/Memory.antt =====
-- An array of bytes as a list: the ranges that `memcpy` and `std::copy` read and write, and
-- `std::vector::resize`.
use Prim.Native.Nat.{ℕ, ◌+◌, ◌-◌, ◌^◌, ◌≤◌}
use mathlib.Core.Path.{◌≡◌, sym, ap, ap₂, ◌∙◌}
use mathlib.Core.List.{List, ◌++◌, append_assoc}
use native.Mathlib.Omega.{arith}
use lib_net_toy.Prelude.Tests.{leb, if◌then◌else◌}
use lib_net_toy.Prelude.Faults.{Result, ok, fault, out_of_range, length_error}
use lib_net_toy.Prelude.Lists.{
  length, take, drop, replicate, length-append, length-take, length-drop, length-replicate,
  take_all, take-append-drop, take-append_of_length, drop-append_of_length, drop-drop, drop-take,
  take-take, take-append_le, drop-append_le,
}

-- The `n` bytes from index `a` on.
abbrev pub slice : List ℕ → ℕ → ℕ → List ℕ
slice xs a n = take n (drop a xs)

-- The array after `ds` is written from index `i` on.
unfoldable pub overwrite : List ℕ → ℕ → List ℕ → List ℕ
overwrite xs i ds = take i xs ++ (ds ++ drop (i + length ds) xs)

-- A read or a write outside the array is undefined in C++.
unfoldable pub read_range : List ℕ → ℕ → ℕ → Result (List ℕ)
read_range xs a n = if leb (a + n) (length xs) then ok (slice xs a n) else fault out_of_range

unfoldable pub write_range : List ℕ → ℕ → List ℕ → Result (List ℕ)
unfolding overwrite
write_range xs i ds =
    if leb (i + length ds) (length xs) then ok (overwrite xs i ds) else fault out_of_range

-- `std::vector<char>::max_size()`, the largest `ptrdiff_t`.
abbrev pub max_size : ℕ
max_size = 2 ^ 63 - 1

-- `resize(n)`: new bytes are zero. A longer vector than `max_size` throws.
unfoldable pub resized : List ℕ → ℕ → List ℕ
resized xs n = take n xs ++ replicate (n - length xs) 0

unfoldable pub resize : List ℕ → ℕ → Result (List ℕ)
unfolding resized
resize xs n = if leb n max_size then ok (resized xs n) else fault length_error

pub length-slice : (xs : List ℕ) (a n : ℕ) → a + n ≤ length xs → length (slice xs a n) ≡ n
length-slice xs a n h = omega (arith, length-take n (drop a xs), length-drop a xs)

pub length-overwrite :
    (xs ds : List ℕ) (i : ℕ) → i + length ds ≤ length xs → length (overwrite xs i ds) ≡ length xs
unfolding overwrite
length-overwrite xs ds i h = omega (
  arith,
  length-append (take i xs) (ds ++ drop (i + length ds) xs),
  length-append ds (drop (i + length ds) xs),
  length-take i xs,
  length-drop (i + length ds) xs,
)

-- The middle of three parts.
pub slice-append :
    (pre mid post : List ℕ) (a n : ℕ)
    → length pre ≡ a
    → length mid ≡ n
    → slice (pre ++ (mid ++ post)) a n ≡ mid
slice-append pre mid post a n hp hm =
    ap (take n) (drop-append_of_length a pre (mid ++ post) hp) ∙ take-append_of_length n mid post hm

take-eq-append : (xs : List ℕ) (a n k : ℕ) → k ≡ a + n → take k xs ≡ take a xs ++ slice xs a n
take-eq-append xs a n k h =
    sym (take-append-drop a (take k xs))
    ∙ ap₂ ◌++◌ (take-take a k xs (omega arith)) (drop-take a k n xs h)

-- Two neighbouring ranges.
pub slice-add :
    (xs : List ℕ) (a n m b k : ℕ)
    → b ≡ a + n
    → k ≡ n + m
    → slice xs a k ≡ slice xs a n ++ slice xs b m
slice-add xs a n m b k hb hk =
    take-eq-append (drop a xs) n m k hk
    ∙ ap (λ ys. slice xs a n ++ take m ys) (drop-drop a n b xs hb)

-- A write behind a range extends it.
pub slice-overwrite_after :
    (xs ds : List ℕ) (a n i k : ℕ)
    → i ≡ a + n
    → k ≡ n + length ds
    → i ≤ length xs
    → slice (overwrite xs i ds) a k ≡ slice xs a n ++ ds
unfolding overwrite
slice-overwrite_after xs ds a n i k hi hk h =
    ap (λ ys. slice ys a k) regroup
    ∙ slice-append (take a xs) (slice xs a n ++ ds) (drop (i + length ds) xs) a k
        (omega (arith, length-take a xs))
        (omega (arith, length-append (slice xs a n) ds, length-slice xs a n (omega arith)))
  where
    regroup :
        take i xs ++ (ds ++ drop (i + length ds) xs)
        ≡ take a xs ++ ((slice xs a n ++ ds) ++ drop (i + length ds) xs)
    regroup = rw (take-eq-append xs a n i hi) (simp append_assoc)

-- A write in front of a range extends it.
pub slice-overwrite_before :
    (xs ds : List ℕ) (i j n k : ℕ)
    → j ≡ i + length ds
    → k ≡ length ds + n
    → j + n ≤ length xs
    → slice (overwrite xs i ds) i k ≡ ds ++ slice xs j n
unfolding overwrite
slice-overwrite_before xs ds i j n k hj hk h =
    ap (λ ys. slice ys i k) regroup
    ∙ slice-append (take i xs) (ds ++ slice xs j n) (drop n (drop j xs)) i k
        (omega (arith, length-take i xs))
        (omega (arith, length-append ds (slice xs j n), length-slice xs j n h))
  where
    regroup :
        take i xs ++ (ds ++ drop (i + length ds) xs)
        ≡ take i xs ++ ((ds ++ slice xs j n) ++ drop n (drop j xs))
    regroup = rw (← hj) (
        ap (λ ys. take i xs ++ ys)
          (ap (λ ys. ds ++ ys) (sym (take-append-drop n (drop j xs)))
            ∙ sym (append_assoc ds (slice xs j n) (drop n (drop j xs)))))

pub slice-overwrite_self :
    (xs ds : List ℕ) (i k : ℕ)
    → k ≡ length ds
    → i + length ds ≤ length xs
    → slice (overwrite xs i ds) i k ≡ ds
unfolding overwrite
slice-overwrite_self xs ds i k hk h =
    slice-append (take i xs) ds (drop (i + length ds) xs) i k (omega (arith, length-take i xs))
      (omega arith)

pub slice-append_le :
    (xs ys : List ℕ) (a n : ℕ) → a + n ≤ length xs → slice (xs ++ ys) a n ≡ slice xs a n
slice-append_le xs ys a n h =
    ap (take n) (drop-append_le a xs ys (omega arith))
    ∙ take-append_le n (drop a xs) ys (omega (arith, length-drop a xs))

pub drop-slice :
    (xs : List ℕ) (a n m b k : ℕ) → b ≡ a + m → n ≡ m + k → drop m (slice xs a n) ≡ slice xs b k
drop-slice xs a n m b k hb hn = drop-take m n k (drop a xs) hn ∙ ap (take k) (drop-drop a m b xs hb)

-- The bounds under which the calls succeed.
pub read_range_ok :
    (xs : List ℕ) (a n : ℕ) → a + n ≤ length xs → read_range xs a n ≡ ok (slice xs a n)
unfolding read_range
read_range_ok xs a n h = ground arith

pub write_range_ok :
    (xs : List ℕ) (i : ℕ) (ds : List ℕ)
    → i + length ds ≤ length xs
    → write_range xs i ds ≡ ok (overwrite xs i ds)
unfolding write_range
write_range_ok xs i ds h = ground arith

pub resize_ok : (xs : List ℕ) (n : ℕ) → n ≤ max_size → resize xs n ≡ ok (resized xs n)
unfolding resize
resize_ok xs n h = ground arith

pub length-resized : (xs : List ℕ) (n : ℕ) → length (resized xs n) ≡ n
unfolding resized
length-resized xs n = omega (
  arith,
  length-append (take n xs) (replicate (n - length xs) 0),
  length-take n xs,
  length-replicate {A = ℕ} (n - length xs) 0,
)

-- A longer vector keeps the old bytes.
pub slice-resized :
    (xs : List ℕ) (n a k : ℕ)
    → length xs ≤ n
    → a + k ≤ length xs
    → slice (resized xs n) a k ≡ slice xs a k
unfolding resized
slice-resized xs n a k h ha =
    slice-append_le (take n xs) (replicate (n - length xs) 0) a k (omega (arith, length-take n xs))
    ∙ ap (λ ys. slice ys a k) (take_all n xs h)

-- A write leaves the range in front of it.
pub slice-overwrite_left :
    (xs ds : List ℕ) (i a n : ℕ)
    → a + n ≤ i
    → i ≤ length xs
    → slice (overwrite xs i ds) a n ≡ slice xs a n
unfolding overwrite
slice-overwrite_left xs ds i a n h hi =
    slice-append_le (take i xs) (ds ++ drop (i + length ds) xs) a n fits
    ∙ sym (slice-append_le (take i xs) (drop i xs) a n fits)
    ∙ ap (λ ys. slice ys a n) (take-append-drop i xs)
  where
    fits : a + n ≤ length (take i xs)
    fits = omega (arith, length-take i xs)
