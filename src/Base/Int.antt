-- ===== src/Base/Int.antt =====
-- The `int` of the source: an integer, within the range of 32 bits.
use Prim.Native.Nat.{ℕ, ◌+◌, ◌-◌, ◌^◌}
use mathlib.Core.Bool.{Bool, false}
use calabash.Base.Tests.{◌==◌, ltb, leb, if◌then◌else◌}
use calabash.Base.Flow.{Outcome, ok, fault}

-- `negsuc n` is -(n + 1).
pub data ℤ : Type 0 where
  pos : ℕ → ℤ
  negsuc : ℕ → ℤ

-- a - b, as an integer.
abbrev pub sub_ℕ : ℕ → ℕ → ℤ
sub_ℕ a b = if leb b a then pos (a - b) else negsuc (b - a - 1)

abbrev pub fits_int : ℤ → Bool
fits_int (pos n) = ltb n (2 ^ 31)
fits_int (negsuc n) = ltb n (2 ^ 31)

-- An overflow of signed arithmetic is undefined behaviour.
abbrev pub int : ℤ → Outcome ℤ
int z = if fits_int z then ok z else fault

-- The 32 bits of an `int`.
abbrev pub bits_of : ℤ → ℕ
bits_of (pos n) = n
bits_of (negsuc n) = 2 ^ 32 - 1 - n

-- `std::max(1, z)`.
abbrev pub at_least_one : ℤ → ℕ
at_least_one (pos n) = if leb 1 n then n else 1
at_least_one (negsuc n) = 1

abbrev pub add_ℕ : ℤ → ℕ → ℤ
add_ℕ (pos n) k = pos (n + k)
add_ℕ (negsuc n) k = sub_ℕ k (n + 1)

-- a - z, for a number and an integer.
abbrev pub minus : ℕ → ℤ → ℤ
minus a (pos n) = sub_ℕ a n
minus a (negsuc n) = pos (a + n + 1)

abbrev pub eq_int : ℤ → ℤ → Bool
eq_int (pos m) (pos n) = m == n
eq_int (pos m) (negsuc n) = false
eq_int (negsuc m) (pos n) = false
eq_int (negsuc m) (negsuc n) = m == n
