-- ===== src/Common/Int.antt =====
-- Signed integers, as far as the program uses them: tests of the sign, and a sum with a time.
use Prim.Native.Nat.{ℕ, zero, suc, ◌+◌, ◌-◌}
use mathlib.Core.Bool.{Bool, true, false}
use jobsd.Common.Tests.{ltb, ◌==◌}

-- `negsuc n` is -(n + 1).
pub data ℤ : Type 0 where
  pos : ℕ → ℤ
  negsuc : ℕ → ℤ

abbrev pub is_negative : ℤ → Bool
is_negative (pos n) = false
is_negative (negsuc n) = true

abbrev pub is_zero : ℤ → Bool
is_zero (pos zero) = true
is_zero (pos (suc n)) = false
is_zero (negsuc n) = false

abbrev pub same_int : ℤ → ℤ → Bool
same_int (pos m) (pos n) = m == n
same_int (pos m) (negsuc n) = false
same_int (negsuc m) (pos n) = false
same_int (negsuc m) (negsuc n) = m == n

abbrev pub int_below : ℤ → ℤ → Bool
int_below (pos m) (pos n) = ltb m n
int_below (pos m) (negsuc n) = false
int_below (negsuc m) (pos n) = true
int_below (negsuc m) (negsuc n) = ltb n m

-- `z <= 0`
abbrev pub is_nonpositive : ℤ → Bool
is_nonpositive (pos zero) = true
is_nonpositive (pos (suc n)) = false
is_nonpositive (negsuc n) = true

-- The value of a number that is not negative.
abbrev pub pos_part : ℤ → ℕ
pos_part (pos n) = n
pos_part (negsuc n) = 0

-- A time moved by a signed duration; it stops at the zero time.
abbrev pub add_signed : ℕ → ℤ → ℕ
add_signed t (pos n) = t + n
add_signed t (negsuc n) = t - suc n
