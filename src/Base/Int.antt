-- ===== src/Base/Int.antt =====
-- C's signed numbers: `negsuc n` is -(n + 1). `int_of_long` is the conversion of a non-negative
-- `long` to a 32-bit `int`, which keeps the low 32 bits and reads them as a signed number.
use Prim.Native.Nat.{ℕ, ◌-◌, ◌%◌, ◌^◌, ◌<◌}
use mathlib.Core.Path.{◌≡◌}
use mathlib.Core.Bool.{Bool, true, false}
use native.Mathlib.Omega.{arith}
use landlock.Base.Tests.{ltb, ◌==◌, if◌then◌else◌}

pub data ℤ : Type 0 where
  pos : ℕ → ℤ
  negsuc : ℕ → ℤ

abbrev pub is_neg : ℤ → Bool
is_neg (pos n) = false
is_neg (negsuc n) = true

abbrev pub is_zero : ℤ → Bool
is_zero (pos n) = n == 0
is_zero (negsuc n) = false

unfoldable pub int_of_long : ℕ → ℤ
int_of_long n =
    let low = n % 2 ^ 32 in if ltb low (2 ^ 31) then pos low else negsuc (2 ^ 32 - 1 - low)

pub int_of_long_small : (n : ℕ) → n < 2 ^ 31 → int_of_long n ≡ pos n
unfolding int_of_long
int_of_long_small n h = ground arith
