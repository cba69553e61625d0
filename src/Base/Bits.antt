-- ===== src/Base/Bits.antt =====
-- The binary digits of a mask, and what `bit_and` does to each of them.
use Prim.Native.Nat.{
  ℕ, zero, suc, ◌+◌, ◌*◌, ◌/◌, ◌%◌, ◌≤◌, ◌<◌, ◌^◌, min, bit_and, digits, bit_and-bitwise,
}
use mathlib.Core.Path.{◌≡◌, refl, ◌∙◌, ap}
use native.Mathlib.Omega.{arith}
use native.Mathlib.Nat.{pow-suc}

-- The `i`-th bit of a mask.
abbrev pub bit : ℕ → ℕ → ℕ
bit zero n = n % 2
bit (suc i) n = bit i (n / 2)

pub bit-zero : (i : ℕ) → bit i 0 ≡ 0
bit-zero zero = refl
bit-zero (suc i) = bit-zero i

pub bit_le_one : (i n : ℕ) → bit i n ≤ 1
bit_le_one zero n = omega arith
bit_le_one (suc i) n = bit_le_one i (n / 2)

-- A number below `2 ^ m` has no bit from `m` on.
pub bit_of_lt_pow : (i m n : ℕ) → n < 2 ^ m → m ≤ i → bit i n ≡ 0
bit_of_lt_pow zero zero n h le = omega arith
bit_of_lt_pow zero (suc m) n h le = absurd (omega arith)
bit_of_lt_pow (suc i) zero n h le =
    let zero_half : n / 2 ≡ 0 = omega arith in rw zero_half (bit-zero i)
bit_of_lt_pow (suc i) (suc m) n h le =
    bit_of_lt_pow i m (n / 2) (omega (arith, pow-suc 2 m)) (omega arith)

-- One digit of the recursion that `bit_and` stands for, with any fuel from `left` on.
bit-conjunction :
    (i fuel left right : ℕ)
    → left ≤ fuel
    → bit i (digits (λ _. zero) min fuel left right) ≡ min (bit i left) (bit i right)
bit-conjunction i zero zero right enough = rw (bit-zero i) (omega arith)
bit-conjunction i zero (suc left) right enough = absurd (omega arith)
bit-conjunction i (suc fuel) zero right enough = rw (bit-zero i) (omega arith)
bit-conjunction zero (suc fuel) (suc left) right enough = omega arith
bit-conjunction (suc i) (suc fuel) (suc left) right enough =
    let above : ℕ = digits (λ _. zero) min fuel (suc left / 2) (right / 2) in
    let halved : (above * 2 + min (suc left % 2) (right % 2)) / 2 ≡ above = omega arith in
    rw halved (bit-conjunction i fuel (suc left / 2) (right / 2) (omega arith))

-- A conjunction has the bits that both masks have.
pub bit-bit_and : (i a b : ℕ) → bit i (bit_and a b) ≡ min (bit i a) (bit i b)
bit-bit_and i a b = ap (bit i) (bit_and-bitwise a b) ∙ bit-conjunction i a a b (omega arith)
