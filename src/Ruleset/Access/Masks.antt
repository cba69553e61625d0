-- ===== src/Ruleset/Access/Masks.antt =====
-- Which rights a kernel is asked for.
use landlock.Base.{
  ℕ, ℤ, pos, zero, suc, ◌≤◌, ◌<◌, ◌^◌, ◌≡◌, refl, arith, if◌then◌else◌, bit_and, leb,
}
use Prim.Native.Nat.{min}
use landlock.Base.{◌∙◌, Bool, true, false, ◌&&◌, ◌==◌, ==_iff, Bool-cases, inl, inr}
use landlock.Base.Bits.{bit, bit-bit_and, bit-zero, bit_le_one, bit_of_lt_pow}
use landlock.Ruleset.{at_least}
use landlock.Ruleset.Access.{fs_access_mask_for_abi, net_access_mask_for_abi}

-- The ABI version that introduced the file system right of each bit, 0 to 15.
abbrev pub since : ℕ → ℕ
since i = if leb i 12 then 1 else if leb i 13 then 2 else if leb i 14 then 3 else 5

-- Whether the Landlock of an ABI version has the file system right, or the network right, of a bit.
abbrev pub knows_fs : ℤ → ℕ → Bool
knows_fs abi i = leb i 15 && at_least (since i) abi

abbrev pub knows_net : ℤ → ℕ → Bool
knows_net abi i = leb i 1 && at_least 4 abi

abbrev flag : Bool → ℕ
flag b = if b then 1 else 0

-- The test holds for every bit under the given one.
passes_under : (ℕ → Bool) → ℕ → Bool
passes_under test zero = true
passes_under test (suc top) = passes_under test top && test top

passes_at : (test : ℕ → Bool) (top i : ℕ) → passes_under test top ≡ true → i < top → test i ≡ true
unfolding passes_under
passes_at test (suc top) i h under = elim (Bool-cases (i == top)) [
  | inl at_top ↦ ground arith
  | inr below ↦ passes_at test top i (ground arith) (ground arith)
]
passes_at test zero i h under = absurd (omega arith)

agree_below : ℕ → (ℕ → Bool) → Bool
unfolding passes_under
agree_below mask known = passes_under (λ i. bit i mask == flag (known i)) 16

bit_of_table :
    (mask i : ℕ) (known : ℕ → Bool)
    → mask < 2 ^ 16
    → agree_below mask known ≡ true
    → known i ≡ (leb i 15 && known i)
    → bit i mask ≡ flag (known i)
unfolding agree_below
bit_of_table mask i known small table bounded = elim (Bool-cases (leb i 15)) [
  | inl low ↦
      (==_iff (bit i mask) (flag (known i))).0
        (passes_at (λ j. bit j mask == flag (known j)) 16 i table (ground arith))
  | inr high ↦ rw (bit_of_lt_pow i 16 mask small (ground arith)) (ground arith)
]

fs_mask-bit :
    (abi : ℕ) (i : ℕ)
    → bit i (fs_access_mask_for_abi (pos (suc abi))) ≡ flag (knows_fs (pos (suc abi)) i)
unfolding fs_access_mask_for_abi agree_below
fs_mask-bit zero i = bit_of_table 0x1fff i (knows_fs (pos 1)) (omega arith) refl (ground arith)
fs_mask-bit (suc zero) i =
    bit_of_table 0x3fff i (knows_fs (pos 2)) (omega arith) refl (ground arith)
fs_mask-bit (suc (suc zero)) i =
    bit_of_table 0x7fff i (knows_fs (pos 3)) (omega arith) refl (ground arith)
fs_mask-bit (suc (suc (suc zero))) i =
    bit_of_table 0x7fff i (knows_fs (pos 4)) (omega arith) refl (ground arith)
fs_mask-bit (suc (suc (suc (suc abi)))) i =
    let newest_mask : fs_access_mask_for_abi (pos (suc (suc (suc (suc (suc abi)))))) ≡ 0xffff =
      ground arith in
    rw newest_mask
      (bit_of_table 0xffff i (λ j. leb j 15) (omega arith) refl (ground arith) ∙ ground arith)

net_mask-bit :
    (abi i : ℕ) → bit i (net_access_mask_for_abi (pos abi)) ≡ flag (knows_net (pos abi) i)
unfolding net_access_mask_for_abi agree_below
net_mask-bit abi i = elim (Bool-cases (leb 4 abi)) [
  | inl new ↦
      rw (new, net_access_mask_for_abi)
        (bit_of_table 3 i (λ j. leb j 1) (omega arith) refl (ground arith) ∙ ground arith)
  | inr old ↦ rw (old, net_access_mask_for_abi) (bit-zero i ∙ ground arith)
]

min-flag : (known : Bool) (b : ℕ) → b ≤ 1 → min b (flag known) ≡ (if known then b else 0)
min-flag true b h = omega arith
min-flag false b h = omega arith

-- The rights that an ABI version knows are those of bit 0 to 12 from version 1 on, bit 13 from 2,
-- bit 14 from 3 and bit 15 from 5: cut down to them, a mask keeps exactly its known bits.
pub fs_rights :
    (abi requested i : ℕ)
    → bit i (bit_and requested (fs_access_mask_for_abi (pos (suc abi))))
      ≡ (if knows_fs (pos (suc abi)) i then bit i requested else 0)
fs_rights abi requested i =
    bit-bit_and i requested _
    ∙ rw (fs_mask-bit abi i)
        (min-flag (knows_fs (pos (suc abi)) i) (bit i requested) (bit_le_one i requested))

-- The same of the two network rights, both known from version 4 on.
pub net_rights :
    (abi requested i : ℕ)
    → bit i (bit_and requested (net_access_mask_for_abi (pos abi)))
      ≡ (if knows_net (pos abi) i then bit i requested else 0)
net_rights abi requested i =
    bit-bit_and i requested _
    ∙ rw (net_mask-bit abi i)
        (min-flag (knows_net (pos abi) i) (bit i requested) (bit_le_one i requested))
