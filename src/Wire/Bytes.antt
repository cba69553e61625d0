-- ===== src/Wire/Bytes.antt =====
-- src/landlock_policy_loader.c: numbers of a fixed width as the bytes that `memcpy` makes of them, on a
-- machine that is little-endian.
use landlock.Base.{
  ℕ, zero, suc, ◌+◌, ◌*◌, ◌/◌, ◌%◌, ◌^◌, ◌<◌, ◌≡◌, refl, arith, ◌==◌, if◌then◌else◌,
}
use landlock.Base.{Option, none, some, List, [], ◌∷◌, ◌++◌, length}
use native.Mathlib.Nat.{pow-suc}
use landlock.Sys.Types.{CString}

abbrev pub number : List ℕ → ℕ
number [] = 0
number (b ∷ bs) = b + 256 * number bs

abbrev pub bytes_of : ℕ → ℕ → List ℕ
bytes_of zero n = []
bytes_of (suc width) n = (n % 256) ∷ bytes_of width (n / 256)

pub number-bytes_of : (width n : ℕ) → n < 256 ^ width → number (bytes_of width n) ≡ n
number-bytes_of zero n h = omega arith
number-bytes_of (suc width) n h =
    omega (arith, number-bytes_of width (n / 256) (omega (arith, pow-suc 256 width)))

pub length-bytes_of : (width n : ℕ) → length (bytes_of width n) ≡ width
length-bytes_of zero n = refl
length-bytes_of (suc width) n = omega (arith, length-bytes_of width (n / 256))

-- One byte in front of the first part.
abbrev pub longer_by : ℕ → Option (List ℕ × List ℕ) → Option (List ℕ × List ℕ)
longer_by b none = none
longer_by b (some p) = some (b ∷ p.0, p.1)

-- The next `n` bytes and what follows them; `none` is `off + n > len`.
unfoldable pub cut : ℕ → List ℕ → Option (List ℕ × List ℕ)
cut zero bs = some ([], bs)
cut (suc n) [] = none
cut (suc n) (b ∷ bs) = longer_by b (cut n bs)

pub cut-append : (xs ys : List ℕ) → cut (length xs) (xs ++ ys) ≡ some (xs, ys)
unfolding cut
cut-append [] ys = refl
cut-append (x ∷ xs) ys = rw (cut-append xs ys) refl

-- The C string in a block of bytes that a NUL follows.
unfoldable pub text : List ℕ → CString
text [] = []
text (b ∷ bs) = if b == 0 then [] else b ∷ text bs

-- No byte is NUL.
abbrev pub IsText : List ℕ → Type 0
IsText [] = Unit
IsText (b ∷ bs) = (0 < b) × IsText bs

pub text-IsText : (bs : List ℕ) → IsText bs → text bs ≡ bs
unfolding text
text-IsText [] h = refl
text-IsText (b ∷ bs) h = ground (arith, text-IsText bs h.1)
