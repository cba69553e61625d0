-- ===== src/Cli/Numbers/Decimal.antt =====
-- Which numbers `--notify` takes.
use landlock.Base.{ℕ, ◌+◌, ◌*◌, ◌-◌, ◌<◌, ◌≡◌, refl, arith, true, false}
use landlock.Base.{List, [], ◌∷◌, All, if◌then◌else◌, leb, ltb}
use landlock.Sys.{World, Outcome, done, failed}
use landlock.Sys.Errno.{erange}
use landlock.Sys.Types.{CString, Kernel}
use landlock.Cli.Numbers.{
  digits_from, is_digit, strtol, parse_syscall_nr, int_max, long_max, signed, tested,
}

-- The value of a text of digits, most significant first, after the digits with the value `before`.
abbrev pub decimal : ℕ → List ℕ → ℕ
decimal before [] = before
decimal before (d ∷ ds) = decimal (before * 10 + d) ds

-- The text of these digits.
abbrev pub text : List ℕ → CString
text [] = []
text (d ∷ ds) = (48 + d) ∷ text ds

digits_from-text :
    (ds : List ℕ) (before : ℕ)
    → All (λ d. d < 10) ds
    → digits_from before (text ds) ≡ (decimal before ds, [])
unfolding digits_from
digits_from-text [] before h = refl
digits_from-text (d ∷ ds) before h =
    let digit : is_digit (48 + d) ≡ true = ground arith in
    let value : 48 + d - 48 ≡ d = omega arith in
    rw (digit, value, if◌then◌else◌) (digits_from-text ds (before * 10 + d) h.1)

-- The result for the digits, as `strtol` and the tests after it leave it.
abbrev pub judged : ℕ → World → Outcome ℕ
judged n w =
    if leb n int_max
    then done n (record w { errno = 0 })
    else failed (record w { errno = if ltb long_max n then erange else 0 })

strtol-text :
    (d : ℕ) (ds : List ℕ)
    → d < 10
    → strtol (text (d ∷ ds)) ≡ signed false (digits_from 0 (text (d ∷ ds)))
unfolding strtol
strtol-text d ds h = ground arith

answered-judged : (n : ℕ) (k : Kernel) (w : World) → tested (signed false (n, [])) k w ≡ judged n w
answered-judged n k w = ground arith

-- A text of one or more decimal digits is taken as the number that it is written for, leading zeros
-- or not, exactly where that number fits an `int`; a larger one is refused, however large it is.
pub parse_syscall_nr-text :
    (d : ℕ) (ds : List ℕ) (k : Kernel) (w : World)
    → All (λ i. i < 10) (d ∷ ds)
    → parse_syscall_nr (text (d ∷ ds)) k w ≡ judged (decimal 0 (d ∷ ds)) w
unfolding parse_syscall_nr
parse_syscall_nr-text d ds k w h =
    rw (strtol-text d ds h.0, digits_from-text (d ∷ ds) 0 h)
      (answered-judged (decimal 0 (d ∷ ds)) k w)
