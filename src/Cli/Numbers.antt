-- ===== src/Cli/Numbers.antt =====
-- src/cli_parse.c, `cli_parse_syscall_nr`: the argument of `--notify`.
pub mod Decimal
use landlock.Base.{ℕ, ℤ, pos, negsuc, ◌+◌, ◌-◌, ◌*◌, ◌^◌, Bool, true, false, not, ◌&&◌, ◌||◌, ◌==◌}
use landlock.Base.{leb, ltb, is_neg, if◌then◌else◌, Option, none, some, List, [], ◌∷◌}
use landlock.Sys.{M, pure, fail, fail_with, set_errno, ◌>>=◌, ◌>>◌}
use landlock.Sys.Types.{CString}
use landlock.Sys.Errno.{erange}

-- `isspace` in the C locale
abbrev is_space : ℕ → Bool
is_space c = c == 32 || (leb 9 c && leb c 13)

abbrev pub is_digit : ℕ → Bool
is_digit c = leb 48 c && leb c 57

skip_spaces : CString → CString
skip_spaces [] = []
skip_spaces (c ∷ cs) = let rest = skip_spaces cs in if is_space c then rest else c ∷ cs

-- The digits from the front: the value with the digits before them, and what follows.
pub digits_from : ℕ → CString → ℕ × CString
digits_from value [] = (value, [])
digits_from value (c ∷ cs) =
    let next = digits_from (value * 10 + (c - 48)) cs in
    if is_digit c then next else (value, c ∷ cs)

-- What `strtol(s, &end, 10)` yields on Linux: the value, cut to a `long`, the rest of the text where
-- any of it was a number, and whether the value was cut (`ERANGE`).
pub record Strtol : Type 0 where
  pub value : ℤ
  pub end : Option CString
  pub cut : Bool

-- LONG_MAX and INT_MAX
abbrev pub long_max : ℕ
long_max = 0x7fffffffffffffff

abbrev pub int_max : ℕ
int_max = 0x7fffffff

abbrev pub signed : Bool → ℕ × CString → Strtol
signed false (n, rest) =
    if ltb long_max n
    then (record { value = pos long_max; end = some rest; cut = true })
    else (record { value = pos n; end = some rest; cut = false })
signed true (n, rest) =
    if n == 0
    then (record { value = pos 0; end = some rest; cut = false })
    else if ltb (long_max + 1) n
    then (record { value = negsuc long_max; end = some rest; cut = true })
    else (record { value = negsuc (n - 1); end = some rest; cut = false })

no_number : Strtol
no_number = record { value = pos 0; end = none; cut = false }

unsigned_digits : Bool → CString → Strtol
unfolding no_number digits_from
unsigned_digits negative [] = no_number
unsigned_digits negative (c ∷ cs) =
    if is_digit c then signed negative (digits_from 0 (c ∷ cs)) else no_number

after_spaces : CString → Strtol
unfolding unsigned_digits
after_spaces [] = unsigned_digits false []
after_spaces (c ∷ cs) =
    if c == 45
    then unsigned_digits true cs
    else if c == 43
    then unsigned_digits false cs
    else unsigned_digits false (c ∷ cs)

unfoldable pub strtol : CString → Strtol
unfolding after_spaces skip_spaces
strtol s = after_spaces (skip_spaces s)

-- `*end != '\0'`, and `end == s` where there was no number
abbrev ends_early : Option CString → Bool
ends_early none = true
ends_early (some []) = false
ends_early (some (c ∷ cs)) = true

abbrev pub number_of : Strtol → Option ℕ
number_of r =
    if r.cut || ends_early r.end
    then none
    else elim r.value [ negsuc n ↦ none | pos n ↦ if ltb int_max n then none else some n ]

-- The tests of what `strtol` yields.
abbrev pub tested : Strtol → M ℕ
tested r = do
  set_errno (if r.cut then erange else 0)
  elim (number_of r) [ none ↦ fail | some n ↦ pure n ]

-- `cli_parse_syscall_nr`
unfoldable pub parse_syscall_nr : CString → M ℕ
unfolding strtol
parse_syscall_nr s = tested (strtol s)
