-- ===== src/Ruleset/Warning.antt =====
-- `landlock_restrict_self` of src/landlock.c: its failures and its one warning.
use landlock.Base.{ℕ, ℤ, ◌+◌, ◌≤◌, ◌≡◌, arith, List, [], ◌∷◌, if◌then◌else◌}
use landlock.Sys.{World, FailsWith, final, fresh}
use landlock.Sys.Types.{Kernel, Call, Event, fails}
use landlock.Ruleset.{restrict_self}

-- How often the warning was written.
abbrev is_warning : Call → ℕ
is_warning Call.print_e2big = 1
is_warning _ = 0

abbrev pub warnings : List Event → ℕ
warnings [] = 0
warnings ((c, a) ∷ t) = is_warning c + warnings t

-- The flag counts the warnings.
abbrev pub IsCounted : World → Type 0
IsCounted w = warnings w.trace ≡ (if w.e2big_warned then 1 else 0)

restrict_self-IsCounted :
    (fd : ℤ) (flags : ℕ) (k : Kernel) (w : World)
    → IsCounted w
    → IsCounted (final (restrict_self fd flags k w))
unfolding restrict_self
restrict_self-IsCounted fd flags k w h = ground arith

-- Any number of calls of `landlock_restrict_self`, one after another.
abbrev pub restrict_all : List (ℤ × ℕ) → Kernel → World → World
restrict_all [] k w = w
restrict_all ((fd, flags) ∷ calls) k w = restrict_all calls k (final (restrict_self fd flags k w))

restrict_all-IsCounted :
    (calls : List (ℤ × ℕ)) (k : Kernel) (w : World)
    → IsCounted w
    → IsCounted (restrict_all calls k w)
restrict_all-IsCounted [] k w h = h
restrict_all-IsCounted ((fd, flags) ∷ calls) k w h =
    restrict_all-IsCounted calls k _ (restrict_self-IsCounted fd flags k w h)

-- However often a process calls `landlock_restrict_self`, and whatever the kernel answers, the
-- `E2BIG` warning is written at most once.
pub restrict_all_warns_once :
    (calls : List (ℤ × ℕ)) (k : Kernel) → warnings (restrict_all calls k fresh).trace ≤ 1
restrict_all_warns_once calls k = ground (arith, restrict_all-IsCounted calls k fresh (omega arith))

-- Where the kernel refuses `landlock_restrict_self`, the function fails with the kernel's `errno`,
-- also where the warning was written in between and left another one.
restrict_self_fails :
    (fd : ℤ) (k : Kernel) (w : World) {e : ℕ}
    → k w.trace (Call.restrict_self fd 0) ≡ fails e
    → FailsWith e (restrict_self fd 0 k w)
unfolding restrict_self
restrict_self_fails fd k w h = ground arith
