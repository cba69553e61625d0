-- ===== src/Seccomp/Plan.antt =====
-- src/landlockd_seccomp.c, the plan: at most 32 system call numbers in a fixed array.
pub mod Laws
use landlock.Base.{ℕ, ℤ, pos, negsuc, suc, ◌≤◌, ◌<◌, ◌^◌, ◌≡◌, leb, if◌then◌else◌}
use landlock.Base.{List, Option, none, some, length, replicate, take, set, All}
use landlock.Sys.{M, pure, fail_with}
use landlock.Sys.Errno.{einval, enospc}

-- LANDLOCKD_SECCOMP_MAX_EXCEPTIONS
abbrev pub max_exceptions : ℕ
max_exceptions = 32

-- `struct landlockd_seccomp_plan`. `count` starts at 0 and is only incremented, and a slot holds 0
-- or a number that `plan_add` took, so neither is ever negative.
pub record Plan : Type 0 where
  pub syscall_nrs : List ℕ
  pub count : ℕ

abbrev pub empty : Plan
empty = record { syscall_nrs = replicate max_exceptions 0; count = 0 }

-- The argument is a pointer: `none` is NULL.
unfoldable pub plan_init : Option Plan → M Plan
plan_init none = fail_with einval
plan_init (some p) = pure empty

unfoldable pub plan_add : Option Plan → ℤ → M Plan
plan_add none nr = fail_with einval
plan_add (some p) (negsuc n) = fail_with einval
plan_add (some p) (pos nr) =
    if leb max_exceptions p.count
    then fail_with enospc
    else pure (record { syscall_nrs = set p.syscall_nrs p.count nr; count = suc p.count })

-- The numbers in use, in the order in which they were added.
abbrev pub entries : Plan → List ℕ
entries p = take p.count p.syscall_nrs

-- What `plan_init` sets up and `plan_add` keeps; the numbers are those of a 32-bit `int`.
pub record IsPlan (p : Plan) : Type 0 where
  pub slots : length p.syscall_nrs ≡ max_exceptions
  pub within : p.count ≤ max_exceptions
  pub numbers : All (λ nr. nr < 2 ^ 31) (entries p)
