-- ===== src/Sandbox.antt =====
-- src/landlock_sandbox.c, src/landlock_sandbox_seccomp.c and src/landlock_restrict_self_require_nnp.c:
-- the order in which a process gives up its rights.
pub mod Order
pub mod Listener
use landlock.Base.{
  ℕ, ℤ, negsuc, is_neg, Bool, true, false, ◌&&◌, not, Option, none, some, ◌==◌, ltb,
}
use landlock.Base.{if◌then◌else◌}
use landlock.Sys.{M, pure, fail, fail_with, get_errno, set_errno, attempt, call, ◌>>=◌, ◌>>◌}
use landlock.Sys.Types.{Call}
use landlock.Sys.Errno.{ebadf, einval, eperm}
use landlock.Privs.{set_no_new_privs}
use landlock.Ruleset.{restrict_self}
use landlock.Seccomp.Plan.{Plan}
use landlock.Seccomp.Filter.{install}

-- `landlock_restrict_self_with_no_new_privs`
unfoldable pub restrict_self_with_no_new_privs : ℤ → ℕ → M (Unit {0})
restrict_self_with_no_new_privs fd flags =
    if flags == 0 then set_no_new_privs >> restrict_self fd flags else fail_with einval

-- `landlockd_apply_sandbox`
unfoldable pub apply_sandbox : ℤ → ℕ → M (Unit {0})
unfolding restrict_self_with_no_new_privs
apply_sandbox fd flags =
    if is_neg fd then fail_with ebadf else restrict_self_with_no_new_privs fd flags

require_nnp : ℤ → ℕ → ℕ → ℕ → M (Unit {0})
require_nnp fd flags saved_errno rc =
    if rc == 0 then fail_with eperm else set_errno saved_errno >> restrict_self fd flags

-- `landlockd_restrict_self_require_nnp`
unfoldable pub restrict_self_require_nnp : ℤ → ℕ → M (Unit {0})
unfolding require_nnp
restrict_self_require_nnp fd flags =
    if flags == 0
    then (do
      saved_errno ← get_errno
      rc ← call Call.get_no_new_privs
      require_nnp fd flags saved_errno rc)
    else fail_with einval

-- What `landlockd_apply_sandbox_with_seccomp` leaves: whether it returned 0, and the content of
-- `*listener_fd_out`, which is `none` where the pointer is NULL.
pub record Applied : Type 0 where
  pub succeeded : Bool
  pub listener : Option ℤ

-- A write through the pointer, if it is not NULL.
abbrev pub store : Option ℤ → ℤ → Option ℤ
store none v = none
store (some old) v = some v

abbrev pub is_null : Option ℤ → Bool
is_null none = true
is_null (some old) = false

-- `plan != NULL && plan->count > 0`
abbrev pub has_entries : Option Plan → Bool
has_entries none = false
has_entries (some p) = ltb 0 p.count

abbrev gave_up : Option ℤ → M Applied
gave_up out = pure (record { succeeded = false; listener = out })

-- After the restriction, successful or not; `fd` is the listener, or -1.
confined : ℤ → Option ℤ → Option (Unit {0}) → M Applied
confined fd out (some restricted) = pure (record { succeeded = true; listener = out })
confined fd out none = if is_neg fd then gave_up out else (do
  saved_errno ← get_errno
  closed ← attempt (call (Call.close fd))
  set_errno saved_errno
  gave_up (store out (negsuc 0)))

confine : ℤ → ℤ → Option ℤ → M Applied
confine ruleset_fd fd out = attempt (apply_sandbox ruleset_fd 0) >>= confined fd out

-- After the installation of the filter.
installed : ℤ → Option ℤ → Option ℤ → M Applied
installed ruleset_fd out none = gave_up out
installed ruleset_fd out (some fd) =
    if is_neg fd then gave_up out else confine ruleset_fd fd (store out fd)

-- After `landlockd_set_no_new_privs`.
unprivileged : ℤ → Option Plan → Option ℤ → Option (Unit {0}) → M Applied
unfolding confine installed
unprivileged ruleset_fd plan out none = gave_up out
unprivileged ruleset_fd plan out (some done_it) =
    if has_entries plan
    then attempt (install plan) >>= installed ruleset_fd out
    else confine ruleset_fd (negsuc 0) out

-- `landlockd_apply_sandbox_with_seccomp`
unfoldable pub apply_sandbox_with_seccomp : ℤ → Option Plan → Option ℤ → M Applied
unfolding unprivileged confined
apply_sandbox_with_seccomp ruleset_fd plan out =
    let cleared = store out (negsuc 0) in
    if is_neg ruleset_fd
    then set_errno ebadf >> gave_up out
    else if has_entries plan && is_null out
    then set_errno einval >> gave_up cleared
    else attempt set_no_new_privs >>= unprivileged ruleset_fd plan cleared
