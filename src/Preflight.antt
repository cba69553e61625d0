-- ===== src/Preflight.antt =====
-- src/landlockd_preflight.c, src/landlockd_preflight_seccomp.c and src/seccomp_notify_probe.c: what
-- the kernel offers.
pub mod Reported
use landlock.Base.{
  ℕ, ℤ, pos, negsuc, Bool, true, false, ◌||◌, ◌==◌, if◌then◌else◌, Option, none, some,
}
use landlock.Sys.{M, pure, fail, fail_with, get_errno, set_errno, attempt, call, ◌>>=◌, ◌>>◌}
use landlock.Sys.Types.{Call}
use landlock.Sys.Errno.{einval, enosys, eopnotsupp}
use landlock.Ruleset.{probe_abi, at_least}

-- LANDLOCKD_PREFLIGHT_STACKING_MIN_ABI and SECCOMP_RET_USER_NOTIF
abbrev stacking_min_abi : ℕ
stacking_min_abi = 1

abbrev pub seccomp_ret_user_notif : ℕ
seccomp_ret_user_notif = 0x7fc00000

-- `struct landlockd_preflight_report`; an `int` that is 0 or 1 is a `Bool`.
pub record Report : Type 0 where
  pub abi_version : ℤ
  pub required_abi_floor : ℤ
  pub meets_abi_floor : Bool
  pub stacking_supported : Bool
  pub probe_errno : ℕ
  pub seccomp_user_notif_supported : Bool
  pub seccomp_probe_errno : ℕ

-- What is left in `*out`, and whether the function returned 0.
pub record Probed : Type 0 where
  pub succeeded : Bool
  pub out : Report

-- The report after `memset` and the assignment of the floor.
abbrev pub blank : ℕ → Report
blank floor = record {
  abi_version = pos 0;
  required_abi_floor = pos floor;
  meets_abi_floor = false;
  stacking_supported = false;
  probe_errno = 0;
  seccomp_user_notif_supported = false;
  seccomp_probe_errno = 0;
}

-- After the probe of the ABI, with the `errno` that it left.
abbrev pub probed_abi : ℕ → ℕ → ℕ → Option ℤ → M Probed
probed_abi floor saved_errno probe_errno none =
    if probe_errno == enosys || probe_errno == eopnotsupp
    then (do
      set_errno saved_errno
      pure (record { succeeded = true; out = record (blank floor) { probe_errno = probe_errno } }))
    else (do set_errno probe_errno; pure (record { succeeded = false; out = blank floor }))
probed_abi floor saved_errno probe_errno (some abi_version) = do
  set_errno saved_errno
  pure (record {
    succeeded = true;
    out = record (blank floor) {
      abi_version = abi_version;
      meets_abi_floor = at_least floor abi_version;
      stacking_supported = at_least stacking_min_abi abi_version;
    };
  })

-- `landlockd_preflight_run`: `none` is NULL, and a failure in the tests of the arguments leaves
-- `*out` alone.
unfoldable pub preflight_run : ℤ → Option Report → M Probed
preflight_run required_abi_floor none = fail_with einval
preflight_run (negsuc n) (some out) =
    set_errno einval >> pure (record { succeeded = false; out = out })
preflight_run (pos floor) (some out) = do
  saved_errno ← get_errno
  set_errno 0
  probed ← attempt (probe_abi true)
  probe_errno ← get_errno
  probed_abi floor saved_errno probe_errno probed

-- After the call that asks for the action.
abbrev pub probed_action : Report → ℕ → ℕ → Option ℕ → M Probed
probed_action out saved_errno probe_errno none =
    if probe_errno == enosys || probe_errno == eopnotsupp || probe_errno == einval
    then (do
      set_errno saved_errno
      pure (record { succeeded = true; out = record out { seccomp_probe_errno = probe_errno } }))
    else (do set_errno probe_errno; pure (record { succeeded = false; out = out }))
probed_action out saved_errno probe_errno (some available) = do
  set_errno saved_errno
  pure (record { succeeded = true; out = record out { seccomp_user_notif_supported = true } })

abbrev pub no_seccomp : Report → Report
no_seccomp out = record out { seccomp_user_notif_supported = false; seccomp_probe_errno = 0 }

-- `landlockd_preflight_probe_seccomp_user_notif`
unfoldable pub probe_seccomp_user_notif : Option Report → M Probed
probe_seccomp_user_notif none = fail_with einval
probe_seccomp_user_notif (some out) = do
  saved_errno ← get_errno
  set_errno 0
  probed ← attempt (call (Call.get_action_avail seccomp_ret_user_notif))
  probe_errno ← get_errno
  probed_action (no_seccomp out) saved_errno probe_errno probed

-- After the call that asks for the sizes; an old kernel answers `EINVAL`.
abbrev pub probed_sizes : ℕ → Option ℕ → M (Unit {0})
probed_sizes saved_errno none = do
  errno ← get_errno
  if errno == einval then fail_with enosys else fail
probed_sizes saved_errno (some sizes) = set_errno saved_errno

-- `landlockd_seccomp_probe_user_notif`
unfoldable pub probe_user_notif : M (Unit {0})
probe_user_notif = do
  saved_errno ← get_errno
  probed ← attempt (call Call.get_notif_sizes)
  probed_sizes saved_errno probed

-- `struct landlockd_seccomp_notif_sizes`
pub record NotifSizes : Type 0 where
  pub seccomp_notif : ℕ
  pub seccomp_notif_resp : ℕ
  pub seccomp_data : ℕ

-- `landlockd_seccomp_probe_notif_sizes`, of what the kernel writes to `sizes` when it succeeds.
unfoldable pub probe_notif_sizes : NotifSizes → Option NotifSizes → M NotifSizes
probe_notif_sizes sizes none = fail_with einval
probe_notif_sizes sizes (some out) = do
  saved_errno ← get_errno
  probed ← call Call.get_notif_sizes
  set_errno saved_errno
  pure sizes
