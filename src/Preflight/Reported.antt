-- ===== src/Preflight/Reported.antt =====
-- What the reports say of the kernel.
use landlock.Base.{ℕ, ℤ, pos, negsuc, ◌≤◌, ◌≡◌, inl, inr, arith, true, false, ◌||◌}
use landlock.Base.{◌==◌, if◌then◌else◌, Option, none, some}
use landlock.Sys.{World, Outcome, done, failed, call}
use landlock.Sys.Types.{Kernel, Call}
use landlock.Sys.Laws.{Answer-cases}
use landlock.Sys.Errno.{einval, enosys, eopnotsupp}
use landlock.Ruleset.{probe_abi, abi_version, at_least}
use landlock.Preflight.{
  Report, Probed, preflight_run, probe_seccomp_user_notif, seccomp_ret_user_notif,
}

-- A report beside what `landlock_abi_version` returns.
abbrev pub Agrees : ℕ → World → Outcome ℤ → Outcome Probed → Type 0
Agrees floor w (done abi v) (done p u) = elim p.succeeded [
  | true ↦
      (p.out.abi_version ≡ abi)
      × (p.out.meets_abi_floor ≡ at_least floor abi)
      × (p.out.stacking_supported ≡ at_least 1 abi)
      × (u.errno ≡ w.errno)
  | false ↦ (abi ≡ negsuc 0) × (u.errno ≡ v.errno)
]
Agrees floor w _ _ = ⊥

-- A preflight with a floor of 1 or more reports the version that `landlock_abi_version` returns and
-- whether it reaches the floor, and keeps `errno`; it fails only where that function returns -1, with
-- the same `errno`.
pub preflight_run-abi_version :
    (floor : ℕ) (out : Report) (k : Kernel) (w : World)
    → 1 ≤ floor
    → Agrees floor w (abi_version k w) (preflight_run (pos floor) (some out) k w)
unfolding preflight_run abi_version probe_abi
preflight_run-abi_version floor out k w low =
    elim (Answer-cases (k w.trace (Call.create_ruleset none 0 1))) [
      | inl (v, e, h) ↦ ground arith
      | inr (e, h) ↦ ground arith
    ]

-- The kernel knows the action `SECCOMP_RET_USER_NOTIF`; it says that it knows no such action; or the
-- question failed otherwise.
pub data Verdict : Type 0 where
  known : Verdict
  unknown : (errno : ℕ) → Verdict
  unclear : (errno : ℕ) → Verdict

abbrev pub verdict_of : Option ℕ → ℕ → Verdict
verdict_of (some v) e = known
verdict_of none e = if e == enosys || e == eopnotsupp || e == einval then unknown e else unclear e

-- The report of a verdict.
abbrev pub Reports : Verdict → World → Outcome Probed → Type 0
Reports known w (done p u) =
    (p.succeeded ≡ true)
    × (p.out.seccomp_user_notif_supported ≡ true)
    × (p.out.seccomp_probe_errno ≡ 0)
    × (u.errno ≡ w.errno)
Reports (unknown e) w (done p u) =
    (p.succeeded ≡ true)
    × (p.out.seccomp_user_notif_supported ≡ false)
    × (p.out.seccomp_probe_errno ≡ e)
    × (u.errno ≡ w.errno)
Reports (unclear e) w (done p u) =
    (p.succeeded ≡ false) × (p.out.seccomp_user_notif_supported ≡ false) × (u.errno ≡ e)
Reports _ w (failed u) = ⊥

-- The outcome of the question itself, from the same world.
abbrev pub asked : Kernel → World → Verdict
asked k w = elim (call (Call.get_action_avail seccomp_ret_user_notif) k w) [
  | done v u ↦ verdict_of (some v) u.errno
  | failed u ↦ verdict_of none u.errno
]

-- The seccomp probe reports support exactly where the kernel knows the action, and no support with the
-- `errno` where the kernel does not know the call or the action; both keep `errno`. Any other error
-- of the call is a failure with that `errno`. A report made before does not show through.
probe_seccomp_user_notif-Reports :
    (out : Report) (k : Kernel) (w : World)
    → Reports (asked k w) w (probe_seccomp_user_notif (some out) k w)
unfolding probe_seccomp_user_notif
probe_seccomp_user_notif-Reports out k w =
    elim (Answer-cases (k w.trace (Call.get_action_avail seccomp_ret_user_notif))) [
      | inl (v, e, h) ↦ ground arith
      | inr (e, h) ↦ ground arith
    ]
