-- ===== src/Seccomp/Hardening.antt =====
-- src/landlockd_seccomp.c, the fixed denylists of a sandboxed child and of the daemon.
pub mod Laws
use landlock.Base.{ℕ, pos, List, [], ◌∷◌, ◌++◌, Option, none, some, Bool, ◌==◌, if◌then◌else◌}
use landlock.Sys.{M, pure, ◌>>=◌, ◌>>◌}
use landlock.Sys.Errno.{eperm}
use landlock.Privs.{set_no_new_privs}
use landlock.Seccomp.Plan.{Plan, empty, plan_init, plan_add}
use landlock.Seccomp.Filter.{install_denylist}
use landlock.Seccomp.Names.{
  Name, Numbers, mount, umount2, pivot_root, open_tree, move_mount, fsopen, fsconfig, fsmount,
  mount_setattr, ptrace, bpf, perf_event_open, kexec_load, init_module, finit_module, delete_module,
  open_by_handle_at, swapon, swapoff, reboot,
}

abbrev pub mount_names : List Name
mount_names =
    mount ∷ umount2 ∷ pivot_root ∷ open_tree ∷ move_mount ∷ fsopen ∷ fsconfig ∷ fsmount
    ∷ mount_setattr ∷ []

abbrev pub kernel_names : List Name
kernel_names =
    ptrace ∷ bpf ∷ perf_event_open ∷ kexec_load ∷ init_module ∷ finit_module ∷ delete_module
    ∷ open_by_handle_at ∷ []

-- The calls denied to a child; `allow_mount_ops` leaves out the first nine.
abbrev pub child_names : Bool → List Name
child_names allow_mount_ops = if allow_mount_ops then kernel_names else mount_names ++ kernel_names

-- The calls denied to the daemon.
abbrev pub daemon_names : List Name
daemon_names = kernel_names ++ (swapon ∷ swapoff ∷ reboot ∷ [])

-- One `#ifdef SYS_x` block after another, each with its `landlockd_seccomp_plan_add`.
unfoldable pub add_names : Numbers → List Name → Plan → M Plan
add_names num [] p = pure p
add_names num (n ∷ ns) p = elim (num n) [
  | none ↦ add_names num ns p
  | some nr ↦ plan_add (some p) (pos nr) >>= (λ q. add_names num ns q)
]

-- `landlockd_seccomp_add_hardening_syscalls`
unfoldable pub add_hardening_syscalls : Numbers → Plan → Bool → M Plan
add_hardening_syscalls num p allow_mount_ops = add_names num (child_names allow_mount_ops) p

-- `landlockd_seccomp_add_daemon_hardening_syscalls`
unfoldable pub add_daemon_hardening_syscalls : Numbers → Plan → M Plan
add_daemon_hardening_syscalls num p = add_names num daemon_names p

-- The last lines of both functions below.
unfoldable pub deny_planned : Plan → M (Unit {0})
deny_planned p = if p.count == 0 then pure tt else install_denylist (some p) eperm

-- `landlockd_seccomp_apply_broker_hardening`
unfoldable pub apply_broker_hardening : Numbers → Bool → M (Unit {0})
unfolding add_hardening_syscalls deny_planned
apply_broker_hardening num allow_mount_ops = do
  set_no_new_privs
  p ← plan_init (some empty)
  q ← add_hardening_syscalls num p allow_mount_ops
  deny_planned q

-- `landlockd_seccomp_apply_hardening`
unfoldable pub apply_hardening : Numbers → M (Unit {0})
apply_hardening num = apply_broker_hardening num Bool.false

-- `landlockd_seccomp_apply_daemon_hardening`
unfoldable pub apply_daemon_hardening : Numbers → M (Unit {0})
unfolding add_daemon_hardening_syscalls deny_planned
apply_daemon_hardening num = do
  set_no_new_privs
  p ← plan_init (some empty)
  q ← add_daemon_hardening_syscalls num p
  deny_planned q
