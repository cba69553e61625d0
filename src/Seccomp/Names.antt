-- ===== src/Seccomp/Names.antt =====
-- src/landlockd_seccomp.c, the table of system calls that a policy can name. Which calls exist, and
-- under which numbers, is up to the architecture's headers: `Numbers` is a parameter, and `none`
-- stands for a `SYS_` macro that is not defined.
pub mod Laws
use landlock.Base.{ℕ, List, [], ◌∷◌, Option, none, some, Bool, true, false, codes, str_eq}
use landlock.Base.{if◌then◌else◌}
use landlock.Sys.{M, pure, fail_with}
use landlock.Sys.Types.{CString}
use landlock.Sys.Errno.{einval, enoent}

pub data Name : Type 0 where
  getpid getppid openat openat2 mkdirat unlinkat renameat2 symlinkat linkat socket connect : Name
  mount umount2 pivot_root open_tree move_mount fsopen fsconfig fsmount mount_setattr : Name
  unshare setns clone3 ptrace bpf perf_event_open kexec_load init_module finit_module : Name
  delete_module open_by_handle_at swapon swapoff reboot : Name

abbrev pub Numbers : Type 0
Numbers = Name → Option ℕ

unfoldable pub spelling : Name → CString
spelling getpid = codes "getpid"
spelling getppid = codes "getppid"
spelling openat = codes "openat"
spelling openat2 = codes "openat2"
spelling mkdirat = codes "mkdirat"
spelling unlinkat = codes "unlinkat"
spelling renameat2 = codes "renameat2"
spelling symlinkat = codes "symlinkat"
spelling linkat = codes "linkat"
spelling socket = codes "socket"
spelling connect = codes "connect"
spelling mount = codes "mount"
spelling umount2 = codes "umount2"
spelling pivot_root = codes "pivot_root"
spelling open_tree = codes "open_tree"
spelling move_mount = codes "move_mount"
spelling fsopen = codes "fsopen"
spelling fsconfig = codes "fsconfig"
spelling fsmount = codes "fsmount"
spelling mount_setattr = codes "mount_setattr"
spelling unshare = codes "unshare"
spelling setns = codes "setns"
spelling clone3 = codes "clone3"
spelling ptrace = codes "ptrace"
spelling bpf = codes "bpf"
spelling perf_event_open = codes "perf_event_open"
spelling kexec_load = codes "kexec_load"
spelling init_module = codes "init_module"
spelling finit_module = codes "finit_module"
spelling delete_module = codes "delete_module"
spelling open_by_handle_at = codes "open_by_handle_at"
spelling swapon = codes "swapon"
spelling swapoff = codes "swapoff"
spelling reboot = codes "reboot"

-- LANDLOCKD_SECCOMP_NAME_MAP, before the preprocessor drops what is not defined.
abbrev pub name_map : List Name
name_map =
    getpid ∷ getppid ∷ openat ∷ openat2 ∷ mkdirat ∷ unlinkat ∷ renameat2 ∷ symlinkat ∷ linkat
    ∷ socket ∷ connect ∷ mount ∷ umount2 ∷ pivot_root ∷ open_tree ∷ move_mount ∷ fsopen ∷ fsconfig
    ∷ fsmount ∷ mount_setattr ∷ unshare ∷ setns ∷ clone3 ∷ ptrace ∷ bpf ∷ perf_event_open
    ∷ kexec_load ∷ init_module ∷ finit_module ∷ delete_module ∷ open_by_handle_at ∷ swapon ∷ swapoff
    ∷ reboot ∷ []

-- The loop of `landlockd_seccomp_syscall_by_name`; an entry that is not defined is not in the table.
unfoldable pub find_number : Numbers → CString → List Name → Option ℕ
find_number num name [] = none
find_number num name (n ∷ ns) =
    let rest = find_number num name ns in
    elim (num n) [ none ↦ rest | some nr ↦ if str_eq name (spelling n) then some nr else rest ]

or_enoent : Option ℕ → M ℕ
or_enoent none = fail_with enoent
or_enoent (some nr) = pure nr

-- `landlockd_seccomp_syscall_by_name`; the second argument says whether `out_nr` is not NULL, and the
-- value is what is stored there.
unfoldable pub syscall_by_name : Numbers → Option CString → Bool → M ℕ
unfolding or_enoent find_number
syscall_by_name num none out = fail_with einval
syscall_by_name num (some []) out = fail_with einval
syscall_by_name num (some (c ∷ cs)) false = fail_with einval
syscall_by_name num (some (c ∷ cs)) true = or_enoent (find_number num (c ∷ cs) name_map)
