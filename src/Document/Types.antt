-- ===== src/Document/Types.antt =====
-- src/landlock_policy_ir.h: the structures. A rule with the one field `path` is that field; a file
-- system, network or seccomp rule has the fields that it has in Ir.antt.
use landlock.Base.{ℕ, Bool, false, Option, none}
use landlock.Sys.Types.{CString}
use landlock.Memory.{Array}
use landlock.Ir.{FsRule, NetRule, ExceptionRule}

pub record DocumentLayer : Type 0 where
  pub handled_access_fs : ℕ
  pub rules : Array FsRule

pub record BindRule : Type 0 where
  pub source : Option CString
  pub target : Option CString
  pub read_only : Bool

pub record ObjectRule : Type 0 where
  pub name : Option CString
  pub fs_type : Option CString
  pub allowed_attr_set : ℕ
  pub attach_paths : Array (Option CString)

pub record AddfdRule : Type 0 where
  pub action : Option CString
  pub target : Option CString
  pub mode : Option CString

abbrev pub PathRules : Type 0
PathRules = Array (Option CString)

-- `struct landlockd_policy_ir`
pub record Document : Type 0 where
  pub fs_layers : Array DocumentLayer
  pub net_enabled : Bool
  pub net_handled_access : ℕ
  pub net_rules : Array NetRule
  pub broker_open_read_rules : PathRules
  pub broker_open_write_rules : PathRules
  pub broker_scratch_rules : PathRules
  pub broker_export_rules : PathRules
  pub broker_mount_tmpfs_rules : PathRules
  pub broker_mount_bind_rules : Array BindRule
  pub broker_mount_object_rules : Array ObjectRule
  pub broker_addfd_rules : Array AddfdRule
  pub mount_tmpfs_rules : PathRules
  pub mount_bind_rules : Array BindRule
  pub mount_proc_rules : PathRules
  pub runtime_root : Option CString
  pub runtime_cwd : Option CString
  pub seccomp_enabled : Bool
  pub seccomp_errno : ℕ
  pub seccomp_deny_rules : Array ExceptionRule

-- `landlockd_policy_ir_init`, and what `landlockd_policy_ir_reset` leaves.
abbrev pub blank_document : Document
blank_document = record {
  fs_layers = none;
  net_enabled = false;
  net_handled_access = 0;
  net_rules = none;
  broker_open_read_rules = none;
  broker_open_write_rules = none;
  broker_scratch_rules = none;
  broker_export_rules = none;
  broker_mount_tmpfs_rules = none;
  broker_mount_bind_rules = none;
  broker_mount_object_rules = none;
  broker_addfd_rules = none;
  mount_tmpfs_rules = none;
  mount_bind_rules = none;
  mount_proc_rules = none;
  runtime_root = none;
  runtime_cwd = none;
  seccomp_enabled = false;
  seccomp_errno = 0;
  seccomp_deny_rules = none;
}
