-- ===== src/Broker/Types.antt =====
-- src/landlockd_exec.c: `struct landlockd_broker_allowlist`. Paths are canonical there; the rules have
-- the types of the policy.
use landlock.Base.{none}
use landlock.Memory.{Array}
use landlock.Document.Types.{BindRule, ObjectRule, AddfdRule, PathRules}

pub record Allowlist : Type 0 where
  pub read_paths : PathRules
  pub write_paths : PathRules
  pub scratch_paths : PathRules
  pub export_paths : PathRules
  pub mount_tmpfs_paths : PathRules
  pub mount_bind_rules : Array BindRule
  pub mount_object_rules : Array ObjectRule
  pub addfd_rules : Array AddfdRule

-- The assignments with which the code begins and ends.
abbrev pub no_entries : Allowlist
no_entries = record {
  read_paths = none;
  write_paths = none;
  scratch_paths = none;
  export_paths = none;
  mount_tmpfs_paths = none;
  mount_bind_rules = none;
  mount_object_rules = none;
  addfd_rules = none;
}
