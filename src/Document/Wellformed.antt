-- ===== src/Document/Wellformed.antt =====
-- What the functions of src/landlock_policy_ir.c keep of a document, and the blocks that it holds.
use landlock.Base.{ℕ, ◌+◌, ◌<◌, ◌≡◌, refl, Bool, true, false, Option, none, some, [], ◌∷◌, is_neg}
use landlock.Sys.Types.{CString}
use landlock.Memory.{Array}
use landlock.Memory.Account.{string_blocks, array_blocks, no_blocks, IsArray, IsFilled, Anything}
use landlock.Ir.{FsRule, NetRule, ExceptionRule}
use landlock.Document.Types.{
  Document, DocumentLayer, BindRule, ObjectRule, AddfdRule, PathRules, blank_document,
}

-- A string that is neither NULL nor empty.
abbrev pub IsNamed : Option CString → Type 0
IsNamed none = ⊥
IsNamed (some []) = ⊥
IsNamed (some (c ∷ cs)) = Unit

-- One that may be NULL, but not empty.
abbrev pub IsMode : Option CString → Type 0
IsMode none = Unit
IsMode (some s) = IsNamed (some s)

abbrev pub IsString : Option CString → Type 0
IsString none = ⊥
IsString (some s) = Unit

-- A file system rule may have an empty path.
abbrev pub IsFsRule : FsRule → Type 0
IsFsRule r = (0 < r.allowed_access) × IsString r.path

abbrev pub IsDocumentLayer : DocumentLayer → Type 0
IsDocumentLayer l = (0 < l.handled_access_fs) × IsArray IsFsRule l.rules

abbrev pub IsNetRule : NetRule → Type 0
IsNetRule r = 0 < r.allowed_access

abbrev pub IsBind : BindRule → Type 0
IsBind r = IsNamed r.source × (IsNamed r.target × Anything r.read_only)

abbrev pub IsObject : ObjectRule → Type 0
IsObject r =
    IsNamed r.name
    × (IsNamed r.fs_type × (Anything r.allowed_attr_set × IsFilled IsNamed r.attach_paths))

abbrev pub IsAddfd : AddfdRule → Type 0
IsAddfd r = IsNamed r.action × (IsNamed r.target × IsMode r.mode)

abbrev pub IsDeny : ExceptionRule → Type 0
IsDeny r = is_neg r.syscall_nr ≡ false

-- A part with a flag, a number and rules: without the flag it is zero.
abbrev pub IsPart : {A : Type 0} → (A → Type 0) → Bool → ℕ → Array A → Type 0
IsPart P true n rules = (0 < n) × IsArray P rules
IsPart P false n rules = (n ≡ 0) × (rules ≡ none)

pub record IsDocument (d : Document) : Type 0 where
  pub layers : IsArray IsDocumentLayer d.fs_layers
  pub net : IsPart IsNetRule d.net_enabled d.net_handled_access d.net_rules
  pub opens : IsArray IsNamed d.broker_open_read_rules
  pub writes : IsArray IsNamed d.broker_open_write_rules
  pub scratches : IsArray IsNamed d.broker_scratch_rules
  pub exports : IsArray IsNamed d.broker_export_rules
  pub broker_tmpfs_mounts : IsArray IsNamed d.broker_mount_tmpfs_rules
  pub broker_binds : IsArray IsBind d.broker_mount_bind_rules
  pub objects : IsArray IsObject d.broker_mount_object_rules
  pub addfds : IsArray IsAddfd d.broker_addfd_rules
  pub tmpfs_mounts : IsArray IsNamed d.mount_tmpfs_rules
  pub binds : IsArray IsBind d.mount_bind_rules
  pub proc_mounts : IsArray IsNamed d.mount_proc_rules
  pub root : IsMode d.runtime_root
  pub cwd : IsMode d.runtime_cwd
  pub seccomp : IsPart IsDeny d.seccomp_enabled d.seccomp_errno d.seccomp_deny_rules

abbrev pub fs_rule_blocks : FsRule → ℕ
fs_rule_blocks r = string_blocks r.path

abbrev pub layer_blocks : DocumentLayer → ℕ
layer_blocks l = array_blocks fs_rule_blocks l.rules

abbrev pub bind_blocks : BindRule → ℕ
bind_blocks r = string_blocks r.source + string_blocks r.target

abbrev pub object_blocks : ObjectRule → ℕ
object_blocks r =
    string_blocks r.name + (string_blocks r.fs_type + array_blocks string_blocks r.attach_paths)

abbrev pub addfd_blocks : AddfdRule → ℕ
addfd_blocks r = string_blocks r.action + (string_blocks r.target + string_blocks r.mode)

abbrev pub paths_blocks : PathRules → ℕ
paths_blocks = array_blocks string_blocks

-- All blocks that a document holds.
abbrev pub document_blocks : Document → ℕ
document_blocks d =
    array_blocks layer_blocks d.fs_layers
    + array_blocks no_blocks d.net_rules
    + paths_blocks d.broker_open_read_rules
    + paths_blocks d.broker_open_write_rules
    + paths_blocks d.broker_scratch_rules
    + paths_blocks d.broker_export_rules
    + paths_blocks d.broker_mount_tmpfs_rules
    + array_blocks bind_blocks d.broker_mount_bind_rules
    + array_blocks object_blocks d.broker_mount_object_rules
    + array_blocks addfd_blocks d.broker_addfd_rules
    + paths_blocks d.mount_tmpfs_rules
    + array_blocks bind_blocks d.mount_bind_rules
    + paths_blocks d.mount_proc_rules
    + string_blocks d.runtime_root
    + string_blocks d.runtime_cwd
    + array_blocks no_blocks d.seccomp_deny_rules

pub blank-IsDocument : IsDocument blank_document
blank-IsDocument = record {
  layers = tt;
  net = (refl, refl);
  opens = tt;
  writes = tt;
  scratches = tt;
  exports = tt;
  broker_tmpfs_mounts = tt;
  broker_binds = tt;
  objects = tt;
  addfds = tt;
  tmpfs_mounts = tt;
  binds = tt;
  proc_mounts = tt;
  root = tt;
  cwd = tt;
  seccomp = (refl, refl);
}
