-- ===== src/Document/Reset.antt =====
-- src/landlock_policy_ir.c, `landlockd_policy_ir_reset`.
use landlock.Base.{Option, none, some, List, [], ◌∷◌}
use landlock.Sys.{M, pure, get_errno, set_errno, ◌>>=◌, ◌>>◌}
use landlock.Sys.Types.{CString}
use landlock.Memory.{Array, frees}
use landlock.Document.Types.{
  Document, DocumentLayer, BindRule, ObjectRule, AddfdRule, PathRules, blank_document,
}
use landlock.Ir.{FsRule}

-- `free` of a string that may be NULL.
abbrev pub free_string : Option CString → M (Unit {0})
free_string none = pure tt
free_string (some s) = frees 1

-- The loop over the items of an array.
unfoldable pub free_items : {A : Type 0} → (A → M (Unit {0})) → List A → M (Unit {0})
free_items free_item [] = pure tt
free_items free_item (x ∷ xs) = free_item x >> free_items free_item xs

-- The loop, and `free` of the array.
abbrev pub free_array : {A : Type 0} → (A → M (Unit {0})) → Array A → M (Unit {0})
free_array free_item none = pure tt
free_array free_item (some xs) = free_items free_item xs >> frees 1

abbrev pub nothing_in : {A : Type 0} → A → M (Unit {0})
nothing_in a = pure tt

abbrev pub free_fs_rule : FsRule → M (Unit {0})
free_fs_rule r = free_string r.path

abbrev pub free_layer : DocumentLayer → M (Unit {0})
free_layer l = free_array free_fs_rule l.rules

abbrev pub free_bind : BindRule → M (Unit {0})
free_bind r = free_string r.source >> free_string r.target

abbrev pub free_object : ObjectRule → M (Unit {0})
free_object r = free_string r.name >> free_string r.fs_type >> free_array free_string r.attach_paths

abbrev pub free_addfd : AddfdRule → M (Unit {0})
free_addfd r = free_string r.action >> free_string r.target >> free_string r.mode

abbrev pub free_paths : PathRules → M (Unit {0})
free_paths = free_array free_string

abbrev pub free_fields : Document → M (Unit {0})
free_fields d = do
  free_array free_layer d.fs_layers
  free_array nothing_in d.net_rules
  free_paths d.broker_open_read_rules
  free_paths d.broker_open_write_rules
  free_paths d.broker_scratch_rules
  free_paths d.broker_export_rules
  free_paths d.broker_mount_tmpfs_rules
  free_array free_bind d.broker_mount_bind_rules
  free_array free_object d.broker_mount_object_rules
  free_array free_addfd d.broker_addfd_rules
  free_paths d.mount_tmpfs_rules
  free_array free_bind d.mount_bind_rules
  free_paths d.mount_proc_rules
  free_string d.runtime_root
  free_string d.runtime_cwd
  free_array nothing_in d.seccomp_deny_rules

-- `landlockd_policy_ir_reset`, of a pointer that may be NULL.
unfoldable pub document_reset : Option Document → M (Option Document)
document_reset none = pure none
document_reset (some d) = do
  saved_errno ← get_errno
  free_fields d
  set_errno saved_errno
  pure (some blank_document)
