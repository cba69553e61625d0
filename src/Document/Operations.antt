-- ===== src/Document/Operations.antt =====
-- src/landlock_policy_ir.c: the functions that add to a document by their names, with a pointer to the
-- document, and calls of them as data.
use landlock.Base.{ℕ, ℤ, Bool, Option, none, some, List, [], ◌∷◌}
use landlock.Sys.{M, pure, attempt, ◌>>=◌}
use landlock.Sys.Types.{CString}
use landlock.Memory.{Array}
use landlock.Document.Types.{Document}
use landlock.Document.Add.{
  PathField, open_read, open_write, scratch, export, broker_tmpfs, mount_tmpfs, mount_proc,
  BindField, broker_bind, mount_bind, of_pointer, document_add_path_rule, add_bind_rule,
  add_fs_layer, document_add_fs_rule, enable_net, document_add_net_rule, add_object_rule,
  add_addfd_rule, set_runtime_root, set_runtime_cwd, enable_seccomp, add_deny_rule,
}

abbrev PathFunction : Type 0
PathFunction = Option Document → Option CString → M Document

abbrev of_path : PathField → PathFunction
of_path field ir path = of_pointer (λ d. document_add_path_rule field d path) ir

abbrev add_broker_open_read_rule : PathFunction
add_broker_open_read_rule = of_path open_read

abbrev add_broker_open_write_rule : PathFunction
add_broker_open_write_rule = of_path open_write

abbrev add_broker_scratch_rule : PathFunction
add_broker_scratch_rule = of_path scratch

abbrev add_broker_export_rule : PathFunction
add_broker_export_rule = of_path export

abbrev add_broker_mount_tmpfs_rule : PathFunction
add_broker_mount_tmpfs_rule = of_path broker_tmpfs

abbrev add_mount_tmpfs_rule : PathFunction
add_mount_tmpfs_rule = of_path mount_tmpfs

abbrev add_mount_proc_rule : PathFunction
add_mount_proc_rule = of_path mount_proc

abbrev BindFunction : Type 0
BindFunction = Option Document → Option CString → Option CString → Bool → M Document

abbrev of_bind : BindField → BindFunction
of_bind field ir source target read_only =
    of_pointer (λ d. add_bind_rule field d source target read_only) ir

abbrev add_broker_mount_bind_rule : BindFunction
add_broker_mount_bind_rule = of_bind broker_bind

abbrev add_mount_bind_rule : BindFunction
add_mount_bind_rule = of_bind mount_bind

-- A call of one of the seventeen functions.
pub data Operation : Type 0 where
  fs_layer : (handled_access_fs : ℕ) → Operation
  fs_rule : (layer_index : ℕ) (path : Option CString) (allowed_access : ℕ) → Operation
  net : (handled_access_net : ℕ) → Operation
  net_rule : (port allowed_access : ℕ) → Operation
  path_rule : (field : PathField) (path : Option CString) → Operation
  bind_rule : (field : BindField) (source target : Option CString) (read_only : Bool) → Operation
  object_rule :
      (name fs_type : Option CString) (attach_paths : Array (Option CString)) (allowed_attr_set : ℕ)
      → Operation
  addfd_rule : (action target mode : Option CString) → Operation
  runtime_root runtime_cwd : (path : Option CString) → Operation
  seccomp : (errno_ret : ℕ) → Operation
  deny_rule : (syscall_nr : ℤ) → Operation

-- The call, on a document.
unfoldable pub apply : Operation → Document → M Document
apply (fs_layer handled) d = add_fs_layer d handled >>= (λ p. pure p.0)
apply (fs_rule index path allowed) d = document_add_fs_rule d index path allowed
apply (net handled) d = enable_net d handled
apply (net_rule port allowed) d = document_add_net_rule d port allowed
apply (path_rule field path) d = document_add_path_rule field d path
apply (bind_rule field source target read_only) d = add_bind_rule field d source target read_only
apply (object_rule name fs_type paths attrs) d = add_object_rule d name fs_type paths attrs
apply (addfd_rule action target mode) d = add_addfd_rule d action target mode
apply (runtime_root path) d = set_runtime_root d path
apply (runtime_cwd path) d = set_runtime_cwd d path
apply (seccomp errno_ret) d = enable_seccomp d errno_ret
apply (deny_rule nr) d = add_deny_rule d nr

abbrev pub kept : Document → Option Document → Document
kept d none = d
kept d (some d') = d'

-- Any calls, one after another; an error leaves the document as it was.
unfoldable pub apply_all : List Operation → Document → M Document
apply_all [] d = pure d
apply_all (op ∷ ops) d = attempt (apply op d) >>= (λ r. apply_all ops (kept d r))
