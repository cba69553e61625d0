-- ===== src/Document/Add.antt =====
-- src/landlock_policy_ir.c, the functions that add to a document. On an error they return -1 and the
-- document is as it was.
use landlock.Base.{ℕ, ℤ, suc, ◌+◌, Bool, true, not, ◌||◌, ◌==◌, is_neg, if◌then◌else◌}
use landlock.Base.{Option, none, some, List, [], ◌∷◌, length, drop, set}
use landlock.Sys.{M, pure, fail_with, call, ◌>>=◌}
use landlock.Sys.Types.{CString, Call}
use landlock.Sys.Errno.{einval}
use landlock.Memory.{Array, items_of, is_absent, is_blank, frees, or_free, strdup, grown}
use landlock.Document.Types.{Document, DocumentLayer, BindRule, PathRules}

-- The arrays of rules with the one field `path`.
pub data PathField : Type 0 where
  open_read open_write scratch export broker_tmpfs mount_tmpfs mount_proc : PathField

abbrev pub path_rules : PathField → Document → PathRules
path_rules open_read d = d.broker_open_read_rules
path_rules open_write d = d.broker_open_write_rules
path_rules scratch d = d.broker_scratch_rules
path_rules export d = d.broker_export_rules
path_rules broker_tmpfs d = d.broker_mount_tmpfs_rules
path_rules mount_tmpfs d = d.mount_tmpfs_rules
path_rules mount_proc d = d.mount_proc_rules

abbrev pub with_path_rules : PathField → PathRules → Document → Document
with_path_rules open_read rs d = record d { broker_open_read_rules = rs }
with_path_rules open_write rs d = record d { broker_open_write_rules = rs }
with_path_rules scratch rs d = record d { broker_scratch_rules = rs }
with_path_rules export rs d = record d { broker_export_rules = rs }
with_path_rules broker_tmpfs rs d = record d { broker_mount_tmpfs_rules = rs }
with_path_rules mount_tmpfs rs d = record d { mount_tmpfs_rules = rs }
with_path_rules mount_proc rs d = record d { mount_proc_rules = rs }

-- The seven functions for a path differ in the array alone; `add_broker_open_read_rule` and its
-- siblings are this with their field.
unfoldable pub document_add_path_rule : PathField → Document → Option CString → M Document
unfolding or_free frees
document_add_path_rule field d path = if is_blank path then fail_with einval else (do
  path_copy ← strdup path
  rules ← or_free 1 (grown (path_rules field d) path_copy)
  pure (with_path_rules field rules d))

-- The two arrays of bind mounts.
pub data BindField : Type 0 where
  broker_bind mount_bind : BindField

abbrev pub bind_rules : BindField → Document → Array BindRule
bind_rules broker_bind d = d.broker_mount_bind_rules
bind_rules mount_bind d = d.mount_bind_rules

abbrev pub with_bind_rules : BindField → Array BindRule → Document → Document
with_bind_rules broker_bind rs d = record d { broker_mount_bind_rules = rs }
with_bind_rules mount_bind rs d = record d { mount_bind_rules = rs }

-- `landlockd_policy_ir_add_broker_mount_bind_rule` and `landlockd_policy_ir_add_mount_bind_rule`
unfoldable pub add_bind_rule :
    BindField → Document → Option CString → Option CString → Bool → M Document
unfolding or_free frees
add_bind_rule field d source target read_only =
    if is_blank source || is_blank target then fail_with einval else (do
      source_copy ← strdup source
      target_copy ← or_free 1 (strdup target)
      rules ← or_free 2 (
          grown (bind_rules field d)
            (record { source = source_copy; target = target_copy; read_only = read_only }))
      pure (with_bind_rules field rules d))

-- `landlockd_policy_ir_add_fs_layer`, with the index that it stores.
unfoldable pub add_fs_layer : Document → ℕ → M (Document × ℕ)
add_fs_layer d handled_access_fs = if handled_access_fs == 0 then fail_with einval else (do
  layers ← grown d.fs_layers (record { handled_access_fs = handled_access_fs; rules = none })
  pure (record d { fs_layers = layers }, length (items_of d.fs_layers)))

-- The rest of `landlockd_policy_ir_add_fs_rule`, of what is left of the layers from the index on.
abbrev pub in_layer : Document → ℕ → Option CString → ℕ → List DocumentLayer → M Document
in_layer d i path allowed_access [] = fail_with einval
in_layer d i path allowed_access (l ∷ ls) = do
  path_copy ← strdup path
  rules ← or_free 1 (grown l.rules (record { path = path_copy; allowed_access = allowed_access }))
  pure (record d { fs_layers = some (set (items_of d.fs_layers) i (record l { rules = rules })) })

-- `landlockd_policy_ir_add_fs_rule`
unfoldable pub document_add_fs_rule : Document → ℕ → Option CString → ℕ → M Document
unfolding or_free frees
document_add_fs_rule d layer_index path allowed_access =
    if is_absent path || allowed_access == 0
    then fail_with einval
    else in_layer d layer_index path allowed_access (drop layer_index (items_of d.fs_layers))

-- `landlockd_policy_ir_enable_net`
unfoldable pub enable_net : Document → ℕ → M Document
enable_net d handled_access_net =
    if handled_access_net == 0
    then fail_with einval
    else pure (record d { net_enabled = true; net_handled_access = handled_access_net })

-- `landlockd_policy_ir_add_net_rule`
unfoldable pub document_add_net_rule : Document → ℕ → ℕ → M Document
document_add_net_rule d port allowed_access =
    if allowed_access == 0 || not d.net_enabled then fail_with einval else (do
      rules ← grown d.net_rules (record { port = port; allowed_access = allowed_access })
      pure (record d { net_rules = rules }))

-- The copies of the attach paths; `held` blocks are freed when one fails.
unfoldable pub attach_copies : ℕ → List (Option CString) → M (List (Option CString))
unfolding or_free frees
attach_copies held [] = pure []
attach_copies held (p ∷ ps) = do
  copy ← or_free held (if is_blank p then fail_with einval else strdup p)
  copies ← attach_copies (suc held) ps
  pure (copy ∷ copies)

-- `landlockd_policy_ir_add_broker_mount_object_rule`
unfoldable pub add_object_rule :
    Document → Option CString → Option CString → Array (Option CString) → ℕ → M Document
unfolding or_free frees attach_copies
add_object_rule d name fs_type attach_paths allowed_attr_set =
    let paths = items_of attach_paths in
    if is_blank name || is_blank fs_type || length paths == 0 then fail_with einval else (do
      name_copy ← strdup name
      fs_type_copy ← or_free 1 (strdup fs_type)
      block ← or_free 2 (call (Call.allocate (length paths)))
      copies ← attach_copies 3 paths
      rules ← or_free (3 + length paths) (
          grown d.broker_mount_object_rules (record {
            name = name_copy;
            fs_type = fs_type_copy;
            allowed_attr_set = allowed_attr_set;
            attach_paths = some copies;
          }))
      pure (record d { broker_mount_object_rules = rules }))

-- The mode that is kept: an empty one is none.
abbrev pub kept_mode : Option CString → Option CString
kept_mode mode = if is_blank mode then none else mode

abbrev pub mode_blocks : Option CString → ℕ
mode_blocks mode = if is_blank mode then 0 else 1

-- `landlockd_policy_ir_add_broker_addfd_rule`
unfoldable pub add_addfd_rule :
    Document → Option CString → Option CString → Option CString → M Document
unfolding or_free frees
add_addfd_rule d action target mode =
    if is_blank action || is_blank target then fail_with einval else (do
      action_copy ← strdup action
      target_copy ← or_free 1 (strdup target)
      mode_copy ← or_free 2 (strdup (kept_mode mode))
      rules ← or_free (2 + mode_blocks mode) (
          grown d.broker_addfd_rules
            (record { action = action_copy; target = target_copy; mode = mode_copy }))
      pure (record d { broker_addfd_rules = rules }))

-- `landlockd_policy_ir_set_runtime_root`
unfoldable pub set_runtime_root : Document → Option CString → M Document
set_runtime_root d path =
    if is_blank path || not (is_absent d.runtime_root)
    then fail_with einval
    else (do path_copy ← strdup path; pure (record d { runtime_root = path_copy }))

-- `landlockd_policy_ir_set_runtime_cwd`
unfoldable pub set_runtime_cwd : Document → Option CString → M Document
set_runtime_cwd d path =
    if is_blank path || not (is_absent d.runtime_cwd)
    then fail_with einval
    else (do path_copy ← strdup path; pure (record d { runtime_cwd = path_copy }))

-- `landlockd_policy_ir_enable_seccomp`
unfoldable pub enable_seccomp : Document → ℕ → M Document
enable_seccomp d errno_ret =
    if errno_ret == 0
    then fail_with einval
    else pure (record d { seccomp_enabled = true; seccomp_errno = errno_ret })

-- `landlockd_policy_ir_add_seccomp_deny_rule`
unfoldable pub add_deny_rule : Document → ℤ → M Document
add_deny_rule d syscall_nr =
    if not d.seccomp_enabled || is_neg syscall_nr then fail_with einval else (do
      rules ← grown d.seccomp_deny_rules (record { syscall_nr = syscall_nr })
      pure (record d { seccomp_deny_rules = rules }))

-- The test for NULL with which every one of these functions begins.
abbrev pub of_pointer {ℓ} : {A : Type ℓ} → (Document → M A) → Option Document → M A
of_pointer f none = fail_with einval
of_pointer f (some d) = f d
