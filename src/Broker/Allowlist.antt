-- ===== src/Broker/Allowlist.antt =====
-- src/landlockd_exec.c: the allowlist is made of a policy document: each path by `realpath`. What is
-- made is released by the function that makes it, where that fails.
use landlock.Base.{ℕ, ◌+◌, Option, none, some, List, [], ◌∷◌, length}
use landlock.Sys.{M, done, failed, pure, fail, fail_with, call, ◌>>=◌, ◌>>◌}
use landlock.Sys.Types.{CString, Call}
use landlock.Sys.Errno.{einval}
use landlock.Memory.{Array, items_of, or_free, strdup}
use landlock.Memory.Account.{string_blocks}
use landlock.Document.Types.{Document, BindRule, ObjectRule, AddfdRule, PathRules}
use landlock.Document.Reset.{free_array, free_bind, free_object, free_addfd, free_paths}
use landlock.Document.Wellformed.{bind_blocks, object_blocks, addfd_blocks}
use landlock.Broker.Types.{Allowlist, no_entries}

-- `landlockd_broker_allowlist_cleanup`, before the assignments.
abbrev pub free_entries : Allowlist → M (Unit {0})
free_entries a = do
  free_paths a.read_paths
  free_paths a.write_paths
  free_paths a.scratch_paths
  free_paths a.export_paths
  free_paths a.mount_tmpfs_paths
  free_array free_bind a.mount_bind_rules
  free_array free_object a.mount_object_rules
  free_array free_addfd a.addfd_rules

unfoldable pub allowlist_cleanup : Allowlist → M Allowlist
allowlist_cleanup a = free_entries a >> pure no_entries

-- A loop over rules, with `held` blocks before it that are freed, with those of the rules made so far,
-- when one fails.
unfoldable pub make_items : {A : Type 0} → (A → ℕ) → (ℕ → A → M A) → ℕ → List A → M (List A)
make_items blocks item held [] = pure []
make_items blocks item held (x ∷ xs) = do
  y ← item held x
  ys ← make_items blocks item (held + blocks y) xs
  pure (y ∷ ys)

-- `calloc` and the loop, if there are rules.
unfoldable pub make_array : {A : Type 0} → (A → ℕ) → (ℕ → A → M A) → Array A → M (Array A)
unfolding make_items
make_array blocks item none = pure none
make_array blocks item (some []) = pure none
make_array blocks item (some (x ∷ xs)) =
    call (Call.allocate (length (x ∷ xs)))
    >> (make_items blocks item 1 (x ∷ xs) >>= λ ys. pure (some ys))

-- The file system, as `realpath` sees it, is a parameter: the canonical form of a path that resolves.
module _ (real : CString → CString) where
  -- `realpath`, of NULL an error.
  abbrev pub resolved : Option CString → M (Option CString)
  resolved none = fail_with einval
  resolved (some path) = call (Call.resolve path) >> pure (some (real path))

  abbrev pub path_item : ℕ → Option CString → M (Option CString)
  path_item held path = or_free held (resolved path)

  -- `landlockd_broker_canonicalize_rules`
  unfoldable pub canonicalize_rules : PathRules → M PathRules
  unfolding make_array
  canonicalize_rules = make_array string_blocks path_item

  abbrev pub bind_item : ℕ → BindRule → M BindRule
  bind_item held r = do
    source ← or_free held (resolved r.source)
    target ← or_free (held + 1) (resolved r.target)
    pure (record { source = source; target = target; read_only = r.read_only })

  -- `landlockd_broker_canonicalize_bind_rules`
  unfoldable pub canonicalize_bind_rules : Array BindRule → M (Array BindRule)
  unfolding make_array
  canonicalize_bind_rules = make_array bind_blocks bind_item

  abbrev pub object_item : ℕ → ObjectRule → M ObjectRule
  object_item held r = do
    name ← or_free held (strdup r.name)
    fs_type ← or_free (held + 1) (strdup r.fs_type)
    block ← or_free (held + 1 + 1) (call (Call.allocate (length (items_of r.attach_paths))))
    paths ← make_items string_blocks path_item (held + 1 + 1 + 1) (items_of r.attach_paths)
    pure (record r { name = name; fs_type = fs_type; attach_paths = some paths })

  -- `landlockd_broker_canonicalize_mount_object_rules`
  unfoldable pub canonicalize_mount_object_rules : Array ObjectRule → M (Array ObjectRule)
  unfolding make_array
  canonicalize_mount_object_rules = make_array object_blocks object_item

  abbrev pub addfd_item : ℕ → AddfdRule → M AddfdRule
  addfd_item held r = do
    action ← or_free held (strdup r.action)
    target ← or_free (held + 1) (resolved r.target)
    mode ← or_free (held + 1 + 1) (strdup r.mode)
    pure (record { action = action; target = target; mode = mode })

  -- `landlockd_broker_canonicalize_addfd_rules`
  unfoldable pub canonicalize_addfd_rules : Array AddfdRule → M (Array AddfdRule)
  unfolding make_array
  canonicalize_addfd_rules = make_array addfd_blocks addfd_item

  -- A step of the function below: where it fails, what there is of the allowlist is released.
  unfoldable pub or_cleanup : {A : Type 0} → Allowlist → M A → M A
  or_cleanup a m k w = elim (m k w) [
    | done x v ↦ done x v
    | failed v ↦ (free_entries a >> fail) k v
  ]

  -- `landlockd_broker_allowlist_init`
  unfoldable pub allowlist_init : Document → M Allowlist
  unfolding or_cleanup canonicalize_rules canonicalize_bind_rules canonicalize_mount_object_rules
      canonicalize_addfd_rules
  allowlist_init ir = do
    reads ← or_cleanup no_entries (canonicalize_rules ir.broker_open_read_rules)
    let a1 = record no_entries { read_paths = reads }
    writes ← or_cleanup a1 (canonicalize_rules ir.broker_open_write_rules)
    let a2 = record a1 { write_paths = writes }
    scratches ← or_cleanup a2 (canonicalize_rules ir.broker_scratch_rules)
    let a3 = record a2 { scratch_paths = scratches }
    exports ← or_cleanup a3 (canonicalize_rules ir.broker_export_rules)
    let a4 = record a3 { export_paths = exports }
    mounts ← or_cleanup a4 (canonicalize_rules ir.broker_mount_tmpfs_rules)
    let a5 = record a4 { mount_tmpfs_paths = mounts }
    binds ← or_cleanup a5 (canonicalize_bind_rules ir.broker_mount_bind_rules)
    let a6 = record a5 { mount_bind_rules = binds }
    objects ← or_cleanup a6 (canonicalize_mount_object_rules ir.broker_mount_object_rules)
    let a7 = record a6 { mount_object_rules = objects }
    addfds ← or_cleanup a7 (canonicalize_addfd_rules ir.broker_addfd_rules)
    pure (record a7 { addfd_rules = addfds })
