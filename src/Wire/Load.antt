-- ===== src/Wire/Load.antt =====
-- src/landlock_policy_loader.c: `load_ir_from_wire`.
use landlock.Base.{
  ℕ, zero, suc, ◌+◌, ◌*◌, ◌%◌, ◌^◌, Bool, false, not, ◌==◌, ltb, str_eq, codes, any,
}
use landlock.Base.{Option, none, some, List, [], ◌∷◌, length}
use landlock.Sys.{call}
use landlock.Sys.Types.{Call, CString}
use landlock.Memory.{items_of, frees}
use landlock.Memory.Account.{string_blocks}
use landlock.Document.Add.{PathField, BindField}
use landlock.Document.Operations.{
  fs_layer, fs_rule, net_rule, path_rule, bind_rule, object_rule, addfd_rule,
}
use landlock.Wire.Cleanups.{free_invalid, free_saved}
use landlock.Wire.Reader.{
  L, got, pure, ◌>>=◌, ◌>>◌, give_up, refuse, unless_bad, lift, adds, undo, read_u32, read_u64,
  read_bytes, new_string, release, rounds,
}

abbrev pub wire_magic : ℕ
wire_magic = 0x4c504c44

abbrev pub wire_version : ℕ
wire_version = 16

-- The loops for an array of paths, by the function that they call.
unfoldable pub load_path : PathField → L (Unit {0})
unfolding read_bytes new_string adds undo free_saved release
load_path field = do
  bs ← read_bytes
  path ← new_string bs
  undo (free_saved 1) (adds (path_rule field path))
  release 1

unfoldable pub load_fs_rule : ℕ → L (Unit {0})
unfolding read_bytes new_string adds undo free_saved release
load_fs_rule layer_index = do
  allowed_access ← read_u64
  bs ← read_bytes
  path ← new_string bs
  undo (free_saved 1) (adds (fs_rule layer_index path allowed_access))
  release 1

-- The index that `landlockd_policy_ir_add_fs_layer` stores is the number of the layers before.
abbrev pub count_layers : L ℕ
count_layers k c w = got (length (items_of c.doc.fs_layers)) c w

unfoldable pub load_layer : L (Unit {0})
unfolding load_fs_rule adds rounds
load_layer = do
  handled_access_fs ← read_u64
  rule_count ← read_u32
  layer_index ← count_layers
  adds (fs_layer handled_access_fs)
  rounds rule_count (load_fs_rule layer_index)

unfoldable pub load_net_rule : L (Unit {0})
unfolding adds
load_net_rule = do
  port ← read_u32
  allowed_access ← read_u64
  adds (net_rule (port % 2 ^ 16) allowed_access)

unfoldable pub read_flag : L Bool
read_flag = do
  read_only ← read_u32
  unless_bad (ltb 1 read_only) give_up
  pure (not (read_only == 0))

unfoldable pub load_bind : BindField → L (Unit {0})
unfolding read_bytes new_string adds undo free_saved free_invalid frees read_flag release
load_bind field = do
  bs ← read_bytes
  source ← new_string bs
  cs ← undo (free_invalid 1) read_bytes
  target ← undo (frees 1) (new_string cs)
  read_only ← undo (free_saved 2) read_flag
  undo (free_saved 2) (adds (bind_rule field source target read_only))
  release 2

-- The attach paths of an object, with `held` blocks that are freed when one fails.
unfoldable pub load_attach_paths : ℕ → ℕ → L (List (Option CString))
unfolding read_bytes new_string undo free_saved free_invalid
load_attach_paths held zero = pure []
load_attach_paths held (suc n) = do
  bs ← undo (free_invalid held) read_bytes
  path ← undo (free_saved held) (new_string bs)
  paths ← load_attach_paths (suc held) n
  pure (path ∷ paths)

-- `attach_count`, and `allowed_attr_set` of its two halves.
unfoldable pub read_attrs : L (ℕ × ℕ)
read_attrs = do
  attach_count ← read_u32
  attr_lo ← read_u32
  attr_hi ← read_u32
  unless_bad (attach_count == 0) refuse
  pure (attach_count, attr_hi * 2 ^ 32 + attr_lo)

unfoldable pub load_object : L (Unit {0})
unfolding read_bytes new_string adds undo free_saved free_invalid frees read_attrs load_attach_paths
    release
load_object = do
  bs ← read_bytes
  name ← new_string bs
  cs ← undo (free_invalid 1) read_bytes
  fs_type ← undo (frees 1) (new_string cs)
  attrs ← undo (free_invalid 2) read_attrs
  block ← undo (frees 2) (lift (call (Call.allocate attrs.0)))
  paths ← load_attach_paths 3 attrs.0
  undo (free_saved (3 + length paths)) (adds (object_rule name fs_type (some paths) attrs.1))
  release (3 + length paths)

-- `wire_broker_addfd_action_is_known`
abbrev pub known_actions : List CString
known_actions =
    codes "open" ∷ codes "open_tree" ∷ codes "scratch_open" ∷ codes "fsopen" ∷ codes "fsmount" ∷ []

unfoldable pub action_is_known : Option CString → Bool
action_is_known none = false
action_is_known (some action) = any (λ name. str_eq name action) known_actions

-- A mode of no bytes is NULL.
unfoldable pub load_mode : List ℕ → L (Option CString)
unfolding new_string
load_mode [] = pure none
load_mode (b ∷ bs) = new_string (b ∷ bs)

unfoldable pub load_addfd : L (Unit {0})
unfolding read_bytes new_string adds undo free_saved free_invalid frees action_is_known load_mode
    release
load_addfd = do
  bs ← read_bytes
  action ← new_string bs
  undo (free_invalid 1) (unless_bad (not (action_is_known action)) give_up)
  cs ← undo (free_invalid 1) read_bytes
  target ← undo (frees 1) (new_string cs)
  ms ← undo (free_invalid 2) read_bytes
  mode ← undo (frees 2) (load_mode ms)
  undo (free_saved (2 + string_blocks mode)) (adds (addfd_rule action target mode))
  release (2 + string_blocks mode)

-- The header, in the order of the wire.
pub record Header : Type 0 where
  pub magic : ℕ
  pub version : ℕ
  pub fs_layer_count : ℕ
  pub net_enabled : ℕ
  pub net_handled_access : ℕ
  pub net_rule_count : ℕ
  pub broker_open_read_count : ℕ
  pub broker_open_write_count : ℕ
  pub broker_scratch_count : ℕ
  pub broker_export_count : ℕ
  pub broker_mount_tmpfs_count : ℕ
  pub broker_mount_bind_count : ℕ
  pub broker_mount_object_count : ℕ
  pub broker_addfd_count : ℕ
  pub mount_tmpfs_count : ℕ
  pub mount_bind_count : ℕ
  pub mount_proc_count : ℕ
  pub runtime_root_len : ℕ
  pub runtime_cwd_len : ℕ
  pub seccomp_enabled : ℕ
  pub seccomp_errno : ℕ
  pub seccomp_deny_count : ℕ

abbrev pub header_widths : List ℕ
header_widths =
    4 ∷ 4 ∷ 4 ∷ 4 ∷ 8 ∷ 4 ∷ 4 ∷ 4 ∷ 4 ∷ 4 ∷ 4 ∷ 4 ∷ 4 ∷ 4 ∷ 4 ∷ 4 ∷ 4 ∷ 4 ∷ 4 ∷ 4 ∷ 4 ∷ 4 ∷ []

abbrev pub nth : List ℕ → ℕ → ℕ
nth [] i = 0
nth (n ∷ ns) zero = n
nth (n ∷ ns) (suc i) = nth ns i

abbrev pub header_of : List ℕ → Header
header_of ns = record {
  magic = nth ns 0;
  version = nth ns 1;
  fs_layer_count = nth ns 2;
  net_enabled = nth ns 3;
  net_handled_access = nth ns 4;
  net_rule_count = nth ns 5;
  broker_open_read_count = nth ns 6;
  broker_open_write_count = nth ns 7;
  broker_scratch_count = nth ns 8;
  broker_export_count = nth ns 9;
  broker_mount_tmpfs_count = nth ns 10;
  broker_mount_bind_count = nth ns 11;
  broker_mount_object_count = nth ns 12;
  broker_addfd_count = nth ns 13;
  mount_tmpfs_count = nth ns 14;
  mount_bind_count = nth ns 15;
  mount_proc_count = nth ns 16;
  runtime_root_len = nth ns 17;
  runtime_cwd_len = nth ns 18;
  seccomp_enabled = nth ns 19;
  seccomp_errno = nth ns 20;
  seccomp_deny_count = nth ns 21;
}
