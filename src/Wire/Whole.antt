-- ===== src/Wire/Whole.antt =====
-- src/landlock_policy_loader.c: `load_ir_from_wire` as a whole.
use landlock.Base.{ℕ, pos, ◌-◌, ◌^◌, not, ◌||◌, ◌==◌, ltb, if◌then◌else◌}
use landlock.Base.{Option, [], ◌∷◌}
use landlock.Sys.Types.{CString}
use landlock.Document.Add.{
  open_read, open_write, scratch, export, broker_tmpfs, mount_tmpfs, mount_proc, broker_bind,
  mount_bind,
}
use landlock.Document.Operations.{Operation, net, runtime_root, runtime_cwd, seccomp, deny_rule}
use landlock.Wire.Cleanups.{free_saved}
use landlock.Wire.Load.{
  wire_magic, wire_version, Header, header_widths, header_of, load_layer, load_net_rule, load_path,
  load_bind, load_object, load_addfd,
}
use landlock.Wire.Reader.{
  L, got, pure, ◌>>=◌, ◌>>◌, give_up, refuse, unless_bad, adds, undo, next_bytes, read_u32,
  read_numbers, new_string, release, rounds,
}

-- One of the two paths whose lengths stand in the header.
unfoldable pub load_runtime : (Option CString → Operation) → ℕ → L (Unit {0})
unfolding next_bytes new_string adds undo free_saved release
load_runtime set_path n = if n == 0 then pure tt else (do
  bs ← next_bytes n
  path ← new_string bs
  undo (free_saved 1) (adds (set_path path))
  release 1)

unfoldable pub load_deny : L (Unit {0})
unfolding adds
load_deny = do
  syscall_nr ← read_u32
  unless_bad (ltb (2 ^ 31 - 1) syscall_nr) give_up
  adds (deny_rule (pos syscall_nr))

unfoldable pub load_net : ℕ → ℕ → ℕ → L (Unit {0})
unfolding adds rounds load_net_rule
load_net net_enabled handled_access net_rule_count =
    if net_enabled == 0
    then pure tt
    else (do adds (net handled_access); rounds net_rule_count load_net_rule)

unfoldable pub load_seccomp : ℕ → ℕ → ℕ → L (Unit {0})
unfolding adds rounds load_deny
load_seccomp enabled error deny_count = if enabled == 0 then pure tt else (do
  unless_bad (error == 0 || ltb 4095 error) give_up
  adds (seccomp error)
  rounds deny_count load_deny)

-- `off != len`
unfoldable pub load_end : L (Unit {0})
load_end k c w = elim c.rest [ [] ↦ got tt c w | b ∷ bs ↦ refuse k c w ]

unfoldable pub load_body : Header → L (Unit {0})
unfolding rounds load_layer load_net load_path load_bind load_object load_addfd load_runtime
    load_seccomp load_end
load_body h = do
  rounds h.fs_layer_count load_layer
  load_net h.net_enabled h.net_handled_access h.net_rule_count
  rounds h.broker_open_read_count (load_path open_read)
  rounds h.broker_open_write_count (load_path open_write)
  rounds h.broker_scratch_count (load_path scratch)
  rounds h.broker_export_count (load_path export)
  rounds h.broker_mount_tmpfs_count (load_path broker_tmpfs)
  rounds h.broker_mount_bind_count (load_bind broker_bind)
  rounds h.broker_mount_object_count load_object
  rounds h.broker_addfd_count load_addfd
  rounds h.mount_tmpfs_count (load_path mount_tmpfs)
  rounds h.mount_bind_count (load_bind mount_bind)
  rounds h.mount_proc_count (load_path mount_proc)
  load_runtime runtime_root h.runtime_root_len
  load_runtime runtime_cwd h.runtime_cwd_len
  load_seccomp h.seccomp_enabled h.seccomp_errno h.seccomp_deny_count
  load_end

unfoldable pub load_ir_from_wire : L (Unit {0})
unfolding read_numbers load_body
load_ir_from_wire = do
  ns ← read_numbers header_widths
  let h = header_of ns
  unless_bad (not (h.magic == wire_magic) || not (h.version == wire_version)) refuse
  load_body h
