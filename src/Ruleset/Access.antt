-- ===== src/Ruleset/Access.antt =====
-- src/landlock_fs_ruleset.c and src/landlock_net_ruleset.c: rulesets cut down to the access rights
-- that the running kernel knows.
pub mod Masks
pub mod Grants
use landlock.Base.{ℕ, ℤ, ◌==◌, if◌then◌else◌, bit_and, bit_or, some, is_neg, is_zero}
use landlock.Sys.{M, pure, fail, fail_with, get_errno, set_errno, ◌>>=◌, ◌>>◌}
use landlock.Sys.Types.{RulesetAttr}
use landlock.Sys.Errno.{einval, enosys, eopnotsupp}
use landlock.Ruleset.{abi_version, create_ruleset, at_least, attr_fs_size, attr_net_size}

-- LANDLOCK_ACCESS_FS_EXECUTE to LANDLOCK_ACCESS_FS_MAKE_SYM, bits 0 to 12, in one mask
abbrev pub access_fs_base : ℕ
access_fs_base = 0x1fff

-- LANDLOCK_ACCESS_FS_REFER, _TRUNCATE and _IOCTL_DEV
abbrev pub access_fs_refer : ℕ
access_fs_refer = 0x2000

abbrev pub access_fs_truncate : ℕ
access_fs_truncate = 0x4000

abbrev pub access_fs_ioctl_dev : ℕ
access_fs_ioctl_dev = 0x8000

-- LANDLOCK_ACCESS_NET_BIND_TCP and _CONNECT_TCP
abbrev pub access_net_bind_tcp : ℕ
access_net_bind_tcp = 1

abbrev pub access_net_connect_tcp : ℕ
access_net_connect_tcp = 2

-- `landlockd_fs_access_mask_for_abi`
unfoldable pub fs_access_mask_for_abi : ℤ → ℕ
fs_access_mask_for_abi abi =
    let refer = if at_least 2 abi then bit_or access_fs_base access_fs_refer else access_fs_base in
    let truncate = if at_least 3 abi then bit_or refer access_fs_truncate else refer in
    if at_least 5 abi then bit_or truncate access_fs_ioctl_dev else truncate

-- `landlockd_net_access_mask_for_abi`
unfoldable pub net_access_mask_for_abi : ℤ → ℕ
net_access_mask_for_abi abi =
    if at_least 4 abi then bit_or access_net_bind_tcp access_net_connect_tcp else 0

abbrev pub fs_attr : ℕ → RulesetAttr
fs_attr access = record { handled_access_fs = access; handled_access_net = 0; scoped = 0 }

abbrev pub net_attr : ℕ → RulesetAttr
net_attr access = record { handled_access_fs = 0; handled_access_net = access; scoped = 0 }

-- The end of `landlock_create_fs_ruleset`, once the rights are known.
request_fs : ℕ → ℕ → M (ℤ × ℕ)
request_fs saved_errno effective = if effective == 0 then fail_with einval else (do
  fd ← create_ruleset (some (fs_attr effective)) attr_fs_size 0
  if is_neg fd then fail else (do set_errno saved_errno; pure (fd, effective)))

-- `landlock_create_fs_ruleset`: the descriptor, and the rights that are stored in
-- `granted_access_fs` where the caller passes a pointer.
unfoldable pub create_fs_ruleset : ℕ → M (ℤ × ℕ)
unfolding request_fs
create_fs_ruleset requested = do
  saved_errno ← get_errno
  abi ← abi_version
  if is_zero abi
      then fail_with enosys
      else if is_neg abi
      then fail
      else request_fs saved_errno (bit_and requested (fs_access_mask_for_abi abi))

request_net : ℕ → ℕ → ℕ → M (ℤ × ℕ)
request_net saved_errno requested mask =
    let effective = bit_and requested mask in
    if mask == 0 then fail_with eopnotsupp else if effective == 0 then fail_with einval else (do
      fd ← create_ruleset (some (net_attr effective)) attr_net_size 0
      if is_neg fd then fail else (do set_errno saved_errno; pure (fd, effective)))

-- `landlock_create_net_ruleset`
unfoldable pub create_net_ruleset : ℕ → M (ℤ × ℕ)
unfolding request_net
create_net_ruleset requested = do
  saved_errno ← get_errno
  abi ← abi_version
  if is_zero abi
      then fail_with enosys
      else if is_neg abi
      then fail
      else request_net saved_errno requested (net_access_mask_for_abi abi)
