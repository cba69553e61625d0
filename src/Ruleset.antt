-- ===== src/Ruleset.antt =====
-- src/landlock.c: the wrappers of the three Landlock system calls.
pub mod Access
pub mod Errors
pub mod Warning
use landlock.Base.{ℕ, ℤ, pos, negsuc, is_neg, int_of_long, Bool, true, false, not, ◌&&◌, ◌||◌}
use landlock.Base.{Option, none, some, leb, ◌==◌, if◌then◌else◌, bit_and}
use landlock.Sys.{M, done, pure, fail, fail_with, get_errno, set_errno, attempt, call}
use landlock.Sys.{◌>>=◌, ◌>>◌}
use landlock.Sys.Types.{Call, RulesetAttr, PathBeneath, NetPort, RuleAttr, path_beneath, net_port}
use landlock.Sys.Errno.{ebadf, einval, enosys, eopnotsupp, e2big}

-- LANDLOCK_CREATE_RULESET_VERSION, LANDLOCK_RULE_PATH_BENEATH and LANDLOCK_RULE_NET_PORT
abbrev pub create_ruleset_version : ℕ
create_ruleset_version = 1

abbrev pub rule_path_beneath : ℕ
rule_path_beneath = 1

abbrev pub rule_net_port : ℕ
rule_net_port = 2

-- LANDLOCKD_RULESET_ATTR_FS_SIZE, LANDLOCKD_RULESET_ATTR_NET_SIZE and the size of the whole structure
abbrev pub attr_fs_size : ℕ
attr_fs_size = 8

abbrev pub attr_net_size : ℕ
attr_net_size = 16

abbrev pub attr_size : ℕ
attr_size = 24

-- LANDLOCKD_RULESET_ATTR_HAS_HANDLED_ACCESS_NET and LANDLOCKD_RULESET_ATTR_HAS_SCOPED: whether the
-- system's headers have these fields.
pub record Headers : Type 0 where
  pub has_handled_access_net : Bool
  pub has_scoped : Bool

-- `n <= a` and `a <= n` for an `int` a
abbrev pub at_least : ℕ → ℤ → Bool
at_least n (pos m) = leb n m
at_least n (negsuc m) = false

abbrev pub at_most : ℕ → ℤ → Bool
at_most n (pos m) = leb m n
at_most n (negsuc m) = true

-- `flags & LANDLOCK_CREATE_RULESET_VERSION`
abbrev pub asks_version : ℕ → Bool
asks_version flags = not (bit_and flags create_ruleset_version == 0)

-- `landlock_probe_abi`; the argument says whether `abi_version` is not NULL.
unfoldable pub probe_abi : Bool → M ℤ
probe_abi false = fail_with einval
probe_abi true = do
  saved_errno ← get_errno
  probed_abi ← call (Call.create_ruleset none 0 create_ruleset_version)
  set_errno saved_errno
  pure (int_of_long probed_abi)

-- `landlock_abi_version`: an error is the value 0 or -1.
version_of : Option ℤ → ℕ → ℤ
version_of (some abi) errno = abi
version_of none errno = if errno == enosys || errno == eopnotsupp then pos 0 else negsuc 0

unfoldable pub abi_version : M ℤ
unfolding version_of probe_abi
abi_version = do
  probed ← attempt (probe_abi true)
  errno ← get_errno
  pure (version_of probed errno)

-- The size that the kernel of an ABI version knows.
unfoldable pub size_for_abi : ℤ → ℕ
size_for_abi abi =
    if at_most 3 abi then attr_fs_size else if at_most 5 abi then attr_net_size else attr_size

-- The zeroed structure with the fields that the headers have.
unfoldable pub compat_attr : Headers → RulesetAttr → RulesetAttr
compat_attr h attr = record {
  handled_access_fs = attr.handled_access_fs;
  handled_access_net = if h.has_handled_access_net then attr.handled_access_net else 0;
  scoped = if h.has_scoped then attr.scoped else 0;
}

compat_pointer : Headers → Option RulesetAttr → Option RulesetAttr
compat_pointer h none = none
compat_pointer h (some attr) = some (compat_attr h attr)

-- The common end of both functions below.
unfoldable pub request_ruleset : Option RulesetAttr → ℕ → ℕ → M ℤ
request_ruleset attr size flags = do
  saved_errno ← get_errno
  fd ← call (Call.create_ruleset attr size flags)
  set_errno saved_errno
  pure (int_of_long fd)

-- `landlock_create_ruleset_for_abi`
unfoldable pub create_ruleset_for_abi : Headers → ℤ → Option RulesetAttr → ℕ → M ℤ
unfolding compat_pointer request_ruleset
create_ruleset_for_abi h abi attr flags =
    if at_most 0 abi
    then fail_with enosys
    else if asks_version flags
    then fail_with einval
    else request_ruleset (compat_pointer h attr) (size_for_abi abi) flags

-- `landlock_create_ruleset`
unfoldable pub create_ruleset : Option RulesetAttr → ℕ → ℕ → M ℤ
unfolding request_ruleset
create_ruleset attr size flags =
    if asks_version flags then fail_with einval else request_ruleset attr size flags

abbrev pub allowed_access : RuleAttr → ℕ
allowed_access (path_beneath a) = a.allowed_access
allowed_access (net_port a) = a.allowed_access

request_rule : ℤ → ℕ → RuleAttr → ℕ → M (Unit {0})
request_rule fd rule_type attr flags = do
  saved_errno ← get_errno
  rc ← call (Call.add_rule fd rule_type attr flags)
  set_errno saved_errno

add_rule_attr : ℤ → ℕ → Option RuleAttr → ℕ → M (Unit {0})
unfolding request_rule
add_rule_attr fd rule_type none flags = fail_with einval
add_rule_attr fd rule_type (some attr) flags =
    if rule_type == rule_net_port && allowed_access attr == 0
    then fail_with einval
    else request_rule fd rule_type attr flags

-- `landlock_add_rule`
unfoldable pub add_rule : ℤ → ℕ → Option RuleAttr → ℕ → M (Unit {0})
unfolding add_rule_attr
add_rule fd rule_type attr flags =
    if is_neg fd then fail_with ebadf else add_rule_attr fd rule_type attr flags

add_fs_attr : ℤ → Option PathBeneath → ℕ → M (Unit {0})
unfolding add_rule
add_fs_attr fd none flags = fail_with einval
add_fs_attr fd (some attr) flags =
    if is_neg attr.parent_fd
    then fail_with ebadf
    else if attr.allowed_access == 0
    then fail_with einval
    else add_rule fd rule_path_beneath (some (path_beneath attr)) flags

-- `landlock_add_fs_rule`
unfoldable pub add_fs_rule : ℤ → Option PathBeneath → ℕ → M (Unit {0})
unfolding add_fs_attr
add_fs_rule fd attr flags = if is_neg fd then fail_with ebadf else add_fs_attr fd attr flags

-- `landlock_add_net_rule`
unfoldable pub add_net_rule : ℤ → Option NetPort → ℕ → M (Unit {0})
unfolding add_rule
add_net_rule fd none flags = fail_with einval
add_net_rule fd (some attr) flags = add_rule fd rule_net_port (some (net_port attr)) flags

-- The warning on stderr, at the first `E2BIG` of the process.
mark_warned : M (Unit {0})
mark_warned k w = done tt (record w { e2big_warned = true })

get_warned : M Bool
get_warned k w = done w.e2big_warned w

warn_e2big : ℕ → M (Unit {0})
unfolding mark_warned get_warned
warn_e2big errno = do
  warned ← get_warned
  if errno == e2big && not warned
      then (do mark_warned; printed ← attempt (call Call.print_e2big); pure tt)
      else pure tt

restrict_result : ℕ → Option ℕ → M (Unit {0})
unfolding warn_e2big
restrict_result saved_errno (some rc) = set_errno saved_errno
restrict_result saved_errno none = do saved ← get_errno; warn_e2big saved; set_errno saved; fail

-- `landlock_restrict_self`
unfoldable pub restrict_self : ℤ → ℕ → M (Unit {0})
unfolding restrict_result
restrict_self fd flags =
    if flags == 0
    then (do
      saved_errno ← get_errno
      rc ← attempt (call (Call.restrict_self fd flags))
      restrict_result saved_errno rc)
    else fail_with einval
