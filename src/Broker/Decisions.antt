-- ===== src/Broker/Decisions.antt =====
-- src/landlockd_exec.c: what a broker allows by its allowlist. All paths are canonical.
use landlock.Base.{ℕ, Bool, true, false, ◌&&◌, ◌||◌, ◌==◌, if◌then◌else◌, str_eq, any, codes}
use landlock.Base.{Option, none, some, List, [], ◌∷◌, length}
use landlock.Sys.Types.{CString}
use landlock.Memory.{Array, items_of}
use landlock.Document.Types.{BindRule, ObjectRule, AddfdRule, PathRules}
use landlock.Broker.Types.{Allowlist}

-- `path[len] == '\0' || path[len] == '/'`, of the rest of the path.
abbrev pub at_boundary : CString → Bool
at_boundary [] = true
at_boundary (c ∷ cs) = c == b'/'

-- `landlockd_path_is_under`: `strncmp` over the root's length, and the character behind it.
unfoldable pub path_is_under : CString → CString → Bool
path_is_under [] path = at_boundary path
path_is_under (c ∷ root) [] = false
path_is_under (c ∷ root) (d ∷ path) = c == d && path_is_under root path

-- `landlockd_path_has_prefix`, which is the same test with its arguments exchanged.
unfoldable pub path_has_prefix : CString → CString → Bool
unfolding path_is_under
path_has_prefix path prefix = path_is_under prefix path

-- A string that is never NULL here; of NULL the test would be undefined, and is false.
abbrev pub holds_for : (CString → Bool) → Option CString → Bool
holds_for test none = false
holds_for test (some s) = test s

-- `strcmp(s, text) == 0`
abbrev pub is_text : CString → Option CString → Bool
is_text text s = holds_for (λ t. str_eq t text) s

-- `landlockd_broker_path_in_list`
unfoldable pub path_in_list : PathRules → CString → Bool
path_in_list paths path = any (is_text path) (items_of paths)

-- `landlockd_broker_path_under_list`
unfoldable pub path_under_list : PathRules → CString → Bool
unfolding path_is_under
path_under_list paths path = any (holds_for (λ root. path_is_under root path)) (items_of paths)

-- The loops that return the first rule that fits.
unfoldable pub find_first : {A : Type 0} → (A → Bool) → List A → Option A
find_first test [] = none
find_first test (x ∷ xs) = if test x then some x else find_first test xs

-- `landlockd_broker_find_bind_mount_rule`
unfoldable pub find_bind_mount_rule : Array BindRule → CString → CString → Option BindRule
unfolding find_first
find_bind_mount_rule rules source target =
    find_first (λ r. is_text source r.source && is_text target r.target) (items_of rules)

-- `landlockd_broker_find_mount_object_rule`
unfoldable pub find_mount_object_rule : Array ObjectRule → CString → Option ObjectRule
unfolding find_first
find_mount_object_rule rules name = find_first (λ r. is_text name r.name) (items_of rules)

-- `landlockd_broker_find_mount_object_rule_for_target`
unfoldable pub find_mount_object_rule_for_target : Array ObjectRule → CString → Option ObjectRule
unfolding find_first
find_mount_object_rule_for_target rules target =
    find_first (λ r. any (is_text target) (items_of r.attach_paths)) (items_of rules)

-- `landlockd_broker_mount_object_target_allowed`
unfoldable pub mount_object_target_allowed : Option ObjectRule → Option CString → Bool
mount_object_target_allowed none target = false
mount_object_target_allowed (some r) none = false
mount_object_target_allowed (some r) (some target) = any (is_text target) (items_of r.attach_paths)

-- `landlockd_broker_bind_target_in_list`
unfoldable pub bind_target_in_list : Array BindRule → CString → Bool
bind_target_in_list rules target = any (λ r. is_text target r.target) (items_of rules)

abbrev pub o_rdonly : ℕ
o_rdonly = 0

abbrev pub o_wronly : ℕ
o_wronly = 1

abbrev pub o_rdwr : ℕ
o_rdwr = 2

-- `landlockd_broker_is_allowed`
unfoldable pub is_allowed : Allowlist → CString → ℕ → Bool
unfolding path_in_list
is_allowed allowlist path access_mode =
    if access_mode == o_rdonly
    then path_in_list allowlist.read_paths path || path_in_list allowlist.write_paths path
    else if access_mode == o_wronly || access_mode == o_rdwr
    then path_in_list allowlist.write_paths path
    else false

-- `mode == NULL || rule->mode == NULL || strcmp(rule->mode, mode) == 0`
abbrev pub mode_fits : Option CString → Option CString → Bool
mode_fits none rule_mode = true
mode_fits (some mode) none = true
mode_fits (some mode) (some rule_mode) = str_eq rule_mode mode

abbrev pub addfd_rule_fits : CString → CString → Option CString → AddfdRule → Bool
addfd_rule_fits action target mode r =
    is_text action r.action
    && mode_fits mode r.mode
    && holds_for (λ root. path_is_under root target) r.target

-- `landlockd_broker_addfd_allowed`, of pointers that may be NULL.
unfoldable pub addfd_allowed :
    Option Allowlist → Option CString → Option CString → Option CString → Bool
unfolding path_is_under
addfd_allowed none action target mode = false
addfd_allowed (some allowlist) none target mode = false
addfd_allowed (some allowlist) (some action) none mode = false
addfd_allowed (some allowlist) (some action) (some target) mode =
    any (addfd_rule_fits action target mode) (items_of allowlist.addfd_rules)

abbrev pub all_of : {A : Type 0} → (A → Bool) → List A → Bool
all_of test [] = true
all_of test (x ∷ xs) = test x && all_of test xs

-- `landlockd_broker_mount_object_addfd_covers_action`
unfoldable pub mount_object_addfd_covers_action :
    Option Allowlist → Option CString → ObjectRule → Bool
unfolding addfd_allowed
mount_object_addfd_covers_action allowlist action r =
    if length (items_of r.attach_paths) == 0
    then false
    else all_of (λ path. addfd_allowed allowlist action path none) (items_of r.attach_paths)

-- `landlockd_broker_addfd_mode_name`
unfoldable pub addfd_mode_name : ℕ → CString
addfd_mode_name access_mode = if access_mode == o_rdonly then codes "read" else codes "write"
