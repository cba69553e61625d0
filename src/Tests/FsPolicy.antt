-- ===== src/Tests/FsPolicy.antt =====
-- A list of one file system layer.
use landlock.Base.{◌≡◌, ◌≢◌, ◌⊎◌, ◌↔◌, codes, none, some, [], ◌∷◌, All}
use landlock.Sys.{fresh, done}
use landlock.Ir.{items}
use landlock.Compiler.{no_rulesets}
use landlock.Compiler.NoLeak.{Owned}
use landlock.FsPolicy.{FsLayer, FsPolicy, validate_fs_policy, compile_fs_policy}
use landlock.FsPolicy.Checked.{IsLayer, validate_fs_policy_iff, compile_fs_policy-Owned}
use landlock.Tests.Kernels.{granting, granting-DescriptorsFit}

abbrev usr_layer : FsLayer
usr_layer = record {
  handled_access_fs = 0x1fff;
  rule_count = 1;
  rules = some (some (record { path = some (codes "/usr"); allowed_access = 5 }) ∷ []);
}

abbrev usr_policy : FsPolicy
usr_policy = record { fs_layer_count = 1; fs_layers = some (some usr_layer ∷ []) }

compile_fs_policy-Owned_example :
    Owned 6 fresh (compile_fs_policy (some usr_policy) (some no_rulesets) granting fresh)
compile_fs_policy-Owned_example =
    compile_fs_policy-Owned 6 usr_policy no_rulesets granting fresh granting-DescriptorsFit

validate_fs_policy_iff_example : (validate_fs_policy usr_policy granting fresh ≡ done tt fresh) ↔ (
    ((usr_policy.fs_layer_count ≡ 0) ⊎ (usr_policy.fs_layers ≢ none))
    × All IsLayer (items 1 usr_policy.fs_layers))
validate_fs_policy_iff_example = validate_fs_policy_iff usr_policy granting fresh
