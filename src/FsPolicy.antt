-- ===== src/FsPolicy.antt =====
-- src/landlock_policy.c: a list of file system layers becomes rulesets. After its own validation it
-- does what src/policy_compiler.c does.
pub mod Checked
use landlock.Base.{ℕ, Bool, true, false, ◌&&◌, ◌||◌, not, ltb, ◌==◌, if◌then◌else◌}
use landlock.Base.{Option, none, some, List, [], ◌∷◌}
use landlock.Sys.{M, done, failed, pure, fail_with}
use landlock.Sys.Types.{CString}
use landlock.Sys.Errno.{einval}
use landlock.Ir.{FsRule, items, is_null}
use landlock.Ruleset.Access.{create_fs_ruleset}
use landlock.Compiler.{
  Rulesets, Compiled, Maker, non_null, add_path_rules, compile, compiled_rulesets_cleanup, checked,
}

-- `struct landlockd_policy_fs_layer`; its rules are pointers to the same two fields as in Ir.antt.
pub record FsLayer : Type 0 where
  pub handled_access_fs : ℕ
  pub rule_count : ℕ
  pub rules : Option (List (Option FsRule))

-- `struct landlockd_policy`
pub record FsPolicy : Type 0 where
  pub fs_layer_count : ℕ
  pub fs_layers : Option (List (Option FsLayer))

abbrev pub rule_ok : Option FsRule → Bool
rule_ok none = false
rule_ok (some r) = not (is_null r.path || r.allowed_access == 0)

abbrev pub rules_ok : List (Option FsRule) → Bool
rules_ok [] = true
rules_ok (r ∷ rs) = rule_ok r && rules_ok rs

abbrev pub layer_ok : Option FsLayer → Bool
layer_ok none = false
layer_ok (some l) =
    if l.handled_access_fs == 0
    then false
    else if ltb 0 l.rule_count && is_null l.rules
    then false
    else rules_ok (items l.rule_count l.rules)

abbrev pub layers_ok : List (Option FsLayer) → Bool
layers_ok [] = true
layers_ok (l ∷ ls) = layer_ok l && layers_ok ls

-- `landlockd_validate_fs_policy`
unfoldable pub validate_fs_policy : FsPolicy → M (Unit {0})
validate_fs_policy p =
    if ltb 0 p.fs_layer_count && is_null p.fs_layers
    then fail_with einval
    else if layers_ok (items p.fs_layer_count p.fs_layers)
    then pure tt
    else fail_with einval

-- `landlockd_compiled_policy_cleanup`; `struct landlockd_compiled_policy` has the two fields of
-- `struct landlockd_compiled_rulesets`, and `none` is NULL.
unfoldable pub compiled_policy_cleanup : Option Rulesets → M (Option Rulesets)
compiled_policy_cleanup none = pure none
compiled_policy_cleanup (some r) = λ k w. elim (compiled_rulesets_cleanup r k w) [
  | done r' v ↦ done (some r') v
  | failed v ↦ failed v
]

abbrev pub policy_maker : Maker FsLayer
policy_maker = record {
  wanted = λ l. true;
  handled = λ l. l.handled_access_fs;
  create = create_fs_ruleset;
  add_rules = λ fd l. add_path_rules fd (non_null (items l.rule_count l.rules));
}

abbrev pub fs_layers_of : FsPolicy → List FsLayer
fs_layers_of p = non_null (items p.fs_layer_count p.fs_layers)

-- `landlockd_compile_fs_policy`
unfoldable pub compile_fs_policy : Option FsPolicy → Option Rulesets → M Compiled
compile_fs_policy = checked (λ p. compile policy_maker (validate_fs_policy p) (fs_layers_of p))
