-- ===== src/FsPolicy/Checked.antt =====
-- What is compiled of a list of file system layers, and who owns the descriptors.
use landlock.Base.{
  ℕ, ◌≡◌, ◌≢◌, ◌⊎◌, ◌↔◌, refl, arith, Bool, true, ◌&&◌, Option, none, some, List, [], ◌∷◌, All,
}
use landlock.Sys.{World, done, failed}
use landlock.Sys.Types.{Kernel}
use landlock.Sys.Errno.{einval}
use landlock.Sys.Descriptors.{DescriptorsFit}
use landlock.Ir.{FsRule, items}
use landlock.Compiler.{Rulesets, non_null}
use landlock.Compiler.Calls.{create_fs_ruleset-Created}
use landlock.Compiler.Leaks.{IsAccounted, add_path_rules-Balanced}
use landlock.Compiler.NoLeak.{Owned, compile-Owned}
use landlock.FsPolicy.{
  FsLayer, FsPolicy, rules_ok, layer_ok, layers_ok, validate_fs_policy, policy_maker, fs_layers_of,
  compile_fs_policy,
}

validate_fs_policy-ends :
    (p : FsPolicy) (k : Kernel) (w : World)
    → (validate_fs_policy p k w ≡ done tt w)
      ⊎ (validate_fs_policy p k w ≡ failed (record w { errno = einval }))
unfolding validate_fs_policy
validate_fs_policy-ends p k w = ground arith

policy-IsAccounted : (n : ℕ) (k : Kernel) → DescriptorsFit k → IsAccounted policy_maker n k
policy-IsAccounted n k fit = record {
  created = λ w handled. create_fs_ruleset-Created n k w handled fit;
  ruled = λ w fd l. add_path_rules-Balanced n k (non_null (items l.rule_count l.rules)) w fd;
}

-- A compilation of any list of file system layers, whatever a kernel answers whose descriptors fit an
-- `int`: each descriptor that `landlockd_compile_fs_policy` opens, counted for any number `n`, is
-- closed again or in the `out` that it leaves; and unless it succeeds, `out` is empty.
pub compile_fs_policy-Owned :
    (n : ℕ) (p : FsPolicy) (before : Rulesets) (k : Kernel) (w : World)
    → DescriptorsFit k
    → Owned n w (compile_fs_policy (some p) (some before) k w)
unfolding compile_fs_policy
compile_fs_policy-Owned n p before k w fit =
    compile-Owned n k policy_maker (policy-IsAccounted n k fit) (validate_fs_policy p)
      (fs_layers_of p) w (validate_fs_policy-ends p k w)

-- A rule is there, with a path and some right.
abbrev IsRule : Option FsRule → Type 0
IsRule none = ⊥
IsRule (some r) = (r.path ≢ none) × (r.allowed_access ≢ 0)

-- A layer is there, handles some right, has its rules, and they are rules.
abbrev pub IsLayer : Option FsLayer → Type 0
IsLayer none = ⊥
IsLayer (some l) =
    (l.handled_access_fs ≢ 0)
    × ((l.rule_count ≡ 0) ⊎ (l.rules ≢ none))
    × All IsRule (items l.rule_count l.rules)

and_left : (a b : Bool) → (a && b) ≡ true → a ≡ true
and_left a b h = ground arith

and_right : (a b : Bool) → (a && b) ≡ true → b ≡ true
and_right a b h = ground arith

rules_iff : (rs : List (Option FsRule)) → (rules_ok rs ≡ true) ↔ All IsRule rs
rules_iff [] = (λ _. tt, λ _. refl)
rules_iff (none ∷ rs) = (λ e. cc, λ v. absurd v.0)
rules_iff (some r ∷ rs) =
    let rest = rules_iff rs in
    (
      λ e. ((ground arith, ground arith), rest.0 (ground arith)),
      λ (own, later). ground (arith, rest.1 later),
    )

IsLayer-iff : (l : Option FsLayer) → (layer_ok l ≡ true) ↔ IsLayer l
IsLayer-iff none = (λ e. cc, λ v. absurd v)
IsLayer-iff (some l) =
    let rules = rules_iff (items l.rule_count l.rules) in
    (
      λ e. (ground arith, ground arith, rules.0 (ground arith)),
      λ (handles, there, rs). ground (arith, rules.1 rs),
    )

layers_iff : (ls : List (Option FsLayer)) → (layers_ok ls ≡ true) ↔ All IsLayer ls
layers_iff [] = (λ _. tt, λ _. refl)
layers_iff (l ∷ ls) =
    let own = IsLayer-iff l in
    let rest = layers_iff ls in
    (
      λ e. (
        own.0 (and_left (layer_ok l) (layers_ok ls) e),
        rest.0 (and_right (layer_ok l) (layers_ok ls) e),
      ),
      λ (v, vs). rw (own.1 v, rest.1 vs) refl,
    )

-- `landlockd_validate_fs_policy` accepts exactly the policies whose layers are all there, handle some
-- right and have only rules with a path and some right, and then changes nothing; no layers at all
-- are accepted too.
pub validate_fs_policy_iff :
    (p : FsPolicy) (k : Kernel) (w : World)
    → (validate_fs_policy p k w ≡ done tt w) ↔ (
        ((p.fs_layer_count ≡ 0) ⊎ (p.fs_layers ≢ none))
        × All IsLayer (items p.fs_layer_count p.fs_layers))
unfolding validate_fs_policy
validate_fs_policy_iff p k w =
    let layers = layers_iff (items p.fs_layer_count p.fs_layers) in
    (λ e. (ground arith, layers.0 (ground arith)), λ (there, ls). ground (arith, layers.1 ls))
