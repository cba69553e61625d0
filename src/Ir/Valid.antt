-- ===== src/Ir/Valid.antt =====
-- What a valid policy is, and that the validation accepts exactly these.
use landlock.Base.{ℕ, suc, ◌≡◌, ◌≢◌, ◌⊎◌, ◌↔◌, refl, arith, Bool, true, false, ◌&&◌, not}
use landlock.Base.{Option, none, some, List, [], ◌∷◌, All, is_neg, ◌==◌, ◌||◌}
use landlock.Sys.{World, done, failed}
use landlock.Sys.Types.{Kernel}
use landlock.Sys.Errno.{einval}
use landlock.Ir.{
  Kind, fs, net, exception, other, FsRule, NetRule, ExceptionRule, Layer, Policy, items, is_null,
  all, validate_fs_layer, validate_net_layer, validate_exception_layer, validate_kind,
  validate_layers, policy_validate,
}

-- A file system layer handles some right and has path rules only, each with a path and some right.
pub record IsFsLayer (l : Layer) : Type 0 where
  pub only_fs : (l.net_rules ≡ none) × (l.exception_rules ≡ none)
  pub handles : l.handled_access ≢ 0
  pub present : (l.rule_count ≡ 0) ⊎ (l.fs_rules ≢ none)
  pub rules : All (λ r. (r.path ≢ none) × (r.allowed_access ≢ 0)) (items l.rule_count l.fs_rules)

-- A network layer handles some right and has port rules only, each with some right.
pub record IsNetLayer (l : Layer) : Type 0 where
  pub only_net : (l.fs_rules ≡ none) × (l.exception_rules ≡ none)
  pub handles : l.handled_access ≢ 0
  pub present : (l.rule_count ≡ 0) ⊎ (l.net_rules ≢ none)
  pub rules : All (λ r. r.allowed_access ≢ 0) (items l.rule_count l.net_rules)

-- An exception layer handles no right and has exception rules only, at least one, each with a
-- system call number that is not negative.
pub record IsExceptionLayer (l : Layer) : Type 0 where
  pub only_exception : (l.fs_rules ≡ none) × (l.net_rules ≡ none)
  pub handles_none : l.handled_access ≡ 0
  pub present : (l.rule_count ≢ 0) × (l.exception_rules ≢ none)
  pub rules : All (λ r. is_neg r.syscall_nr ≡ false) (items l.rule_count l.exception_rules)

abbrev pub IsLayer : Kind → Layer → Type 0
IsLayer fs l = IsFsLayer l
IsLayer net l = IsNetLayer l
IsLayer exception l = IsExceptionLayer l
IsLayer other l = ⊥

-- Every pointer leads to a valid layer, and the layers are numbered from `i`.
abbrev pub AreLayers : ℕ → List (Option Layer) → Type 0
AreLayers i [] = Unit
AreLayers i (none ∷ ls) = ⊥
AreLayers i (some l ∷ ls) = (l.order ≡ i) × IsLayer l.kind l × AreLayers (suc i) ls

pub record IsPolicy (p : Policy) : Type 0 where
  pub named : (p.name ≢ none) × (p.name ≢ some [])
  pub some_layer : (p.layer_count ≢ 0) × (p.layers ≢ none)
  pub layers : AreLayers 0 (items p.layer_count p.layers)

and_true : (a b : Bool) → (a && b) ≡ true → (a ≡ true) × (b ≡ true)
and_true a b h = ground arith

all_iff {ℓ} :
    {A : Type ℓ} (t : A → Bool) (P : A → Type 0)
    → ((a : A) → (t a ≡ true) ↔ P a)
    → (xs : List A) → (all t xs ≡ true) ↔ All P xs
all_iff t P h [] = (λ _. tt, λ _. refl)
all_iff t P h (x ∷ xs) =
    let rest = all_iff t P h xs in
    (
      λ e. let (first, later) = and_true (t x) (all t xs) e in ((h x).0 first, rest.0 later),
      λ (p, ps). rw ((h x).1 p, rest.1 ps) refl,
    )

abbrev fs_rule_ok : FsRule → Bool
fs_rule_ok r = not (is_null r.path || r.allowed_access == 0)

abbrev IsFsRule : FsRule → Type 0
IsFsRule r = (r.path ≢ none) × (r.allowed_access ≢ 0)

fs_rule_iff : (r : FsRule) → (fs_rule_ok r ≡ true) ↔ IsFsRule r
fs_rule_iff r = ground arith

IsFsLayer-iff : (l : Layer) → (validate_fs_layer l ≡ true) ↔ IsFsLayer l
unfolding validate_fs_layer
IsFsLayer-iff l =
    let rules = all_iff fs_rule_ok IsFsRule fs_rule_iff (items l.rule_count l.fs_rules) in
    (
      λ e. record {
        only_fs = ground arith;
        handles = ground arith;
        present = ground arith;
        rules = rules.0 (ground arith);
      },
      λ v. ground (arith, rules.1 v.rules),
    )

abbrev net_rule_ok : NetRule → Bool
net_rule_ok r = not (r.allowed_access == 0)

abbrev IsNetRule : NetRule → Type 0
IsNetRule r = r.allowed_access ≢ 0

net_rule_iff : (r : NetRule) → (net_rule_ok r ≡ true) ↔ IsNetRule r
net_rule_iff r = ground arith

IsNetLayer-iff : (l : Layer) → (validate_net_layer l ≡ true) ↔ IsNetLayer l
unfolding validate_net_layer
IsNetLayer-iff l =
    let rules = all_iff net_rule_ok IsNetRule net_rule_iff (items l.rule_count l.net_rules) in
    (
      λ e. record {
        only_net = ground arith;
        handles = ground arith;
        present = ground arith;
        rules = rules.0 (ground arith);
      },
      λ v. ground (arith, rules.1 v.rules),
    )

abbrev exception_rule_ok : ExceptionRule → Bool
exception_rule_ok r = not (is_neg r.syscall_nr)

abbrev IsExceptionRule : ExceptionRule → Type 0
IsExceptionRule r = is_neg r.syscall_nr ≡ false

exception_rule_iff : (r : ExceptionRule) → (exception_rule_ok r ≡ true) ↔ IsExceptionRule r
exception_rule_iff r = ground arith

IsExceptionLayer-iff : (l : Layer) → (validate_exception_layer l ≡ true) ↔ IsExceptionLayer l
unfolding validate_exception_layer
IsExceptionLayer-iff l =
    let rules =
      all_iff exception_rule_ok IsExceptionRule exception_rule_iff
        (items l.rule_count l.exception_rules) in
    (
      λ e. record {
        only_exception = ground arith;
        handles_none = ground arith;
        present = ground arith;
        rules = rules.0 (ground arith);
      },
      λ v. ground (arith, rules.1 v.rules),
    )

kind_iff : (kind : Kind) (l : Layer) → (validate_kind kind l ≡ true) ↔ IsLayer kind l
unfolding validate_kind
kind_iff fs l = IsFsLayer-iff l
kind_iff net l = IsNetLayer-iff l
kind_iff exception l = IsExceptionLayer-iff l
kind_iff other l = (λ e. cc, λ v. absurd v)

layers_iff : (i : ℕ) (ls : List (Option Layer)) → (validate_layers i ls ≡ true) ↔ AreLayers i ls
unfolding validate_layers
layers_iff i [] = (λ _. tt, λ _. refl)
layers_iff i (none ∷ ls) = (λ e. cc, λ v. absurd v)
layers_iff i (some l ∷ ls) =
    let kind = kind_iff l.kind l in
    let rest = layers_iff (suc i) ls in
    (
      λ e.
          let own : validate_kind l.kind l ≡ true = ground arith in
          let later : validate_layers (suc i) ls ≡ true = ground arith in
          (ground arith, kind.0 own, rest.0 later),
      λ (at, own, later). ground (arith, kind.1 own, rest.1 later),
    )

-- `landlockd_ir_policy_validate` accepts exactly the valid policies, and then changes nothing.
pub policy_validate_iff :
    (p : Policy) (k : Kernel) (w : World) → (policy_validate (some p) k w ≡ done tt w) ↔ IsPolicy p
unfolding policy_validate
policy_validate_iff p k w =
    let layers = layers_iff 0 (items p.layer_count p.layers) in
    (
      λ e. record {
        named = ground arith;
        some_layer = ground arith;
        layers = layers.0 (ground arith);
      },
      λ v. ground (arith, layers.1 v.layers),
    )

-- The validation of a policy, or of NULL, ends in one of two ways, with no call made: it succeeds
-- and changes nothing, or it fails with `EINVAL`.
pub policy_validate_refuses :
    (p : Option Policy) (k : Kernel) (w : World)
    → (policy_validate p k w ≡ done tt w)
      ⊎ (policy_validate p k w ≡ failed (record w { errno = einval }))
unfolding policy_validate
policy_validate_refuses p k w = ground arith
