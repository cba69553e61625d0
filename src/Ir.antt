-- ===== src/Ir.antt =====
-- src/policy_ir.c: the intermediate representation of a policy and its validation.
-- A pointer is an `Option`, `none` for NULL; an array is a list of at least as many items as its
-- count says, of which the code reads as many as the count.
pub mod Valid
use landlock.Base.{ℕ, ℤ, suc, Bool, true, false, ◌&&◌, ◌||◌, not, Option, none, some, List, [], ◌∷◌}
use landlock.Base.{is_neg, ltb, ◌==◌, take, if◌then◌else◌}
use landlock.Sys.{M, pure, fail_with}
use landlock.Sys.Types.{CString}
use landlock.Sys.Errno.{einval}

-- `enum landlockd_ir_layer_kind`; `other` is any number that is not one of its three.
pub data Kind : Type 0 where
  fs net exception other : Kind

pub record FsRule : Type 0 where
  pub path : Option CString
  pub allowed_access : ℕ

pub record NetRule : Type 0 where
  pub port : ℕ
  pub allowed_access : ℕ

pub record ExceptionRule : Type 0 where
  pub syscall_nr : ℤ

-- `struct landlockd_ir_layer`
pub record Layer : Type 0 where
  pub kind : Kind
  pub order : ℕ
  pub handled_access : ℕ
  pub rule_count : ℕ
  pub fs_rules : Option (List FsRule)
  pub net_rules : Option (List NetRule)
  pub exception_rules : Option (List ExceptionRule)

-- `struct landlockd_ir_policy`
pub record Policy : Type 0 where
  pub name : Option CString
  pub layer_count : ℕ
  pub layers : Option (List (Option Layer))

-- The first `count` items of an array.
abbrev pub items {ℓ} : {A : Type ℓ} → ℕ → Option (List A) → List A
items count none = []
items count (some xs) = take count xs

abbrev pub is_null {ℓ} : {A : Type ℓ} → Option A → Bool
is_null none = true
is_null (some a) = false

-- The loops over the rules: every rule passes.
abbrev pub all {ℓ} : {A : Type ℓ} → (A → Bool) → List A → Bool
all p [] = true
all p (x ∷ xs) = p x && all p xs

-- `validate_fs_layer`, true for 0 and false for -1
unfoldable pub validate_fs_layer : Layer → Bool
validate_fs_layer l =
    if not (is_null l.net_rules) || not (is_null l.exception_rules)
    then false
    else if l.handled_access == 0
    then false
    else if ltb 0 l.rule_count && is_null l.fs_rules
    then false
    else all (λ r. not (is_null r.path || r.allowed_access == 0)) (items l.rule_count l.fs_rules)

-- `validate_net_layer`
unfoldable pub validate_net_layer : Layer → Bool
validate_net_layer l =
    if not (is_null l.fs_rules) || not (is_null l.exception_rules)
    then false
    else if l.handled_access == 0
    then false
    else if ltb 0 l.rule_count && is_null l.net_rules
    then false
    else all (λ r. not (r.allowed_access == 0)) (items l.rule_count l.net_rules)

-- `validate_exception_layer`
unfoldable pub validate_exception_layer : Layer → Bool
validate_exception_layer l =
    if not (is_null l.fs_rules) || not (is_null l.net_rules)
    then false
    else if not (l.handled_access == 0)
    then false
    else if l.rule_count == 0 || is_null l.exception_rules
    then false
    else all (λ r. not (is_neg r.syscall_nr)) (items l.rule_count l.exception_rules)

-- The `switch` of the loop.
validate_kind : Kind → Layer → Bool
validate_kind fs l = validate_fs_layer l
validate_kind net l = validate_net_layer l
validate_kind exception l = validate_exception_layer l
validate_kind other l = false

-- The loop over the layers, from index `i`.
validate_layers : ℕ → List (Option Layer) → Bool
validate_layers i [] = true
validate_layers i (none ∷ ls) = false
validate_layers i (some l ∷ ls) =
    l.order == i && validate_kind l.kind l && validate_layers (suc i) ls

has_name : Option CString → Bool
has_name none = false
has_name (some []) = false
has_name (some (c ∷ cs)) = true

-- `landlockd_ir_policy_validate`
unfoldable pub policy_validate : Option Policy → M (Unit {0})
unfolding validate_layers validate_kind has_name validate_fs_layer validate_net_layer
    validate_exception_layer
policy_validate none = fail_with einval
policy_validate (some p) =
    if not (has_name p.name)
    then fail_with einval
    else if p.layer_count == 0 || is_null p.layers
    then fail_with einval
    else if validate_layers 0 (items p.layer_count p.layers)
    then pure tt
    else fail_with einval
