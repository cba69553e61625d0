-- ===== src/Document/AddedRules.antt =====
-- src/landlock_policy_ir.c: the functions for rules of layers, objects and descriptors, and any call,
-- against the specification.
use landlock.Base.{ℕ, zero, suc, ◌+◌, ◌≡◌, refl, sym, ap, arith, ◌==◌}
use landlock.Base.{Option, none, some, List, [], ◌∷◌, drop, set}
use landlock.Sys.Types.{CString}
use landlock.Memory.{Array, items_of}
use landlock.Memory.Account.{string_blocks, array_blocks, total}
use landlock.Memory.Gains.{appended, first_block, array_blocks-appended}
use landlock.Ir.{FsRule}
use landlock.Document.Types.{Document, DocumentLayer, AddfdRule}
use landlock.Document.Add.{in_layer, document_add_fs_rule, kept_mode, mode_blocks, add_addfd_rule}
use landlock.Document.Operations.{Operation, fs_rule, addfd_rule}
use landlock.Document.Spec.{extended, in_layer_spec}
use landlock.Document.Wellformed.{layer_blocks, fs_rule_blocks, addfd_blocks}
use landlock.Document.AddedParts.{guarded_rest}
use landlock.Document.Added.{Adds, Refuses, Does, refused, first_string, next_string, append-Takes}

total-set :
    {A : Type 0} (b : A → ℕ) (xs : List A) (i : ℕ) (x : A) (rest : List A) (y : A)
    → drop i xs ≡ x ∷ rest
    → total b (set xs i y) + b x ≡ total b xs + b y
total-set b [] zero x rest y h = cc
total-set b [] (suc i) x rest y h = cc
total-set b (z ∷ xs) zero x rest y h = let same : z ≡ x = cc in omega (arith, ap b same)
total-set b (z ∷ xs) (suc i) x rest y h = omega (arith, total-set b xs i x rest y h)

array_blocks-set :
    {A : Type 0} (b : A → ℕ) (xs : Array A) (i : ℕ) (x : A) (rest : List A) (y : A)
    → drop i (items_of xs) ≡ x ∷ rest
    → array_blocks b (some (set (items_of xs) i y)) + b x ≡ array_blocks b xs + b y
array_blocks-set b none zero x rest y h = cc
array_blocks-set b none (suc i) x rest y h = cc
array_blocks-set b (some xs) i x rest y h = omega (arith, total-set b xs i x rest y h)

in_layer-Does :
    (i : ℕ) (s : CString) (allowed : ℕ) (d : Document) (ls : List DocumentLayer)
    → extended (fs_rule i (some s) allowed) d ≡ in_layer_spec d i (some s) allowed ls
    → drop i (items_of d.fs_layers) ≡ ls
    → Does (fs_rule i (some s) allowed) d (in_layer d i (some s) allowed ls)
in_layer-Does i s allowed d [] e h = refused (fs_rule i (some s) allowed) d e
in_layer-Does i s allowed d (l ∷ ls) e h =
    let op : Operation = fs_rule i (some s) allowed in
    let r : FsRule = record { path = some s; allowed_access = allowed } in
    let n : ℕ = 1 + (first_block l.rules + 0) in
    (
      n,
      first_string (Refuses op d) (Adds op d n) _ s _ (
          append-Takes (Refuses op d) (Adds op d n) 1 l.rules r
            (λ rs. record d {
              fs_layers = some (set (items_of d.fs_layers) i (record l { rules = rs }));
            })
            (
              e,
              omega (
                arith,
                array_blocks-appended fs_rule_blocks l.rules r,
                array_blocks-set layer_blocks d.fs_layers i l ls
                    (record l { rules = appended l.rules r }) h,
              ),
            )),
    )

pub document_add_fs_rule-Does :
    (i : ℕ) (path : Option CString) (allowed : ℕ) (d : Document)
    → Does (fs_rule i path allowed) d (document_add_fs_rule d i path allowed)
unfolding document_add_fs_rule extended
document_add_fs_rule-Does i none allowed d = refused (fs_rule i none allowed) d refl
document_add_fs_rule-Does i (some s) allowed d =
    let ls : List DocumentLayer = drop i (items_of d.fs_layers) in
    guarded_rest (fs_rule i (some s) allowed) d (allowed == 0) (in_layer d i (some s) allowed ls)
      (in_layer_spec d i (some s) allowed ls) refl (λ e. in_layer-Does i s allowed d ls e refl)

addfd_mode : (mode : Option CString) → string_blocks (kept_mode mode) ≡ mode_blocks mode
addfd_mode none = refl
addfd_mode (some []) = refl
addfd_mode (some (c ∷ cs)) = refl

pub add_addfd_rule-Does :
    (action target mode : Option CString) (d : Document)
    → Does (addfd_rule action target mode) d (add_addfd_rule d action target mode)
unfolding add_addfd_rule extended
add_addfd_rule-Does none target mode d = refused (addfd_rule none target mode) d refl
add_addfd_rule-Does (some []) target mode d = refused (addfd_rule (some []) target mode) d refl
add_addfd_rule-Does (some (b ∷ bs)) none mode d =
    refused (addfd_rule (some (b ∷ bs)) none mode) d refl
add_addfd_rule-Does (some (b ∷ bs)) (some []) mode d =
    refused (addfd_rule (some (b ∷ bs)) (some []) mode) d refl
add_addfd_rule-Does (some (b ∷ bs)) (some (c ∷ cs)) mode d =
    let action : Option CString = some (b ∷ bs) in
    let target : Option CString = some (c ∷ cs) in
    let op : Operation = addfd_rule action target mode in
    let xs : Array AddfdRule = d.broker_addfd_rules in
    let x : AddfdRule = record { action = action; target = target; mode = kept_mode mode } in
    let n : ℕ = 1 + (1 + (string_blocks (kept_mode mode) + (first_block xs + 0))) in
    (
      n,
      rw (sym (addfd_mode mode)) (
          first_string (Refuses op d) (Adds op d n) _ (b ∷ bs) _ (
            next_string (Refuses op d) (Adds op d n) 1 _ target _ (
              next_string (Refuses op d) (Adds op d n) 2 _ (kept_mode mode) _ (
                append-Takes (Refuses op d) (Adds op d n) (2 + string_blocks (kept_mode mode)) xs x
                  (λ rs. record d { broker_addfd_rules = rs })
                  (refl, omega (arith, array_blocks-appended addfd_blocks xs x)))))),
    )
