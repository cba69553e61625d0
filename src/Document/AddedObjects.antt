-- ===== src/Document/AddedObjects.antt =====
-- src/landlock_policy_ir.c, `landlockd_policy_ir_add_broker_mount_object_rule`, against its
-- specification: the attach paths are copied one by one, and an empty one is refused on the way.
use landlock.Base.{
  ℕ, suc, ◌+◌, ◌≡◌, refl, ap, ◌∙◌, arith, Bool, true, false, ◌||◌, ◌==◌, if◌then◌else◌,
}
use landlock.Base.{Option, none, some, List, [], ◌∷◌, length}
use landlock.Sys.{pure, fail_with, call, ◌>>=◌}
use landlock.Sys.Types.{CString, Call}
use landlock.Sys.Errno.{einval}
use landlock.Memory.{Array, is_blank, strdup, grown, or_free}
use landlock.Memory.Account.{string_blocks, total, Anything}
use landlock.Memory.Gains.{
  Takes, Is, appended, first_block, pure-Takes, fail_with-Takes, bind-Takes, or_free-Takes,
  strdup-Takes, call-Takes, weaken-Takes, map-Takes, array_blocks-appended,
}
use landlock.Document.Types.{Document, ObjectRule}
use landlock.Document.Add.{attach_copies, add_object_rule}
use landlock.Document.Operations.{Operation, object_rule}
use landlock.Document.Spec.{extended, unless, any_blank}
use landlock.Document.Wellformed.{object_blocks}
use landlock.Document.AddedParts.{guarded_rest}
use landlock.Document.Added.{Adds, Refuses, Does, refused, first_string, next_string, append-Takes}

-- The paths, none of which is empty.
abbrev AllCopied : List (Option CString) → List (Option CString) → Type 0
AllCopied ps qs = (qs ≡ ps) × (any_blank ps ≡ false)

named_blocks : (p : Option CString) → is_blank p ≡ false → string_blocks p ≡ 1
named_blocks none h = cc
named_blocks (some s) h = refl

total-named :
    (ps : List (Option CString)) → any_blank ps ≡ false → total string_blocks ps ≡ length ps
total-named [] h = refl
total-named (none ∷ ps) h = cc
total-named (some [] ∷ ps) h = cc
total-named (some (c ∷ cs) ∷ ps) h = omega (arith, total-named ps h)

or_true : (b : Bool) → (b || true) ≡ true
or_true true = refl
or_true false = refl

abbrev CopiedOne : Option CString → Option CString → Type 0
CopiedOne p q = (q ≡ p) × (is_blank p ≡ false)

module _ (Bad : Type 0) where
  refused_copy :
      (held : ℕ) (p : Option CString)
      → Bad
      → Takes Bad held (string_blocks p) (CopiedOne p) (or_free held (fail_with einval))
  refused_copy held p b =
      or_free-Takes Bad held (string_blocks p) (CopiedOne p) (fail_with einval)
        (fail_with-Takes Bad (string_blocks p) einval (CopiedOne p) b)

  attach_copy-Takes :
      (held : ℕ) (p : Option CString)
      → (is_blank p ≡ true → Bad)
      → Takes Bad held
          (string_blocks p)
          (CopiedOne p)
          (or_free held (if is_blank p then fail_with einval else strdup p))
  attach_copy-Takes held none h = refused_copy held none (h refl)
  attach_copy-Takes held (some []) h = refused_copy held (some []) (h refl)
  attach_copy-Takes held (some (c ∷ cs)) h =
      let p : Option CString = some (c ∷ cs) in
      or_free-Takes Bad held 1 (CopiedOne p) (strdup p) (
        weaken-Takes Bad 0 1 (Is p) (CopiedOne p) (strdup p) (λ q e. (e, refl))
          (strdup-Takes Bad p))

  attach_copies-Takes :
      (held : ℕ) (ps : List (Option CString))
      → (any_blank ps ≡ true → Bad)
      → Takes Bad held (total string_blocks ps) (AllCopied ps) (attach_copies held ps)
  unfolding attach_copies
  attach_copies-Takes held [] h = pure-Takes Bad held (AllCopied []) [] (refl, refl)
  attach_copies-Takes held (p ∷ ps) h =
      bind-Takes Bad held (string_blocks p) (total string_blocks ps) (CopiedOne p)
        (AllCopied (p ∷ ps)) _ _ (attach_copy-Takes held p (λ b. h (rw b refl)))
        (λ q e. rest q e (attach_copies-Takes (suc held) ps (λ b. h (rw b (or_true (is_blank p))))))
    where
      rest :
          (q : Option CString)
          → CopiedOne p q
          → Takes Bad
              (suc held)
              (total string_blocks ps)
              (AllCopied ps)
              (attach_copies (suc held) ps)
          → Takes Bad
              (held + string_blocks p)
              (total string_blocks ps)
              (AllCopied (p ∷ ps))
              (attach_copies (suc held) ps >>= λ copies. pure (q ∷ copies))
      rest q e l =
          let one : held + string_blocks p ≡ suc held = omega (arith, named_blocks p e.1) in
          rw one (
            map-Takes Bad (suc held) (total string_blocks ps) (AllCopied ps) (AllCopied (p ∷ ps))
              (attach_copies (suc held) ps) (λ copies. q ∷ copies)
              (λ qs g. (cc, rw (e.1, g.1) refl)) l)

unless_or : (a x : Bool) (d' : Document) → unless (a || x) d' ≡ (if a then none else unless x d')
unless_or true x d' = refl
unless_or false x d' = refl

append_as-Takes :
    {A : Type 0} (Bad : Type 0) (P : Document → Type 0) (held held' : ℕ) (xs : Array A) (x : A)
    (f : Array A → Document)
    → held' ≡ held
    → P (f (appended xs x))
    → Takes Bad held (first_block xs + 0) P (or_free held' (grown xs x) >>= λ rules. pure (f rules))
append_as-Takes Bad P held held' xs x f e h = rw e (append-Takes Bad P held xs x f h)

pub add_object_rule-Does :
    (name fs_type : Option CString) (paths : Array (Option CString)) (attrs : ℕ) (d : Document)
    → Does (object_rule name fs_type paths attrs) d (add_object_rule d name fs_type paths attrs)
unfolding add_object_rule extended
add_object_rule-Does none fs_type paths attrs d =
    refused (object_rule none fs_type paths attrs) d refl
add_object_rule-Does (some []) fs_type paths attrs d =
    refused (object_rule (some []) fs_type paths attrs) d refl
add_object_rule-Does (some (b ∷ bs)) none paths attrs d =
    refused (object_rule (some (b ∷ bs)) none paths attrs) d refl
add_object_rule-Does (some (b ∷ bs)) (some []) paths attrs d =
    refused (object_rule (some (b ∷ bs)) (some []) paths attrs) d refl
add_object_rule-Does (some (b ∷ bs)) (some (c ∷ cs)) none attrs d =
    refused (object_rule (some (b ∷ bs)) (some (c ∷ cs)) none attrs) d refl
add_object_rule-Does (some (b ∷ bs)) (some (c ∷ cs)) (some []) attrs d =
    refused (object_rule (some (b ∷ bs)) (some (c ∷ cs)) (some []) attrs) d refl
add_object_rule-Does (some (b ∷ bs)) (some (c ∷ cs)) (some (p ∷ ps)) attrs d =
    let name : Option CString = some (b ∷ bs) in
    let fs_type : Option CString = some (c ∷ cs) in
    let op : Operation = object_rule name fs_type (some (p ∷ ps)) attrs in
    let xs : Array ObjectRule = d.broker_mount_object_rules in
    let x : ObjectRule = record {
      name = name;
      fs_type = fs_type;
      allowed_attr_set = attrs;
      attach_paths = some (p ∷ ps);
    } in
    let copies : ℕ = total string_blocks (p ∷ ps) in
    let n : ℕ = 1 + (1 + (1 + (copies + (first_block xs + 0)))) in
    let d' : Document = record d { broker_mount_object_rules = appended xs x } in
    guarded_rest op d (length (p ∷ ps) == 0) _ (unless (any_blank (p ∷ ps)) d')
      (unless_or (length (p ∷ ps) == 0) (any_blank (p ∷ ps)) d')
      λ e. (
        n,
        first_string (Refuses op d) (Adds op d n) _ (b ∷ bs) _ (
            next_string (Refuses op d) (Adds op d n) 1 _ fs_type _ (
              bind-Takes (Refuses op d) 2 1 _ Anything (Adds op d n) _ _
                (or_free-Takes (Refuses op d) 2 1 Anything (call (Call.allocate (length (p ∷ ps))))
                  (call-Takes (Refuses op d) (Call.allocate (length (p ∷ ps))) refl refl))
                (λ block t.
                  bind-Takes (Refuses op d) 3 copies (first_block xs + 0) (AllCopied (p ∷ ps))
                    (Adds op d n) _ _
                    (attach_copies-Takes (Refuses op d) 3 (p ∷ ps)
                      (λ h. e ∙ ap (λ (blank : Bool). unless blank d') h))
                    (λ qs g.
                      append_as-Takes (Refuses op d) (Adds op d n) (3 + copies)
                        (3 + length (p ∷ ps)) xs (record x { attach_paths = some qs })
                        (λ rs. record d { broker_mount_object_rules = rs })
                        (omega (arith, total-named (p ∷ ps) g.1))
                        (rw g.0 (
                          e ∙ ap (λ (blank : Bool). unless blank d') g.1,
                          omega (arith, array_blocks-appended object_blocks xs x),
                        )))))),
      )
