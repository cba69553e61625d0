-- ===== src/Document/Added.antt =====
-- src/landlock_policy_ir.c: each function that adds to a document, against its specification.
use landlock.Base.{ℕ, ◌+◌, ◌≡◌, refl, arith, Bool}
use landlock.Base.{Option, none, some, [], ◌∷◌}
use landlock.Sys.{M, pure, fail_with, ◌>>=◌}
use landlock.Sys.Types.{CString}
use landlock.Sys.Errno.{einval}
use landlock.Memory.{Array, strdup, grown, or_free}
use landlock.Memory.Account.{string_blocks, array_blocks}
use landlock.Memory.Gains.{
  Takes, Is, appended, first_block, pure-Takes, fail_with-Takes, bind_value-Takes, or_free-Takes,
  strdup-Takes, grown-Takes, array_blocks-appended,
}
use landlock.Document.Types.{Document, BindRule}
use landlock.Document.Add.{
  PathField, open_read, open_write, scratch, export, broker_tmpfs, mount_tmpfs, mount_proc,
  path_rules, with_path_rules, document_add_path_rule, BindField, broker_bind, mount_bind,
  bind_rules, with_bind_rules, add_bind_rule,
}
use landlock.Document.Operations.{Operation, path_rule, bind_rule}
use landlock.Document.Spec.{extended}
use landlock.Document.Wellformed.{document_blocks, paths_blocks, bind_blocks}

-- What a call adds: the document of the specification, and `n` blocks.
abbrev pub Adds : Operation → Document → ℕ → Document → Type 0
Adds op d n d' = (extended op d ≡ some d') × (document_blocks d' ≡ document_blocks d + n)

abbrev pub Refuses : Operation → Document → Type 0
Refuses op d = extended op d ≡ none

abbrev pub Does : Operation → Document → M Document → Type 0
Does op d m = (n : ℕ) × Takes (Refuses op d) 0 n (Adds op d n) m

pub refused : (op : Operation) (d : Document) → Refuses op d → Does op d (fail_with einval)
refused op d h = (0, fail_with-Takes (Refuses op d) 0 einval (Adds op d 0) h)

-- A function that calls for no memory.
pub added : (op : Operation) (d d' : Document) → Adds op d 0 d' → Does op d (pure d')
added op d d' h = (0, pure-Takes (Refuses op d) 0 (Adds op d 0) d' h)

module _ {B : Type 0} (Bad : Type 0) (P : B → Type 0) where
  -- The first string, and one more.
  pub first_string :
      (n : ℕ) (s : CString) (f : Option CString → M B)
      → Takes Bad 1 n P (f (some s))
      → Takes Bad 0 (1 + n) P (strdup (some s) >>= f)
  first_string n s f h =
      bind_value-Takes Bad 0 1 n (some s) P (strdup (some s)) f (strdup-Takes Bad (some s)) h

  pub next_string :
      (held n : ℕ) (s : Option CString) (f : Option CString → M B)
      → Takes Bad (held + string_blocks s) n P (f s)
      → Takes Bad held (string_blocks s + n) P (or_free held (strdup s) >>= f)
  next_string held n s f h =
      bind_value-Takes Bad held (string_blocks s) n s P (or_free held (strdup s)) f
        (or_free-Takes Bad held (string_blocks s) (Is s) (strdup s) (strdup-Takes Bad s)) h

  -- The new item of an array.
  pub append-Takes :
      {A : Type 0} (held : ℕ) (xs : Array A) (x : A) (f : Array A → B)
      → P (f (appended xs x))
      → Takes Bad held
          (first_block xs + 0)
          P
          (or_free held (grown xs x) >>= λ rules. pure (f rules))
  append-Takes held xs x f h =
      bind_value-Takes Bad held (first_block xs) 0 (appended xs x) P (or_free held (grown xs x))
        (λ rules. pure (f rules))
        (or_free-Takes Bad held (first_block xs) (Is (appended xs x)) (grown xs x)
          (grown-Takes Bad xs x))
        (pure-Takes Bad (held + first_block xs) P (f (appended xs x)) h)

  pub only-append-Takes :
      {A : Type 0} (xs : Array A) (x : A) (f : Array A → B)
      → P (f (appended xs x))
      → Takes Bad 0 (first_block xs + 0) P (grown xs x >>= λ rules. pure (f rules))
  only-append-Takes xs x f h =
      bind_value-Takes Bad 0 (first_block xs) 0 (appended xs x) P (grown xs x)
        (λ rules. pure (f rules)) (grown-Takes Bad xs x)
        (pure-Takes Bad (0 + first_block xs) P (f (appended xs x)) h)

with_path_rules_blocks :
    (field : PathField) (d : Document) (rs : Array (Option CString)) (n : ℕ)
    → paths_blocks rs ≡ paths_blocks (path_rules field d) + n
    → document_blocks (with_path_rules field rs d) ≡ document_blocks d + n
with_path_rules_blocks open_read d rs n h = omega arith
with_path_rules_blocks open_write d rs n h = omega arith
with_path_rules_blocks scratch d rs n h = omega arith
with_path_rules_blocks export d rs n h = omega arith
with_path_rules_blocks broker_tmpfs d rs n h = omega arith
with_path_rules_blocks mount_tmpfs d rs n h = omega arith
with_path_rules_blocks mount_proc d rs n h = omega arith

with_bind_rules_blocks :
    (field : BindField) (d : Document) (rs : Array BindRule) (n : ℕ)
    → array_blocks bind_blocks rs ≡ array_blocks bind_blocks (bind_rules field d) + n
    → document_blocks (with_bind_rules field rs d) ≡ document_blocks d + n
with_bind_rules_blocks broker_bind d rs n h = omega arith
with_bind_rules_blocks mount_bind d rs n h = omega arith

pub document_add_path_rule-Does :
    (field : PathField) (path : Option CString) (d : Document)
    → Does (path_rule field path) d (document_add_path_rule field d path)
unfolding document_add_path_rule extended
document_add_path_rule-Does field none d = refused (path_rule field none) d refl
document_add_path_rule-Does field (some []) d = refused (path_rule field (some [])) d refl
document_add_path_rule-Does field (some (c ∷ cs)) d =
    let path : Option CString = some (c ∷ cs) in
    let op : Operation = path_rule field path in
    let xs : Array (Option CString) = path_rules field d in
    let n : ℕ = 1 + (first_block xs + 0) in
    let fits : document_blocks (with_path_rules field (appended xs path) d)
        ≡ document_blocks d + n =
      with_path_rules_blocks field d (appended xs path) n
        (omega (arith, array_blocks-appended string_blocks xs path)) in
    (
      n,
      first_string (Refuses op d) (Adds op d n) _ (c ∷ cs) _ (
          append-Takes (Refuses op d) (Adds op d n) 1 xs path (λ rs. with_path_rules field rs d)
            (refl, fits)),
    )

pub add_bind_rule-Does :
    (field : BindField) (source target : Option CString) (read_only : Bool) (d : Document)
    → Does
        (bind_rule field source target read_only)
        d
        (add_bind_rule field d source target read_only)
unfolding add_bind_rule extended
add_bind_rule-Does field none target ro d = refused (bind_rule field none target ro) d refl
add_bind_rule-Does field (some []) target ro d =
    refused (bind_rule field (some []) target ro) d refl
add_bind_rule-Does field (some (b ∷ bs)) none ro d =
    refused (bind_rule field (some (b ∷ bs)) none ro) d refl
add_bind_rule-Does field (some (b ∷ bs)) (some []) ro d =
    refused (bind_rule field (some (b ∷ bs)) (some []) ro) d refl
add_bind_rule-Does field (some (b ∷ bs)) (some (c ∷ cs)) ro d =
    let source : Option CString = some (b ∷ bs) in
    let target : Option CString = some (c ∷ cs) in
    let op : Operation = bind_rule field source target ro in
    let xs : Array BindRule = bind_rules field d in
    let x : BindRule = record { source = source; target = target; read_only = ro } in
    let n : ℕ = 1 + (1 + (first_block xs + 0)) in
    let fits : document_blocks (with_bind_rules field (appended xs x) d) ≡ document_blocks d + n =
      with_bind_rules_blocks field d (appended xs x) n
        (omega (arith, array_blocks-appended bind_blocks xs x)) in
    (
      n,
      first_string (Refuses op d) (Adds op d n) _ (b ∷ bs) _ (
          next_string (Refuses op d) (Adds op d n) 1 _ target _ (
            append-Takes (Refuses op d) (Adds op d n) 2 xs x (λ rs. with_bind_rules field rs d)
              (refl, fits))),
    )
