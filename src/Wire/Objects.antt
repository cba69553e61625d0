-- ===== src/Wire/Objects.antt =====
-- src/landlock_policy_loader.c: the loops of `load_ir_from_wire` for bind mounts and mounts of objects, on
-- what `write_ir` writes of them.
use landlock.Base.{
  ℕ, suc, ◌+◌, ◌*◌, ◌/◌, ◌%◌, ◌^◌, ◌<◌, ◌≡◌, refl, arith, Bool, true, false, ltb, ◌==◌, ◌||◌,
  if◌then◌else◌,
}
use landlock.Base.{Option, none, some, List, [], ◌∷◌, length}
use landlock.Sys.{call}
use landlock.Sys.Types.{Call, CString}
use landlock.Memory.{Array, items_of, frees, is_blank}
use landlock.Memory.Account.{All, IsArray, IsFilled}
use landlock.Memory.Gains.{appended}
use landlock.Memory.Releases.{frees-Releases}
use landlock.Document.Types.{Document, BindRule, ObjectRule}
use landlock.Document.Add.{BindField, broker_bind, mount_bind, with_bind_rules}
use landlock.Document.Operations.{bind_rule, object_rule}
use landlock.Document.Spec.{extended, any_blank}
use landlock.Document.Wellformed.{IsDocument, IsNamed, IsBind, IsObject}
use landlock.Wire.Cleanups.{free_invalid, free_saved}
use landlock.Wire.Reader.{
  Cursor, L, pure, ◌>>=◌, give_up, refuse, lift, undo, read_bytes, new_string, rounds,
}
use landlock.Wire.Load.{read_flag, load_bind, load_attach_paths, read_attrs, load_object}
use landlock.Wire.Store.{
  u32, text_of, flag, string_chunks, each, count_of, bind_chunks, object_chunks, onto,
}
use landlock.Wire.Reads.{
  bind-Reads, undo-Reads, free_invalid-Releases, free_saved-Releases, allocate-Reads,
}
use landlock.Wire.Parses.{
  at, Arrives, Parses, pure-Parses, bind-Parses, undo-Parses, unless_bad-Parses, read_number-Parses,
  IsWireText, read_bytes-Parses,
}
use landlock.Wire.Items.{
  onto-append, Round, array-Parses, added-Parses, string-Parses, named-IsString, IsWirePath,
}

-- The bytes of a string, and the string, with `n` blocks held.
pub held_bytes-Parses :
    {rest : List ℕ} {d : Document} (n : ℕ) (s : Option CString)
    → IsWireText s
    → Parses n n
        (at (onto (string_chunks s) rest) d)
        (text_of s)
        (at rest d)
        (undo (free_invalid n) read_bytes)
held_bytes-Parses {rest} {d} n s h =
    let same : n + 0 ≡ n = omega arith in
    rw same at (
      undo-Parses {n = n} (free_invalid n) (free_invalid-Releases n)
        (read_bytes-Parses {rest = rest} {d = d} s h))

pub held_string-Parses :
    {c : Cursor} (n : ℕ) (s : Option CString)
    → IsWirePath s
    → Parses n (n + 1) c s c (undo (frees n) (new_string (text_of s)))
held_string-Parses n s h =
    undo-Parses (frees n) (frees-Releases n) (string-Parses s (named-IsString s h.0) h.1)

read_flag-Parses :
    {rest : List ℕ} {d : Document} (b : Bool)
    → Parses 0 0 (at (onto (u32 (flag b) ∷ []) rest) d) b (at rest d) read_flag
unfolding read_flag onto
read_flag-Parses true =
    bind-Parses _ (read_number-Parses 4 1 (omega arith))
      (bind-Parses (λ u. pure true) (unless_bad-Parses (ltb 1 1) give_up refl) (pure-Parses true))
read_flag-Parses false =
    bind-Parses _ (read_number-Parses 4 0 (omega arith))
      (bind-Parses (λ u. pure false) (unless_bad-Parses (ltb 1 0) give_up refl) (pure-Parses false))

pub named_is_blank : (s : Option CString) → IsNamed s → is_blank s ≡ false
named_is_blank none h = absurd h
named_is_blank (some []) h = absurd h
named_is_blank (some (c ∷ cs)) h = refl

abbrev pub IsWireBind : BindRule → Type 0
IsWireBind r = IsWirePath r.source × IsWirePath r.target

bind_added :
    (field : BindField) (e : Document) (r : BindRule) (acc : Array BindRule)
    → IsWireBind r
    → extended (bind_rule field r.source r.target r.read_only) (with_bind_rules field acc e)
      ≡ some (with_bind_rules field (appended acc r) e)
unfolding extended
bind_added broker_bind e r acc h =
    rw (named_is_blank r.source h.0.0, named_is_blank r.target h.1.0) refl
bind_added mount_bind e r acc h =
    rw (named_is_blank r.source h.0.0, named_is_blank r.target h.1.0) refl

load_bind-Parses :
    (field : BindField) (e : Document)
    → Round bind_chunks (load_bind field) IsWireBind (λ acc. with_bind_rules field acc e)
unfolding load_bind bind_chunks
load_bind-Parses field e r acc rest h =
    rw (onto-append (string_chunks r.source), onto-append (string_chunks r.target))
      ((bind-Parses _ (read_bytes-Parses r.source h.0.1) (
        bind-Parses _ (string-Parses r.source (named-IsString r.source h.0.0) h.0.1) (
          bind-Parses _ (held_bytes-Parses 1 r.target h.1.1) (
            bind-Parses _ (held_string-Parses 1 r.target h.1) (
              bind-Parses _
                (undo-Parses (free_saved 2) (free_saved-Releases 2) (read_flag-Parses r.read_only))
                (added-Parses 2 (bind_rule field r.source r.target r.read_only)
                  (bind_added field e r acc h))))))))

pub binds-Parses :
    (field : BindField) (e : Document) (xs : Array BindRule) (rest : List ℕ)
    → IsArray IsBind xs
    → All IsWireBind (items_of xs)
    → Parses 0 0
        (at (onto (each bind_chunks (items_of xs)) rest) (with_bind_rules field none e))
        tt
        (at rest (with_bind_rules field xs e))
        (rounds (length (items_of xs)) (load_bind field))
binds-Parses field e xs rest q p =
    array-Parses bind_chunks (load_bind field) IsWireBind (λ acc. with_bind_rules field acc e)
      IsBind (load_bind-Parses field e) xs rest q p

attach_paths-Parses :
    {d : Document} (held : ℕ) (ps : List (Option CString)) (rest : List ℕ)
    → All IsWirePath ps
    → Parses held
        (held + length ps)
        (at (onto (each string_chunks ps) rest) d)
        ps
        (at rest d)
        (load_attach_paths held (length ps))
unfolding load_attach_paths each onto
attach_paths-Parses held [] rest h =
    let same : held + 0 ≡ held = omega arith in rw same (pure-Parses [])
attach_paths-Parses held (p ∷ ps) rest h =
    let next : held + 1 ≡ suc held = omega arith in
    let more : held + suc (length ps) ≡ suc held + length ps = omega arith in
    rw (onto-append (string_chunks p) (each string_chunks ps) rest, more)
      (bind-Parses _ (held_bytes-Parses held p h.0.1) (
        bind-Parses _
          (undo-Parses (free_saved held) (free_saved-Releases held)
            (string-Parses p (named-IsString p h.0.0) h.0.1))
          (rw next
            (bind-Parses _ (attach_paths-Parses (suc held) ps rest h.1) (pure-Parses (p ∷ ps))))))

-- The block for the attach paths, and what follows.
block_then-Parses :
    {A : Type 0} {after : ℕ} {c c' : Cursor} {a : A} (n : ℕ) (m : L A)
    → Parses 3 after c a c' m
    → Parses 2 after c a c' (undo (frees 2) (lift (call (Call.allocate n))) >>= λ block. m)
block_then-Parses {after} {c} {c'} {a} n m l = record {
  law = λ d.
      bind-Reads ⊥ 2 (λ _. 3) (λ _. after) c (λ x y. (y ≡ c) × IsDocument y.doc) (Arrives a c')
        (undo (frees 2) (lift (call (Call.allocate n)))) (λ block. m)
        (undo-Reads ⊥ (λ _. 1) c (λ x y. (y ≡ c) × IsDocument y.doc) 2 (frees 2)
          (lift (call (Call.allocate n))) (frees-Releases 2)
          (allocate-Reads ⊥ c d n (λ x y. (y ≡ c) × IsDocument y.doc) (λ v. (refl, d))))
        (λ x y p. rw p.0 (l.law (rw p.0 at p.1)));
}

read_attrs-Parses :
    {rest : List ℕ} {d : Document} (n attrs : ℕ)
    → 0 < n
    → n < 2 ^ 32
    → attrs < 2 ^ 64
    → Parses 0 0
        (at (onto (u32 n ∷ u32 (attrs % 2 ^ 32) ∷ u32 (attrs / 2 ^ 32) ∷ []) rest) d)
        (n, attrs)
        (at rest d)
        read_attrs
unfolding read_attrs onto
read_attrs-Parses n attrs h g f =
    let halves : attrs / 2 ^ 32 * 2 ^ 32 + attrs % 2 ^ 32 ≡ attrs = omega arith in
    let some_path : (n == 0) ≡ false = ground arith in
    bind-Parses _ (read_number-Parses 4 n g) (
      bind-Parses _ (read_number-Parses 4 (attrs % 2 ^ 32) (omega arith)) (
        bind-Parses _ (read_number-Parses 4 (attrs / 2 ^ 32) (omega arith)) (
          bind-Parses (λ u. pure (n, attrs / 2 ^ 32 * 2 ^ 32 + attrs % 2 ^ 32))
            (unless_bad-Parses (n == 0) refuse some_path) (rw halves (pure-Parses (n, attrs))))))

abbrev pub IsWireObject : ObjectRule → Type 0
IsWireObject r =
    IsWirePath r.name
    × IsWirePath r.fs_type
    × IsFilled IsNamed r.attach_paths
    × All IsWirePath (items_of r.attach_paths)
    × (count_of r.attach_paths < 2 ^ 32)
    × (r.allowed_attr_set < 2 ^ 64)

none_blank : (ps : List (Option CString)) → All IsWirePath ps → any_blank ps ≡ false
none_blank [] h = refl
none_blank (p ∷ ps) h = rw (named_is_blank p h.0.0) (none_blank ps h.1)

object_added :
    (e : Document) (r : ObjectRule) (acc : Array ObjectRule)
    → IsWireObject r
    → extended
        (object_rule r.name r.fs_type (some (items_of r.attach_paths)) r.allowed_attr_set)
        (record e { broker_mount_object_rules = acc })
      ≡ some (record e { broker_mount_object_rules = appended acc r })
unfolding extended
object_added e r acc h =
    rw (named_is_blank r.name h.0.0, named_is_blank r.fs_type h.1.0)
      (of_paths r.attach_paths h.2 h.3)
  where
    of_paths :
        (ps : Array (Option CString))
        → IsFilled IsNamed ps
        → All IsWirePath (items_of ps)
        → (if length (items_of ps) == 0 || any_blank (items_of ps)
            then none
            else some (record e {
              broker_mount_object_rules =
                  appended acc (record r { attach_paths = some (items_of ps) });
            }))
          ≡ some (record e {
            broker_mount_object_rules = appended acc (record r { attach_paths = ps });
          })
    of_paths none f g = absurd f
    of_paths (some []) f g = absurd f
    of_paths (some (p ∷ ps)) f g =
        let positive : (length (p ∷ ps) == 0) ≡ false = ground arith in
        rw (positive, none_blank (p ∷ ps) g) refl

load_object-Parses :
    (e : Document)
    → Round object_chunks load_object IsWireObject
        (λ acc. record e { broker_mount_object_rules = acc })
unfolding load_object object_chunks onto
load_object-Parses e r acc rest h =
    let ps : List (Option CString) = items_of r.attach_paths in
    rw (onto-append (string_chunks r.name)) (
      rw (onto-append (string_chunks r.fs_type)) (
        bind-Parses _ (read_bytes-Parses r.name h.0.1) (
          bind-Parses _ (string-Parses r.name (named-IsString r.name h.0.0) h.0.1) (
            bind-Parses _ (held_bytes-Parses 1 r.fs_type h.1.1) (
              bind-Parses _ (held_string-Parses 1 r.fs_type h.1) (
                bind-Parses _
                  (undo-Parses (free_invalid 2) (free_invalid-Releases 2) (
                    read_attrs-Parses (length ps) r.allowed_attr_set
                      (filled_length r.attach_paths h.2) h.4 h.5))
                  (block_then-Parses (length ps) _ (
                    bind-Parses _ (attach_paths-Parses 3 ps rest h.3) (
                      added-Parses (3 + length ps)
                        (object_rule r.name r.fs_type (some ps) r.allowed_attr_set)
                        (object_added e r acc h))))))))))
  where
    filled_length : (ps : Array (Option CString)) → IsFilled IsNamed ps → 0 < length (items_of ps)
    filled_length none f = absurd f
    filled_length (some []) f = absurd f
    filled_length (some (p ∷ ps)) f = omega arith

pub objects-Parses :
    (e : Document) (xs : Array ObjectRule) (rest : List ℕ)
    → IsArray IsObject xs
    → All IsWireObject (items_of xs)
    → Parses 0 0
        (at
          (onto (each object_chunks (items_of xs)) rest)
          (record e { broker_mount_object_rules = none }))
        tt
        (at rest (record e { broker_mount_object_rules = xs }))
        (rounds (length (items_of xs)) load_object)
objects-Parses e xs rest q p =
    array-Parses object_chunks load_object IsWireObject
      (λ acc. record e { broker_mount_object_rules = acc }) IsObject (load_object-Parses e) xs rest
      q p
