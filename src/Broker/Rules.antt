-- ===== src/Broker/Rules.antt =====
-- src/landlockd_exec.c: how the rules with several strings are made for an allowlist.
use landlock.Base.{ℕ, ◌+◌, refl, ap, Option, none, some, List, [], ◌∷◌, length, map}
use landlock.Sys.{M, pure, call, ◌>>=◌}
use landlock.Sys.Types.{CString, Call}
use landlock.Memory.{Array, or_free, strdup}
use landlock.Memory.Account.{string_blocks, total, IsFilled, Anything}
use landlock.Memory.Gains.{
  Takes, Is, bind-Takes, bind_value-Takes, map-Takes, or_free-Takes, call-Takes, strdup-Takes,
}
use landlock.Document.Types.{ObjectRule, AddfdRule}
use landlock.Document.Wellformed.{IsNamed, IsObject, IsAddfd, object_blocks, addfd_blocks}
use landlock.Broker.Allowlist.{make_items, path_item, object_item, addfd_item}
use landlock.Broker.Items.{
  ItemLaw, make_items-Takes, path_item-law, real_path, real_object, real_addfd,
}

string_item-Takes :
    (held : ℕ) (s : Option CString)
    → Takes ⊥ held (string_blocks s) (Is s) (or_free held (strdup s))
string_item-Takes held s =
    or_free-Takes ⊥ held (string_blocks s) (Is s) (strdup s) (strdup-Takes ⊥ s)

module _ (real : CString → CString) where
  addfd_law :
      (held : ℕ) (a t m : Option CString)
      → IsNamed a
      → IsNamed t
      → let r : AddfdRule = record { action = a; target = t; mode = m } in
        Takes ⊥ held
          (addfd_blocks (real_addfd real r))
          (Is (real_addfd real r))
          (addfd_item real held r)
  addfd_law held none t m h g = absurd h
  addfd_law held (some p) none m h g = absurd g
  addfd_law held (some p) (some q) m h g =
      let made : Option CString → Option CString → Option CString → AddfdRule =
        λ a t m. record { action = a; target = t; mode = m } in
      let r : AddfdRule = made (some p) (some (real q)) m in
      bind_value-Takes ⊥ held 1 (1 + string_blocks m) (some p) (Is r)
        (or_free held (strdup (some p)))
        (λ a. path_item real (held + 1) (some q) >>= λ t.
          or_free (held + 1 + 1) (strdup m) >>= λ m. pure (made a t m))
        (string_item-Takes held (some p))
        (bind_value-Takes ⊥ (held + 1) 1 (string_blocks m) (some (real q)) (Is r)
          (path_item real (held + 1) (some q))
          (λ t. or_free (held + 1 + 1) (strdup m) >>= λ m. pure (made (some p) t m))
          (path_item-law real (held + 1) (some q) g)
          (map-Takes ⊥ (held + 1 + 1) (string_blocks m) (Is m) (Is r)
            (or_free (held + 1 + 1) (strdup m)) (λ m. made (some p) (some (real q)) m)
            (λ n e. ap (λ (u : Option CString). made (some p) (some (real q)) u) e)
            (string_item-Takes (held + 1 + 1) m)))

  pub addfd_item-law : ItemLaw addfd_blocks (addfd_item real) (real_addfd real) IsAddfd
  addfd_item-law held r ok = addfd_law held r.action r.target r.mode ok.0 ok.1.0

  attach_law :
      (held : ℕ) (p : Option CString) (ps : List (Option CString))
      → IsFilled IsNamed (some (p ∷ ps))
      → Takes ⊥ held
          (total string_blocks (map (real_path real) (p ∷ ps)))
          (Is (map (real_path real) (p ∷ ps)))
          (make_items string_blocks (path_item real) held (p ∷ ps))
  attach_law held p ps ok =
      make_items-Takes string_blocks (path_item real) (real_path real) IsNamed (path_item-law real)
        held (p ∷ ps) ok

  object_law :
      (held : ℕ) (n t : Option CString) (attrs : ℕ) (ps : Array (Option CString))
      → IsNamed n
      → IsNamed t
      → IsFilled IsNamed ps
      → let r : ObjectRule = record {
        name = n;
        fs_type = t;
        allowed_attr_set = attrs;
        attach_paths = ps;
      } in
        Takes ⊥ held
          (object_blocks (real_object real r))
          (Is (real_object real r))
          (object_item real held r)
  object_law held none t attrs ps a c f = absurd a
  object_law held (some x) none attrs ps a c f = absurd c
  object_law held (some x) (some y) attrs none a c f = absurd f
  object_law held (some x) (some y) attrs (some []) a c f = absurd f
  object_law held (some x) (some y) attrs (some (p ∷ ps)) a c f =
      let qs : List (Option CString) = map (real_path real) (p ∷ ps) in
      let made : Option CString → Option CString → List (Option CString) → ObjectRule = λ n t ps.
        record { name = n; fs_type = t; allowed_attr_set = attrs; attach_paths = some ps } in
      let r : ObjectRule = made (some x) (some y) qs in
      let block : M ℕ = or_free (held + 1 + 1) (call (Call.allocate (length (p ∷ ps)))) in
      let attach : M (List (Option CString)) =
        make_items string_blocks (path_item real) (held + 1 + 1 + 1) (p ∷ ps) in
      bind_value-Takes ⊥ held 1 (1 + (1 + total string_blocks qs)) (some x) (Is r)
        (or_free held (strdup (some x)))
        (λ n. or_free (held + 1) (strdup (some y)) >>= λ t.
          block >>= λ b. attach >>= λ ps. pure (made n t ps))
        (string_item-Takes held (some x))
        (bind_value-Takes ⊥ (held + 1) 1 (1 + total string_blocks qs) (some y) (Is r)
          (or_free (held + 1) (strdup (some y)))
          (λ t. block >>= λ b. attach >>= λ ps. pure (made (some x) t ps))
          (string_item-Takes (held + 1) (some y))
          (bind-Takes ⊥ (held + 1 + 1) 1 (total string_blocks qs) Anything (Is r) block
            (λ b. attach >>= λ ps. pure (made (some x) (some y) ps))
            (or_free-Takes ⊥ (held + 1 + 1) 1 Anything (call (Call.allocate (length (p ∷ ps))))
              (call-Takes ⊥ (Call.allocate (length (p ∷ ps))) refl refl))
            (λ b u.
              map-Takes ⊥ (held + 1 + 1 + 1) (total string_blocks qs) (Is qs) (Is r) attach
                (λ ps. made (some x) (some y) ps)
                (λ ps e. ap (λ (us : List (Option CString)). made (some x) (some y) us) e)
                (attach_law (held + 1 + 1 + 1) p ps f))))

  pub object_item-law : ItemLaw object_blocks (object_item real) (real_object real) IsObject
  object_item-law held r ok =
      object_law held r.name r.fs_type r.allowed_attr_set r.attach_paths ok.0 ok.1.0 ok.1.1.1
