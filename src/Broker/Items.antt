-- ===== src/Broker/Items.antt =====
-- src/landlockd_exec.c: the loops that make the rules of an allowlist.
use landlock.Base.{ℕ, ◌+◌, refl, ap, Bool, Option, none, some, List, [], ◌∷◌, length, map}
use landlock.Sys.{M, pure, call, ◌>>=◌}
use landlock.Sys.Types.{CString, Call}
use landlock.Memory.{Array}
use landlock.Memory.Account.{string_blocks, array_blocks, total, All, IsArray, Anything}
use landlock.Memory.Gains.{
  Takes, Is, pure-Takes, bind-Takes, bind_value-Takes, map-Takes, or_free-Takes, call-Takes,
  made-Takes,
}
use landlock.Document.Types.{BindRule, ObjectRule, AddfdRule}
use landlock.Document.Wellformed.{IsNamed, IsBind, bind_blocks}
use landlock.Broker.Allowlist.{make_items, make_array, resolved, path_item, bind_item}

-- The items of an array, changed.
abbrev pub mapped : {A : Type 0} → (A → A) → Array A → Array A
mapped f none = none
mapped f (some xs) = some (map f xs)

-- An item is made from one that is good: its blocks are taken, or a call is refused and the blocks that
-- were held are freed.
abbrev pub ItemLaw : {A : Type 0} → (A → ℕ) → (ℕ → A → M A) → (A → A) → (A → Type 0) → Type 0
ItemLaw {A} blocks item f Ok =
    (held : ℕ) (x : A) → Ok x → Takes ⊥ held (blocks (f x)) (Is (f x)) (item held x)

module _ {A : Type 0} (b : A → ℕ) (item : ℕ → A → M A) (f : A → A) (Ok : A → Type 0)
    (law : ItemLaw b item f Ok) where
  pub make_items-Takes :
      (held : ℕ) (xs : List A)
      → All Ok xs
      → Takes ⊥ held (total b (map f xs)) (Is (map f xs)) (make_items b item held xs)
  unfolding make_items
  make_items-Takes held [] ok k w = pure-Takes ⊥ held (Is []) [] refl k w
  make_items-Takes held (x ∷ xs) ok k w =
      bind_value-Takes ⊥ held (b (f x)) (total b (map f xs)) (f x) (Is (f x ∷ map f xs))
        (item held x) (λ y. make_items b item (held + b y) xs >>= λ ys. pure (y ∷ ys))
        (law held x ok.0)
        (map-Takes ⊥ (held + b (f x)) (total b (map f xs)) (Is (map f xs)) (Is (f x ∷ map f xs))
          (make_items b item (held + b (f x)) xs) (λ ys. f x ∷ ys)
          (λ ys e. ap (λ (zs : List A). f x ∷ zs) e) (make_items-Takes (held + b (f x)) xs ok.1))
        k w

  pub make_array-Takes :
      (xs : Array A)
      → IsArray Ok xs
      → Takes ⊥ 0 (array_blocks b (mapped f xs)) (Is (mapped f xs)) (make_array b item xs)
  unfolding make_array
  make_array-Takes none ok = pure-Takes ⊥ 0 (Is none) none refl
  make_array-Takes (some []) ok = absurd ok
  make_array-Takes (some (x ∷ xs)) ok =
      let ys : List A = map f (x ∷ xs) in
      bind-Takes ⊥ 0 1 (total b ys) Anything (Is (some ys)) (call (Call.allocate (length (x ∷ xs))))
        _ (call-Takes ⊥ (Call.allocate (length (x ∷ xs))) refl refl)
        (λ block t.
          map-Takes ⊥ 1 (total b ys) (Is ys) (Is (some ys)) (make_items b item 1 (x ∷ xs))
            (λ zs. some zs) (λ zs e. ap (λ (qs : List A). some qs) e)
            (make_items-Takes 1 (x ∷ xs) ok))

-- What is expected of each rule.
module _ (real : CString → CString) where
  abbrev pub real_path : Option CString → Option CString
  real_path none = none
  real_path (some path) = some (real path)

  abbrev pub real_bind : BindRule → BindRule
  real_bind r = record r { source = real_path r.source; target = real_path r.target }

  abbrev pub real_object : ObjectRule → ObjectRule
  real_object r = record r { attach_paths = mapped real_path r.attach_paths }

  abbrev pub real_addfd : AddfdRule → AddfdRule
  real_addfd r = record r { target = real_path r.target }

  resolved-Takes :
      (p : Option CString)
      → IsNamed p
      → Takes ⊥ 0 (string_blocks (real_path p)) (Is (real_path p)) (resolved real p)
  resolved-Takes none ok = absurd ok
  resolved-Takes (some p) ok = made-Takes ⊥ (Call.resolve p) (some (real p)) refl refl

  pub path_item-law : ItemLaw string_blocks (path_item real) real_path IsNamed
  path_item-law held p ok =
      or_free-Takes ⊥ held (string_blocks (real_path p)) (Is (real_path p)) (resolved real p)
        (resolved-Takes p ok)

  bind_law :
      (held : ℕ) (s t : Option CString) (ro : Bool)
      → IsNamed s
      → IsNamed t
      → let r : BindRule = record { source = s; target = t; read_only = ro } in
        Takes ⊥ held (bind_blocks (real_bind r)) (Is (real_bind r)) (bind_item real held r)
  bind_law held none t ro a c = absurd a
  bind_law held (some p) none ro a c = absurd c
  bind_law held (some p) (some q) ro a c =
      let made : Option CString → Option CString → BindRule =
        λ s t. record { source = s; target = t; read_only = ro } in
      bind_value-Takes ⊥ held 1 1 (some (real p)) (Is (made (some (real p)) (some (real q))))
        (path_item real held (some p))
        (λ s. path_item real (held + 1) (some q) >>= λ t. pure (made s t))
        (path_item-law held (some p) a)
        (map-Takes ⊥ (held + 1) 1 (Is (some (real q))) (Is (made (some (real p)) (some (real q))))
          (path_item real (held + 1) (some q)) (λ t. made (some (real p)) t)
          (λ t e. ap (λ (u : Option CString). made (some (real p)) u) e)
          (path_item-law (held + 1) (some q) c))

  pub bind_item-law : ItemLaw bind_blocks (bind_item real) real_bind IsBind
  bind_item-law held r ok = bind_law held r.source r.target r.read_only ok.0 ok.1.0
