-- ===== src/Memory/Gains.antt =====
-- What an action that takes blocks, or fails, leaves of the heap.
use landlock.Base.{
  ℕ, suc, ◌+◌, ◌<◌, ◌≤◌, ◌≡◌, refl, arith, ◌⊎◌, inl, inr, true, false, Option, none, some, List, [],
  ◌∷◌, ◌++◌, length,
}
use landlock.Sys.{
  World, Outcome, M, answered, done, failed, call, fail, fail_with, pure, ◌>>=◌, ◌>>◌,
}
use landlock.Sys.Types.{Call, CString, Kernel, Answer, ret, fails}
use landlock.Memory.{Array, items_of, frees, or_free, strdup, grown}
use landlock.Memory.Blocks.{refusals, takes, asks, gives_back, Leaves}
use landlock.Memory.Account.{string_blocks, array_blocks, total, Anything}
use landlock.Memory.Releases.{Frees, frees-Releases}

-- Of an action that starts with `held` blocks: it takes `n` more and its value has the property, no call
-- for memory being refused; or it fails, the blocks that were held are freed, and a call was refused or
-- what it was given is `Bad`.
abbrev pub Gains : {A : Type 0} → Type 0 → ℕ → ℕ → (A → Type 0) → World → Outcome A → Type 0
Gains Bad held n P w (done a v) =
    P a × Leaves w v held (held + n) × (refusals v.trace ≡ refusals w.trace)
Gains Bad held n P w (failed v) =
    Leaves w v held 0
    × (refusals w.trace ≤ refusals v.trace)
    × ((refusals w.trace < refusals v.trace) ⊎ Bad)

abbrev pub Is : {A : Type 0} → A → A → Type 0
Is e a = a ≡ e

-- The block that a `realloc` of an array takes.
abbrev pub first_block : {A : Type 0} → Array A → ℕ
first_block none = 1
first_block (some xs) = 0

abbrev pub appended : {A : Type 0} → Array A → A → Array A
appended xs x = some (items_of xs ++ (x ∷ []))

module _ (Bad : Type 0) where
  abbrev pub Takes : {A : Type 0} → ℕ → ℕ → (A → Type 0) → M A → Type 0
  Takes held n P m = (k : Kernel) (w : World) → Gains Bad held n P w (m k w)

  pub pure-Takes : {A : Type 0} (held : ℕ) (P : A → Type 0) (a : A) → P a → Takes held 0 P (pure a)
  pure-Takes held P a p k w = (p, omega arith, refl)

  pub fail_with-Takes : {A : Type 0} (n e : ℕ) (P : A → Type 0) → Bad → Takes 0 n P (fail_with e)
  fail_with-Takes n e P bad k w = (omega arith, omega arith, inr bad)

  pub weaken-Takes :
      {A : Type 0} (held n : ℕ) (P Q : A → Type 0) (m : M A)
      → ((a : A) → P a → Q a)
      → Takes held n P m
      → Takes held n Q m
  weaken-Takes held n P Q m h l k w = weaker (m k w) (l k w)
    where
      weaker : (o : Outcome _) → Gains Bad held n P w o → Gains Bad held n Q w o
      weaker (done a v) g = (h a g.0, g.1, g.2)
      weaker (failed v) g = g

  pub map-Takes :
      {A B : Type 0} (held n : ℕ) (P : A → Type 0) (Q : B → Type 0) (m : M A) (f : A → B)
      → ((a : A) → P a → Q (f a))
      → Takes held n P m
      → Takes held n Q (m >>= λ a. pure (f a))
  map-Takes held n P Q m f h l k w = mapped (m k w) (l k w)
    where
      mapped :
          (o : Outcome _)
          → Gains Bad held n P w o
          → Gains Bad held n Q w (((λ _ _. o) >>= λ a. pure (f a)) k w)
      mapped (done a v) g = (h a g.0, g.1, g.2)
      mapped (failed v) g = g

  sooner :
      (w v u : World)
      → refusals v.trace ≡ refusals w.trace
      → (refusals v.trace < refusals u.trace) ⊎ Bad
      → (refusals w.trace < refusals u.trace) ⊎ Bad
  sooner w v u f (inl l) = inl (omega arith)
  sooner w v u f (inr b) = inr b

  joined :
      {B : Type 0} (held n n' : ℕ) (Q : B → Type 0) (w v : World)
      → Leaves w v held (held + n)
      → refusals v.trace ≡ refusals w.trace
      → (o : Outcome B) → Gains Bad (held + n) n' Q v o
      → Gains Bad held (n + n') Q w o
  joined held n n' Q w v l f (done b u) g = (g.0, omega (arith, l, g.1), omega (arith, f, g.2))
  joined held n n' Q w v l f (failed u) g =
      (omega (arith, l, g.0), omega (arith, f, g.1), sooner w v u f g.2)

  module _ {A B : Type 0} (held n n' : ℕ) (P : A → Type 0) (Q : B → Type 0) where
    bind_outcome :
        (f : A → M B) (k : Kernel) (w : World) (o : Outcome A)
        → Gains Bad held n P w o
        → ((a : A) → P a → Takes (held + n) n' Q (f a))
        → Gains Bad held (n + n') Q w (((λ _ _. o) >>= f) k w)
    bind_outcome f k w (done a v) g h = joined held n n' Q w v g.1 g.2 (f a k v) (h a g.0 k v)
    bind_outcome f k w (failed v) g h = g

    pub bind-Takes :
        (m : M A) (f : A → M B)
        → Takes held n P m
        → ((a : A) → P a → Takes (held + n) n' Q (f a))
        → Takes held (n + n') Q (m >>= f)
    bind-Takes m f h l k w = bind_outcome f k w (m k w) (h k w) l

  -- The case of an action with one value.
  pub bind_value-Takes :
      {A B : Type 0} (held n n' : ℕ) (e : A) (Q : B → Type 0) (m : M A) (f : A → M B)
      → Takes held n (Is e) m
      → Takes (held + n) n' Q (f e)
      → Takes held (n + n') Q (m >>= f)
  bind_value-Takes held n n' e Q m f h l = bind-Takes held n n' (Is e) Q m f h (λ a s. rw s l)

  pub freeing :
      {A : Type 0} (held n : ℕ) (P : A → Type 0) (k : Kernel) (w v : World) (o : Outcome (Unit {0}))
      → Leaves w v 0 0
      → refusals w.trace ≤ refusals v.trace
      → (refusals w.trace < refusals v.trace) ⊎ Bad
      → Frees held v o
      → Gains Bad held n P w (((λ _ _. o) >> fail) k v)
  freeing held n P k w v (done u x) l m (inl r) f = (omega arith, omega arith, inl (omega arith))
  freeing held n P k w v (done u x) l m (inr b) f = (omega arith, omega arith, inr b)
  freeing held n P k w v (failed x) l m r f = absurd f

  or_free_outcome :
      {A : Type 0} (held n : ℕ) (P : A → Type 0) (k : Kernel) (w : World) (o : Outcome A)
      → Gains Bad 0 n P w o
      → Gains Bad held n P w (or_free held (λ _ _. o) k w)
  unfolding or_free
  or_free_outcome held n P k w (done a v) g = (g.0, omega (arith, g.1), g.2)
  or_free_outcome held n P k w (failed v) g =
      freeing held n P k w v (frees held k v) g.0 g.1 g.2 (frees-Releases held k v)

  pub or_free-Takes :
      {A : Type 0} (held n : ℕ) (P : A → Type 0) (m : M A)
      → Takes 0 n P m
      → Takes held n P (or_free held m)
  unfolding or_free
  or_free-Takes held n P m h k w = or_free_outcome held n P k w (m k w) (h k w)

  -- A call for memory that takes a number of blocks.
  call_outcome :
      (c : Call) (w : World) (a : Answer)
      → asks c ≡ 1
      → gives_back c ≡ 0
      → Gains Bad 0 (takes c) Anything w (answered c w a)
  call_outcome c w (ret v e) h g = (tt, omega arith, refl)
  call_outcome c w (fails e) h g = (omega arith, omega arith, inl (omega arith))

  pub call-Takes : (c : Call) → asks c ≡ 1 → gives_back c ≡ 0 → Takes 0 (takes c) Anything (call c)
  call-Takes c h g k w = call_outcome c w (k w.trace c) h g

  -- One, and then a value.
  pub made-Takes :
      {A : Type 0} (c : Call) (a : A)
      → asks c ≡ 1
      → gives_back c ≡ 0
      → Takes 0 (takes c + 0) (Is a) (call c >> pure a)
  made-Takes c a h g =
      bind-Takes 0 (takes c) 0 Anything (Is a) (call c) (λ n. pure a) (call-Takes c h g)
        (λ n t. pure-Takes (0 + takes c) (Is a) a refl)

  pub strdup-Takes : (s : Option CString) → Takes 0 (string_blocks s) (Is s) (strdup s)
  strdup-Takes none k w = (refl, omega arith, refl)
  strdup-Takes (some s) k w = made-Takes (Call.duplicate s) (some s) refl refl k w

  pub grown-Takes :
      {A : Type 0} (xs : Array A) (x : A)
      → Takes 0 (first_block xs) (Is (appended xs x)) (grown xs x)
  grown-Takes none x k w = made-Takes (Call.reallocate true 1) (appended none x) refl refl k w
  grown-Takes (some xs) x k w =
      made-Takes (Call.reallocate false (suc (length xs))) (appended (some xs) x) refl refl k w

total-append :
    {A : Type 0} (b : A → ℕ) (xs : List A) (x : A) → total b (xs ++ (x ∷ [])) ≡ total b xs + b x
total-append b [] x = omega arith
total-append b (y ∷ xs) x = omega (arith, total-append b xs x)

pub array_blocks-appended :
    {A : Type 0} (b : A → ℕ) (xs : Array A) (x : A)
    → array_blocks b (appended xs x) ≡ array_blocks b xs + (first_block xs + b x)
array_blocks-appended b none x = omega arith
array_blocks-appended b (some xs) x = omega (arith, total-append b xs x)
