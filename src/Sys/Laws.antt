-- ===== src/Sys/Laws.antt =====
-- Inversion of outcomes, and the first step of a sequence.
use landlock.Base.{ℕ, ◌≡◌, refl, ◌⊎◌, inl, inr, Option, none, some}
use landlock.Sys.{World, Outcome, M, done, failed, attempt, ◌>>=◌}
use landlock.Sys.Types.{Kernel, Answer, ret, fails}

module _ {ℓ} {A : Type ℓ} {a b : A} {v w : World} where
  pub done-eq-done : done a v ≡ done b w → a ≡ b
  done-eq-done h = cc

  pub done-eq-done_world : done a v ≡ done b w → v ≡ w
  done-eq-done_world h = cc

module _ {ℓ κ} {A : Type ℓ} {B : Type κ} (m : M A) (f : A → M B) (k : Kernel) {w v : World} where
  pub bind-done : {a : A} → m k w ≡ done a v → (m >>= f) k w ≡ f a k v
  bind-done h = rw (h, ◌>>=◌)

  pub bind-failed : m k w ≡ failed v → (m >>= f) k w ≡ failed v
  bind-failed h = rw (h, ◌>>=◌)

abbrev continue {ℓ κ} : {A : Type ℓ} {B : Type κ} → Kernel → (A → M B) → Outcome A → Outcome B
continue k f o = elim o [ done a v ↦ f a k v | failed v ↦ failed v ]

continue_cong {ℓ κ} :
    {A : Type ℓ} {B : Type κ} (k : Kernel) (f g : A → M B) (o : Outcome A)
    → ((a : A) (v : World) → f a k v ≡ g a k v)
    → continue k f o ≡ continue k g o
continue_cong k f g (done a v) h = h a v
continue_cong k f g (failed v) h = refl

-- Two sequences with the same first step agree where their rests agree.
pub bind_cong {ℓ κ} :
    {A : Type ℓ} {B : Type κ} (m : M A) (f g : A → M B) (k : Kernel) (w : World)
    → ((a : A) (v : World) → f a k v ≡ g a k v)
    → (m >>= f) k w ≡ (m >>= g) k w
bind_cong m f g k w h = continue_cong k f g (m k w) h

-- Sequencing is associative.
continue_assoc {ℓ κ μ} :
    {A : Type ℓ} {B : Type κ} {C : Type μ} (k : Kernel) (f : A → M B) (g : B → M C) (o : Outcome A)
    → continue k (λ a. f a >>= g) o ≡ continue k g (continue k f o)
continue_assoc k f g (done a v) = refl
continue_assoc k f g (failed v) = refl

pub bind_assoc {ℓ κ μ} :
    {A : Type ℓ} {B : Type κ} {C : Type μ} (m : M A) (f : A → M B) (g : B → M C) (k : Kernel)
    (w : World)
    → (m >>= λ a. f a >>= g) k w ≡ ((m >>= f) >>= g) k w
bind_assoc m f g k w = continue_assoc k f g (m k w)

pub Answer-cases : (a : Answer) → ((v : ℕ) × (e : ℕ) × (a ≡ ret v e)) ⊎ ((e : ℕ) × (a ≡ fails e))
Answer-cases (ret v e) = inl (v, e, refl)
Answer-cases (fails e) = inr (e, refl)

-- What an attempt hands on.
module _ {ℓ κ} {A : Type ℓ} {B : Type κ} (m : M A) (f : Option A → M B) (k : Kernel)
    {w v : World} where
  pub attempt-done : {a : A} → m k w ≡ done a v → (attempt m >>= f) k w ≡ f (some a) k v
  attempt-done h = rw (h, attempt, ◌>>=◌)

  pub attempt-failed : m k w ≡ failed v → (attempt m >>= f) k w ≡ f none k v
  attempt-failed h = rw (h, attempt, ◌>>=◌)
