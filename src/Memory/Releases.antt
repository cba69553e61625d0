-- ===== src/Memory/Releases.antt =====
-- What an action that frees blocks leaves of the heap.
use landlock.Base.{ℕ, zero, suc, ◌+◌, ◌≡◌, refl, ◌∙◌, arith}
use landlock.Sys.{World, Outcome, M, answered, done, failed, attempt, call, ◌>>◌}
use landlock.Sys.Types.{Call, Kernel, Answer, ret, fails}
use landlock.Memory.{frees}
use landlock.Memory.Blocks.{taken, freed, refusals, newest_refusal}

-- `n` blocks were freed, and no call for memory was refused or answered.
abbrev pub Freed : ℕ → World → World → Type 0
Freed n w v =
    (taken v.trace ≡ taken w.trace)
    × (freed v.trace ≡ freed w.trace + n)
    × (refusals v.trace ≡ refusals w.trace)
    × (newest_refusal v.trace ≡ newest_refusal w.trace)

abbrev pub Frees : {A : Type 0} → ℕ → World → Outcome A → Type 0
Frees n w (done u v) = Freed n w v
Frees n w (failed v) = ⊥

abbrev pub Releases : {A : Type 0} → ℕ → M A → Type 0
Releases n m = (k : Kernel) (w : World) → Frees n w (m k w)

module _ {B : Type 0} (m n s : ℕ) (e : m + n ≡ s) where
  after-Frees : (w v : World) → Freed m w v → (o : Outcome B) → Frees n v o → Frees s w o
  after-Frees w v h (done t x) g = (omega arith, omega arith, omega arith, g.3 ∙ h.3)
  after-Frees w v h (failed x) g = g

  then-Frees :
      {A : Type 0} (a : Outcome A) (b : M B) (k : Kernel) (w : World)
      → Frees m w a
      → Releases n b
      → Frees s w (((λ _ _. a) >> b) k w)
  then-Frees (failed v) b k w h l = h
  then-Frees (done u v) b k w h l = after-Frees w v h (b k v) (l k v)

  pub then-Releases :
      {A : Type 0} (a : M A) (b : M B) → Releases m a → Releases n b → Releases s (a >> b)
  then-Releases a b h l k w = then-Frees (a k w) b k w (h k w) l

free-Frees :
    (w : World) (a : Answer) → Frees 1 w (attempt (λ _ w. answered Call.free w a) (λ _ _. a) w)
free-Frees w (ret v e) = (omega arith, omega arith, omega arith, refl)
free-Frees w (fails e) = (omega arith, omega arith, omega arith, refl)

free-Releases : Releases 1 (attempt (call Call.free))
free-Releases k w = free-Frees w (k w.trace Call.free)

pub frees-Releases : (n : ℕ) → Releases n (frees n)
unfolding frees
frees-Releases zero k w = (refl, omega arith, refl, refl)
frees-Releases (suc n) k w =
    then-Releases 1 n (suc n) (omega arith) (attempt (call Call.free)) (frees n) free-Releases
      (frees-Releases n) k w
