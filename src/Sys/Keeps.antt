-- ===== src/Sys/Keeps.antt =====
-- Invariants of the history of calls: what each step keeps, a sequence of them keeps.
use landlock.Base.{List, ◌∷◌, Bool, true, false, Option, if◌then◌else◌}
use landlock.Sys.{World, Outcome, M, done, failed, final, attempt, ◌>>=◌}
use landlock.Sys.{call, answered}
use landlock.Sys.Types.{Kernel, Call, Answer, ret, fails, Event}

module _ (P : List Event → Type 0) where
  abbrev pub Keeps {ℓ} : {A : Type ℓ} → M A → Type 0
  Keeps m = (k : Kernel) (w : World) → P w.trace → P (final (m k w)).trace

  bind_outcome {ℓ κ} :
      {A : Type ℓ} {B : Type κ} (o : Outcome A) (f : A → M B) (k : Kernel)
      → P (final o).trace
      → ((a : A) → Keeps (f a))
      → P (final {A = B} (elim o [ done a v ↦ f a k v | failed v ↦ failed v ])).trace
  bind_outcome (done a v) f k h keep = keep a k v h
  bind_outcome (failed v) f k h keep = h

  pub bind-Keeps {ℓ κ} :
      {A : Type ℓ} {B : Type κ} (m : M A) (f : A → M B)
      → Keeps m
      → ((a : A) → Keeps (f a))
      → Keeps (m >>= f)
  bind-Keeps m f hm hf k w h = bind_outcome (m k w) f k (hm k w h) hf

  attempt_outcome {ℓ} :
      {A : Type ℓ} (o : Outcome A)
      → P (final o).trace
      → P
          (final {A = Option A}
            (elim o [ done a v ↦ done (Option.some a) v | failed v ↦ done Option.none v ])).trace
  attempt_outcome (done a v) h = h
  attempt_outcome (failed v) h = h

  pub attempt-Keeps {ℓ} : {A : Type ℓ} (m : M A) → Keeps m → Keeps (attempt m)
  attempt-Keeps m hm k w h = attempt_outcome (m k w) (hm k w h)

  pub if_Keeps {ℓ} :
      {A : Type ℓ} (b : Bool) (m n : M A) → Keeps m → Keeps n → Keeps (if b then m else n)
  if_Keeps true m n hm hn = hm
  if_Keeps false m n hm hn = hn

  answer_keeps :
      (c : Call) (w : World) (a : Answer) → P ((c, a) ∷ w.trace) → P (final (answered c w a)).trace
  answer_keeps c w (ret v e) h = h
  answer_keeps c w (fails e) h = h

  pub call-Keeps :
      (c : Call) → ((t : List Event) (a : Answer) → P t → P ((c, a) ∷ t)) → Keeps (call c)
  call-Keeps c h k w p = answer_keeps c w (k w.trace c) (h w.trace (k w.trace c) p)
