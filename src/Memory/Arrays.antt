-- ===== src/Memory/Arrays.antt =====
-- Properties of the items of an array that grows or changes.
use landlock.Base.{ℕ, zero, suc, ◌≡◌, List, [], ◌∷◌, ◌++◌, none, some, drop, set}
use landlock.Memory.{Array, items_of}
use landlock.Memory.Account.{All, IsArray}
use landlock.Memory.Gains.{appended}

module _ {A : Type 0} (P : A → Type 0) where
  All-append : (xs : List A) (x : A) → All P xs → P x → All P (xs ++ (x ∷ []))
  All-append [] x h p = (p, tt)
  All-append (y ∷ xs) x h p = (h.0, All-append xs x h.1 p)

  pub appended-IsArray : (xs : Array A) (x : A) → IsArray P xs → P x → IsArray P (appended xs x)
  appended-IsArray none x h p = (p, tt)
  appended-IsArray (some []) x h p = absurd h
  appended-IsArray (some (y ∷ xs)) x h p = (h.0, All-append xs x h.1 p)

  All-set :
      (xs : List A) (i : ℕ) (x : A) (rest : List A) (y : A)
      → All P xs
      → drop i xs ≡ x ∷ rest
      → P x × (P y → All P (set xs i y))
  All-set [] zero x rest y h e = cc
  All-set [] (suc i) x rest y h e = cc
  All-set (z ∷ xs) zero x rest y h e = let same : z ≡ x = cc in (rw same at h.0, λ p. (p, h.1))
  All-set (z ∷ xs) (suc i) x rest y h e =
      let ih : P x × (P y → All P (set xs i y)) = All-set xs i x rest y h.1 e in
      (ih.0, λ p. (h.0, ih.1 p))

  pub IsArray-set :
      (xs : Array A) (i : ℕ) (x : A) (rest : List A) (y : A)
      → IsArray P xs
      → drop i (items_of xs) ≡ x ∷ rest
      → P x × (P y → IsArray P (some (set (items_of xs) i y)))
  IsArray-set none zero x rest y h e = cc
  IsArray-set none (suc i) x rest y h e = cc
  IsArray-set (some []) i x rest y h e = absurd h
  IsArray-set (some (z ∷ xs)) zero x rest y h e = All-set (z ∷ xs) zero x rest y h e
  IsArray-set (some (z ∷ xs)) (suc i) x rest y h e = All-set (z ∷ xs) (suc i) x rest y h e
