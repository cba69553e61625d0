-- ===== src/Memory/Account.antt =====
-- What a copy takes from the heap, and what a completed one holds.
use landlock.Base.{ℕ, ◌+◌, ◌≡◌, List, [], ◌∷◌, true, false, Option, none, some}
use landlock.Sys.{World, Outcome, done, failed}
use landlock.Sys.Types.{Kernel, CString}
use landlock.Memory.{Array, Copied, Copier}
use landlock.Memory.Blocks.{refusals, Refused, Leaves}

-- The blocks that a string holds, the items of an array, and an array.
abbrev pub string_blocks : Option CString → ℕ
string_blocks none = 0
string_blocks (some s) = 1

abbrev pub total : {A : Type 0} → (A → ℕ) → List A → ℕ
total blocks [] = 0
total blocks (x ∷ xs) = blocks x + total blocks xs

abbrev pub array_blocks : {A : Type 0} → (A → ℕ) → Array A → ℕ
array_blocks blocks none = 0
array_blocks blocks (some xs) = 1 + total blocks xs

abbrev pub no_blocks : {A : Type 0} → A → ℕ
no_blocks a = 0

-- The array of some items: NULL for none.
abbrev pub array_of : {A : Type 0} → List A → Array A
array_of [] = none
array_of (x ∷ xs) = some (x ∷ xs)

-- An array as the code builds it: NULL, or with items, all of which have the property.
abbrev pub All : {A : Type 0} → (A → Type 0) → List A → Type 0
All P [] = Unit
All P (x ∷ xs) = P x × All P xs

abbrev pub IsFilled : {A : Type 0} → (A → Type 0) → Array A → Type 0
IsFilled P none = ⊥
IsFilled P (some []) = ⊥
IsFilled P (some (x ∷ xs)) = P x × All P xs

abbrev pub IsArray : {A : Type 0} → (A → Type 0) → Array A → Type 0
IsArray P none = Unit
IsArray P (some xs) = IsFilled P (some xs)

abbrev pub Anything : {A : Type 0} → A → Type 0
Anything a = Unit

-- A completed copy is `e`, and no call for memory was refused; one that was broken off saw a refusal.
abbrev pub Settled : {A : Type 0} → A → World → World → Copied A → Type 0
Settled e w v r = elim r.whole [
  | true ↦ (r.value ≡ e) × (refusals v.trace ≡ refusals w.trace)
  | false ↦ Refused w v
]

-- The copy holds all blocks that were taken, completed or not.
abbrev pub Copies : {A : Type 0} → (A → ℕ) → A → World → Outcome (Copied A) → Type 0
Copies blocks e w (done r v) = Leaves w v 0 (blocks r.value) × Settled e w v r
Copies blocks e w (failed v) = ⊥

pub record CopyLaw {A : Type 0} (c : Copier A) (blocks : A → ℕ) (Ok : A → Type 0) : Type 0 where
  pub zero_blocks : blocks c.zeroed ≡ 0
  pub law : (a : A) → Ok a → (k : Kernel) (w : World) → Copies blocks a w (c.run a k w)
