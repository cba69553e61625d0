-- ===== src/Memory.antt =====
-- How the code keeps arrays and strings on the heap. An array is a pointer and the count of the items
-- behind it; the code changes the two together, so that `none` is NULL with the count 0 and `some xs`
-- is a block with the items `xs`. Where memory has run out the calls answer with a failure.
pub mod Blocks
pub mod Account
pub mod CopyLaws
pub mod Arrays
pub mod Releases
pub mod Gains
use landlock.Base.{ℕ, suc, ◌+◌, zero, Bool, true, false, ◌==◌, if◌then◌else◌}
use landlock.Base.{Option, none, some, List, [], ◌∷◌, ◌++◌, length, replicate}
use landlock.Sys.{M, pure, fail, attempt, call, ◌>>=◌, ◌>>◌, done, failed}
use landlock.Sys.Types.{CString, Call}

abbrev pub Array {ℓ} : Type ℓ → Type ℓ
Array A = Option (List A)

abbrev pub items_of {ℓ} : {A : Type ℓ} → Array A → List A
items_of none = []
items_of (some xs) = xs

abbrev pub is_absent {ℓ} : {A : Type ℓ} → Option A → Bool
is_absent none = true
is_absent (some a) = false

-- `s == NULL || s[0] == '\0'`
abbrev pub is_blank : Option CString → Bool
is_blank none = true
is_blank (some []) = true
is_blank (some (c ∷ cs)) = false

-- `free`, of a number of pointers that are not NULL.
unfoldable pub frees : ℕ → M (Unit {0})
frees zero = pure tt
frees (suc n) = do freed ← attempt (call Call.free); frees n

-- A step whose failure gives back `n` blocks that were taken before it.
unfoldable pub or_free {ℓ} : {A : Type ℓ} → ℕ → M A → M A
unfolding frees
or_free n m k w = elim (m k w) [ done a v ↦ done a v | failed v ↦ (frees n >> fail) k v ]

-- `strdup`; of NULL it is undefined, and does nothing here.
abbrev pub strdup : Option CString → M (Option CString)
strdup none = pure none
strdup (some s) = call (Call.duplicate s) >> pure (some s)

-- `realloc` to one item more, and the new item.
abbrev pub grown {ℓ} : {A : Type ℓ} → Array A → A → M (Array A)
grown xs x =
    call (Call.reallocate (is_absent xs) (suc (length (items_of xs))))
    >> pure (some (items_of xs ++ (x ∷ [])))

-- A copy, and whether it was completed: one that was broken off is zero from there on.
pub record Copied {ℓ} (A : Type ℓ) : Type ℓ where
  pub whole : Bool
  pub value : A

-- How a value of one type is copied, and the value that zeroed memory holds.
pub record Copier (A : Type 0) : Type 1 where
  pub zeroed : A
  pub run : A → M (Copied A)

abbrev pub stopped : {A : Type 0} → A → M (Copied A)
stopped a = pure (record { whole = false; value = a })

abbrev pub finished : {A : Type 0} → A → M (Copied A)
finished a = pure (record { whole = true; value = a })

-- An assignment of a number or of a flag.
abbrev pub plain : {A : Type 0} → A → Copier A
plain zeroed = record { zeroed = zeroed; run = finished }

abbrev pub duplicated : CString → Option ℕ → M (Copied (Option CString))
duplicated s none = stopped none
duplicated s (some block) = finished (some s)

abbrev pub copy_string : Option CString → M (Copied (Option CString))
copy_string none = finished none
copy_string (some s) = attempt (call (Call.duplicate s)) >>= duplicated s

-- A string by `strdup`, of one that may be NULL.
abbrev pub string : Copier (Option CString)
string = record { zeroed = none; run = copy_string }

-- One value and then another.
abbrev pub second : {A B : Type 0} → Copier B → B → Copied A → M (Copied (A × B))
second cb b r =
    if r.whole
    then cb.run b >>= (λ s. pure (record { whole = s.whole; value = (r.value, s.value) }))
    else stopped (r.value, cb.zeroed)

infixr 6 ◌then_copy◌
abbrev pub ◌then_copy◌ : {A B : Type 0} → Copier A → Copier B → Copier (A × B)
ca then_copy cb = record {
  zeroed = (ca.zeroed, cb.zeroed);
  run = λ p. ca.run p.0 >>= second cb p.1;
}

-- A record, by its fields.
abbrev pub by_fields : {A B : Type 0} → (B → A) → (A → B) → Copier B → Copier A
by_fields make fields c = record {
  zeroed = make c.zeroed;
  run = λ a. c.run (fields a) >>= (λ r. pure (record { whole = r.whole; value = make r.value }));
}

-- The loop over the items: what follows the first failure is zero.
abbrev pub next_items :
    {A : Type 0} → Copier A → List A → M (Copied (List A)) → Copied A → M (Copied (List A))
next_items c xs rest r =
    if r.whole
    then rest >>= (λ s. pure (record { whole = s.whole; value = r.value ∷ s.value }))
    else stopped (r.value ∷ replicate (length xs) c.zeroed)

unfoldable pub copy_items : {A : Type 0} → Copier A → List A → M (Copied (List A))
copy_items c [] = finished []
copy_items c (x ∷ xs) = c.run x >>= next_items c xs (copy_items c xs)

abbrev pub with_block : {A : Type 0} → Copier A → List A → Option ℕ → M (Copied (Array A))
with_block c xs none = stopped none
with_block c xs (some block) =
    copy_items c xs >>= (λ r. pure (record { whole = r.whole; value = some r.value }))

-- `calloc` and the loop.
abbrev pub copy_block : {A : Type 0} → Copier A → List A → M (Copied (Array A))
copy_block c xs = attempt (call (Call.allocate (length xs))) >>= with_block c xs

abbrev pub copy_array : {A : Type 0} → Copier A → Array A → M (Copied (Array A))
copy_array c none = finished none
copy_array c (some []) = finished none
copy_array c (some (x ∷ xs)) = copy_block c (x ∷ xs)

-- An array, if its count is not 0.
abbrev pub array : {A : Type 0} → Copier A → Copier (Array A)
array c = record { zeroed = none; run = copy_array c }
