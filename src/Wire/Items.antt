-- ===== src/Wire/Items.antt =====
-- src/landlock_policy_loader.c: each loop of `load_ir_from_wire` on what `write_ir` writes of an array.
use landlock.Base.{ℕ, ◌+◌, ◌≡◌, refl, ap, ◌∙◌, arith}
use landlock.Base.{Option, none, some, List, [], ◌∷◌, ◌++◌, length, append_assoc, append-nil}
use landlock.Sys.Types.{CString}
use landlock.Memory.{Array, items_of}
use landlock.Memory.Account.{All, IsArray}
use landlock.Memory.Gains.{appended}
use landlock.Document.Types.{Document}
use landlock.Document.Add.{
  PathField, open_read, open_write, scratch, export, broker_tmpfs, mount_tmpfs, mount_proc,
  with_path_rules,
}
use landlock.Document.Operations.{Operation, path_rule}
use landlock.Document.Spec.{extended}
use landlock.Document.Wellformed.{IsNamed, IsString}
use landlock.Wire.Cleanups.{free_saved}
use landlock.Wire.Reader.{Cursor, L, ◌>>◌, adds, undo, new_string, release, rounds}
use landlock.Wire.Load.{load_path}
use landlock.Wire.Store.{text_of, string_chunks, each, onto}
use landlock.Wire.Reads.{free_saved-Releases}
use landlock.Wire.Parses.{
  at, Parses, pure-Parses, bind-Parses, undo-Parses, adds-Parses, IsWireText, read_bytes-Parses,
  new_string-Parses, release-Parses,
}

pub onto-append :
    (cs bs : List (List ℕ)) (rest : List ℕ) → onto (cs ++ bs) rest ≡ onto cs (onto bs rest)
unfolding onto
onto-append [] bs rest = refl
onto-append (c ∷ cs) bs rest = rw (onto-append cs bs rest) refl

-- An array to which items are appended.
abbrev pub filled : {A : Type 0} → Array A → List A → Array A
filled acc [] = acc
filled acc (x ∷ xs) = filled (appended acc x) xs

filled-some : {A : Type 0} (ys xs : List A) → filled (some ys) xs ≡ some (ys ++ xs)
filled-some ys [] = rw append-nil refl
filled-some ys (x ∷ xs) = filled-some (ys ++ (x ∷ [])) xs ∙ ap some (append_assoc ys (x ∷ []) xs)

pub filled-items_of :
    {A : Type 0} (P : A → Type 0) (xs : Array A) → IsArray P xs → filled none (items_of xs) ≡ xs
filled-items_of P none h = refl
filled-items_of P (some []) h = absurd h
filled-items_of P (some (x ∷ xs)) h = filled-some (x ∷ []) xs

module _ {A : Type 0} (chunks : A → List (List ℕ)) (item : L (Unit {0})) (P : A → Type 0)
    (put : Array A → Document) where
  -- One round of the loop.
  abbrev pub Round : Type 0
  Round =
      (x : A) (acc : Array A) (rest : List ℕ)
      → P x
      → Parses 0 0 (at (onto (chunks x) rest) (put acc)) tt (at rest (put (appended acc x))) item

  rounds-Parses :
      Round
      → (xs : List A) (acc : Array A) (rest : List ℕ) → All P xs
      → Parses 0 0
          (at (onto (each chunks xs) rest) (put acc))
          tt
          (at rest (put (filled acc xs)))
          (rounds (length xs) item)
  unfolding rounds each onto
  rounds-Parses h [] acc rest p = pure-Parses tt
  rounds-Parses h (x ∷ xs) acc rest p = rw (onto-append (chunks x) (each chunks xs) rest) (
      bind-Parses _ (h x acc (onto (each chunks xs) rest) p.0)
        (rounds-Parses h xs (appended acc x) rest p.1))

  -- The loop for an array.
  pub array-Parses :
      (Q : A → Type 0)
      → Round
      → (xs : Array A) (rest : List ℕ) → IsArray Q xs
      → All P (items_of xs)
      → Parses 0 0
          (at (onto (each chunks (items_of xs)) rest) (put none))
          tt
          (at rest (put xs))
          (rounds (length (items_of xs)) item)
  array-Parses Q h xs rest q p =
      rw (filled-items_of Q xs q) at (rounds-Parses h (items_of xs) none rest p)

pub added-Parses :
    {rest : List ℕ} {d d' : Document} (n : ℕ) (op : Operation)
    → extended op d ≡ some d'
    → Parses n 0 (at rest d) tt (at rest d') (undo (free_saved n) (adds op) >> release n)
added-Parses n op e =
    let same : n + 0 ≡ n = omega arith in
    bind-Parses _ (undo-Parses (free_saved n) (free_saved-Releases n) (adds-Parses op e))
      (rw same (release-Parses n))

pub string-Parses :
    {c : Cursor} (s : Option CString)
    → IsString s
    → IsWireText s
    → Parses 0 1 c s c (new_string (text_of s))
string-Parses none h t = absurd h
string-Parses (some s) h t = new_string-Parses s t.0

pub named-IsString : (s : Option CString) → IsNamed s → IsString s
named-IsString none h = h
named-IsString (some s) h = tt

-- A path, in the array of its field.
abbrev pub IsWirePath : Option CString → Type 0
IsWirePath s = IsNamed s × IsWireText s

path_added :
    (field : PathField) (e : Document) (s : Option CString) (acc : Array (Option CString))
    → IsNamed s
    → extended (path_rule field s) (with_path_rules field acc e)
      ≡ some (with_path_rules field (appended acc s) e)
unfolding extended
path_added field e none acc h = absurd h
path_added field e (some []) acc h = absurd h
path_added open_read e (some (c ∷ cs)) acc h = refl
path_added open_write e (some (c ∷ cs)) acc h = refl
path_added scratch e (some (c ∷ cs)) acc h = refl
path_added export e (some (c ∷ cs)) acc h = refl
path_added broker_tmpfs e (some (c ∷ cs)) acc h = refl
path_added mount_tmpfs e (some (c ∷ cs)) acc h = refl
path_added mount_proc e (some (c ∷ cs)) acc h = refl

load_path-Parses :
    (field : PathField) (e : Document)
    → Round string_chunks (load_path field) IsWirePath (λ acc. with_path_rules field acc e)
unfolding load_path
load_path-Parses field e s acc rest h = bind-Parses _ (read_bytes-Parses s h.1) (
    bind-Parses _ (string-Parses s (named-IsString s h.0) h.1)
      (added-Parses 1 (path_rule field s) (path_added field e s acc h.0)))

pub paths-Parses :
    (field : PathField) (e : Document) (xs : Array (Option CString)) (rest : List ℕ)
    → IsArray IsNamed xs
    → All IsWirePath (items_of xs)
    → Parses 0 0
        (at (onto (each string_chunks (items_of xs)) rest) (with_path_rules field none e))
        tt
        (at rest (with_path_rules field xs e))
        (rounds (length (items_of xs)) (load_path field))
paths-Parses field e xs rest q p =
    array-Parses string_chunks (load_path field) IsWirePath (λ acc. with_path_rules field acc e)
      IsNamed (load_path-Parses field e) xs rest q p
