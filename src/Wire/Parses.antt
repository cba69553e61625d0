-- ===== src/Wire/Parses.antt =====
-- src/landlock_policy_loader.c: the parts of `load_ir_from_wire` on the bytes that `write_ir` writes.
use landlock.Base.{ℕ, ◌+◌, ◌%◌, ◌^◌, ◌<◌, ◌≡◌, refl, ap, arith, Bool, false}
use landlock.Base.{Option, none, some, List, [], ◌∷◌, ◌++◌, length, take}
use landlock.Sys.{M}
use landlock.Sys.Types.{CString}
use landlock.Memory.Releases.{Releases}
use landlock.Document.Types.{Document}
use landlock.Document.Operations.{Operation}
use landlock.Document.Spec.{extended}
use landlock.Document.Wellformed.{IsDocument}
use landlock.Document.Extended.{extended-IsDocument}
use landlock.Wire.Bytes.{
  bytes_of, number-bytes_of, length-bytes_of, cut, cut-append, IsText, text-IsText,
}
use landlock.Wire.Reader.{
  Cursor, L, pure, ◌>>=◌, unless_bad, adds, undo, next_bytes, read_number, read_numbers, read_bytes,
  new_string, release,
}
use landlock.Wire.Store.{text_of, string_chunks, onto, numbers}
use landlock.Wire.Reads.{
  Reads, pure-Reads, bind-Reads, undo-Reads, adds-Reads, next_bytes-Reads, new_string-Reads,
  release-Reads,
}

-- The bytes before which a part stands, and the document.
abbrev pub at : List ℕ → Document → Cursor
at rest d = record { rest = rest; doc = d }

abbrev pub Arrives : {A : Type 0} → A → Cursor → A → Cursor → Type 0
Arrives a c' x y = (x ≡ a) × (y ≡ c') × IsDocument y.doc

-- A part that fails only where a call for memory is refused, and otherwise has this value and leaves
-- this cursor; `before` blocks become `after`.
pub record Parses {A : Type 0} (before after : ℕ) (c : Cursor) (a : A) (c' : Cursor) (m : L A)
    : Type 0 where
  pub law : IsDocument c.doc → Reads ⊥ before (λ _. after) c (Arrives a c') m

pub pure-Parses : {A : Type 0} {n : ℕ} {c : Cursor} (a : A) → Parses n n c a c (pure a)
pure-Parses {n} {c} a = record {
  law = λ d. pure-Reads ⊥ n (λ _. n) c (Arrives a c) a refl (refl, refl, d);
}

follows :
    {A B : Type 0} {mid after : ℕ} {c' c'' : Cursor} {a : A} {b : B} (f : A → L B)
    → Parses mid after c' b c'' (f a)
    → (x : A) (y : Cursor) → Arrives a c' x y
    → Reads ⊥ mid (λ _. after) y (Arrives b c'') (f x)
follows f l x y p = rw (p.0, p.1) (l.law (rw p.1 at p.2))

pub bind-Parses :
    {A B : Type 0} {n mid after : ℕ} {c c' c'' : Cursor} {a : A} {b : B} {m : L A} (f : A → L B)
    → Parses n mid c a c' m
    → Parses mid after c' b c'' (f a)
    → Parses n after c b c'' (m >>= f)
bind-Parses {n} {mid} {after} {c} {c'} {c''} {a} {b} {m} f h l = record {
  law = λ d.
      bind-Reads ⊥ n (λ _. mid) (λ _. after) c (Arrives a c') (Arrives b c'') m f (h.law d)
        (follows f l);
}

pub undo-Parses :
    {A : Type 0} {n after : ℕ} {c c' : Cursor} {a : A} {m : L A} (out : M (Unit {0}))
    → Releases n out
    → Parses 0 after c a c' m
    → Parses n (n + after) c a c' (undo out m)
undo-Parses {n} {after} {c} {c'} {a} {m} out r h = record {
  law = λ d. undo-Reads ⊥ (λ _. after) c (Arrives a c') n out m r (h.law d);
}

pub unless_bad-Parses :
    {c : Cursor} (bad : Bool) (out : L (Unit {0}))
    → bad ≡ false
    → Parses 0 0 c tt c (unless_bad bad out)
unless_bad-Parses {c} bad out e = rw e (pure-Parses tt)

adding : {A : Type 0} (o : Option A) (x y : A) → o ≡ some x → o ≡ some y → x ≡ y
adding o x y e f = cc

pub adds-Parses :
    {rest : List ℕ} {d d' : Document} (op : Operation)
    → extended op d ≡ some d'
    → Parses 0 0 (at rest d) tt (at rest d') (adds op)
adds-Parses {rest} {d} {d'} op e = record {
  law = λ h.
      adds-Reads ⊥ (at rest d) h op (Arrives tt (at rest d')) (λ x. cc)
        (λ x f. (refl, ap (at rest) (adding _ x d' f e), extended-IsDocument op d x h f));
}

pub next_bytes-Parses :
    {rest : List ℕ} {d : Document} (bs : List ℕ)
    → Parses 0 0 (at (bs ++ rest) d) bs (at rest d) (next_bytes (length bs))
next_bytes-Parses {rest} {d} bs = record {
  law = λ h.
      next_bytes-Reads ⊥ (at (bs ++ rest) d) h (length bs) (Arrives bs (at rest d))
        (λ e. let full : cut (length bs) (bs ++ rest) ≡ some (bs, rest) = cut-append bs rest in cc)
        (λ p e.
          let same : p ≡ (bs, rest) = adding _ p (bs, rest) e (cut-append bs rest) in
          (ap (λ (q : List ℕ × List ℕ). q.0) same, ap (λ (q : List ℕ × List ℕ). at q.1 d) same, h));
}

pub read_number-Parses :
    {rest : List ℕ} {d : Document} (width n : ℕ)
    → n < 256 ^ width
    → Parses 0 0 (at (bytes_of width n ++ rest) d) n (at rest d) (read_number width)
unfolding read_number
read_number-Parses {rest} {d} width n h =
    let next : Parses 0 0 (at (bytes_of width n ++ rest) d) (bytes_of width n) (at rest d)
        (next_bytes width) =
      rw length-bytes_of at (next_bytes-Parses {rest = rest} {d = d} (bytes_of width n)) in
    bind-Parses _ next (rw (number-bytes_of width n h) (pure-Parses n))

-- A string as it stands on the wire.
abbrev pub IsWireText : Option CString → Type 0
IsWireText none = Unit
IsWireText (some s) = IsText s × (length s < 2 ^ 32)

take_all : (s : List ℕ) → take (length s) s ≡ s
take_all [] = refl
take_all (x ∷ xs) = ap (◌∷◌ x) (take_all xs)

pub whole_text : (s : CString) → length s < 2 ^ 32 → take (length s % 2 ^ 32) s ≡ s
whole_text s h = let same : length s % 2 ^ 32 ≡ length s = omega arith in rw same (take_all s)

pub read_bytes-Parses :
    {rest : List ℕ} {d : Document} (s : Option CString)
    → IsWireText s
    → Parses 0 0 (at (onto (string_chunks s) rest) d) (text_of s) (at rest d) read_bytes
unfolding read_bytes onto string_chunks
read_bytes-Parses none h =
    bind-Parses _ (read_number-Parses 4 0 (omega arith)) (next_bytes-Parses [])
read_bytes-Parses (some s) h =
    rw (whole_text s h.1)
      (bind-Parses _ (read_number-Parses 4 (length s) h.1) (next_bytes-Parses s))

pub new_string-Parses :
    {c : Cursor} (s : CString) → IsText s → Parses 0 1 c (some s) c (new_string s)
new_string-Parses {c} s t = record {
  law = λ h. new_string-Reads ⊥ c h s (Arrives (some s) c) (ap some (text-IsText s t), refl, h);
}

pub release-Parses : {c : Cursor} (n : ℕ) → Parses n 0 c tt c (release n)
release-Parses {c} n = record { law = λ h. release-Reads ⊥ n c (Arrives tt c) (refl, refl, h) }

-- Each number fits its width, and there are as many.
abbrev pub Fit : List ℕ → List ℕ → Type 0
Fit [] [] = Unit
Fit [] (n ∷ ns) = ⊥
Fit (width ∷ ws) [] = ⊥
Fit (width ∷ ws) (n ∷ ns) = (n < 256 ^ width) × Fit ws ns

pub read_numbers-Parses :
    {rest : List ℕ} {d : Document} (widths ns : List ℕ)
    → Fit widths ns
    → Parses 0 0 (at (onto (numbers widths ns) rest) d) ns (at rest d) (read_numbers widths)
unfolding read_numbers onto
read_numbers-Parses [] [] h = pure-Parses []
read_numbers-Parses [] (n ∷ ns) h = absurd h
read_numbers-Parses (width ∷ ws) [] h = absurd h
read_numbers-Parses (width ∷ ws) (n ∷ ns) h =
    bind-Parses _ (read_number-Parses width n h.0)
      (bind-Parses _ (read_numbers-Parses ws ns h.1) (pure-Parses (n ∷ ns)))
