-- ===== src/Wire/Reads.antt =====
-- src/landlock_policy_loader.c: what a part of `load_ir_from_wire` leaves of the heap and of the document.
use landlock.Base.{ℕ, ◌+◌, ◌<◌, ◌≤◌, ◌≡◌, refl, arith, ◌⊎◌, inl, inr, Bool, true, false}
use landlock.Base.{Option, none, some, List, length}
use landlock.Sys.{World, Outcome, M, answered, call, done, failed, set_errno}
use landlock.Sys.Types.{Kernel, Call, CString, Answer, ret, fails}
use landlock.Memory.{frees}
use landlock.Memory.Blocks.{refusals, Leaves}
use landlock.Memory.Releases.{Frees, Releases, frees-Releases}
use landlock.Document.Types.{Document}
use landlock.Document.Operations.{Operation, apply}
use landlock.Document.Spec.{extended}
use landlock.Document.Wellformed.{IsDocument, document_blocks}
use landlock.Document.Built.{Implements, apply-Implements}
use landlock.Wire.Bytes.{cut, text}
use landlock.Wire.Cleanups.{free_invalid, free_saved}
use landlock.Wire.Reader.{
  Cursor, Progress, got, lost, L, pure, ◌>>=◌, give_up, refuse, unless_bad, lifted, lift, extending,
  adds, leaving, undo, advanced, next_bytes, new_string, release,
}

-- The blocks of a document, as one number.
pub held_by : Document → ℕ
held_by d = document_blocks d

-- A part that begins with `before` blocks apart from the document's: where it goes on, the value and the
-- cursor are in `P`, there are `after` blocks, and no call for memory was refused; where it fails, the
-- document is well formed, the other blocks are freed, and a call was refused or the input is `Bad`.
abbrev pub Reaches :
    {A : Type 0}
    → Type 0
    → ℕ
    → (A → ℕ)
    → Cursor
    → (A → Cursor → Type 0)
    → World
    → Progress A
    → Type 0
Reaches Bad before after c P w (got a c' v) =
    P a c'
    × Leaves w v (held_by c.doc + before) (held_by c'.doc + after a)
    × (refusals v.trace ≡ refusals w.trace)
Reaches Bad before after c P w (lost d v) =
    IsDocument d
    × Leaves w v (held_by c.doc + before) (held_by d)
    × (refusals w.trace ≤ refusals v.trace)
    × ((refusals w.trace < refusals v.trace) ⊎ Bad)

-- `set_errno` keeps what is counted.
kept_errno :
    (n e : ℕ) (w : World) (o : Outcome (Unit {0})) (k : Kernel)
    → Frees n w o
    → Frees n w (elim o [ done u v ↦ set_errno e k v | failed v ↦ failed v ])
kept_errno n e w (done u v) k h = h
kept_errno n e w (failed v) k h = h

pub free_invalid-Releases : (n : ℕ) → Releases n (free_invalid n)
unfolding free_invalid
free_invalid-Releases n k w = kept_errno n _ w (frees n k w) k (frees-Releases n k w)

pub free_saved-Releases : (n : ℕ) → Releases n (free_saved n)
unfolding free_saved
free_saved-Releases n k w = kept_errno n _ w (frees n k w) k (frees-Releases n k w)

module _ (Bad : Type 0) where
  abbrev pub Reads : {A : Type 0} → ℕ → (A → ℕ) → Cursor → (A → Cursor → Type 0) → L A → Type 0
  Reads before after c P m = (k : Kernel) (w : World) → Reaches Bad before after c P w (m k c w)

  pub pure-Reads :
      {A : Type 0} (n : ℕ) (after : A → ℕ) (c : Cursor) (P : A → Cursor → Type 0) (a : A)
      → after a ≡ n
      → P a c
      → Reads n after c P (pure a)
  pure-Reads n after c P a e p k w = (p, omega arith, refl)

  later :
      {B : Type 0} (n m : ℕ) (after : B → ℕ) (c c' : Cursor) (Q : B → Cursor → Type 0) (w v : World)
      → Leaves w v (held_by c.doc + n) (held_by c'.doc + m)
      → refusals v.trace ≡ refusals w.trace
      → (o : Progress B) → Reaches Bad m after c' Q v o
      → Reaches Bad n after c Q w o
  later n m after c c' Q w v l f (got b x u) g = (g.0, omega (arith, l, g.1), omega (arith, f, g.2))
  later n m after c c' Q w v l f (lost d u) g =
      (g.0, omega (arith, l, g.1), omega (arith, f, g.2), sooner g.3)
    where
      sooner :
          (refusals v.trace < refusals u.trace) ⊎ Bad → (refusals w.trace < refusals u.trace) ⊎ Bad
      sooner (inl r) = inl (omega arith)
      sooner (inr b) = inr b

  module _ {A B : Type 0} (n : ℕ) (mid : A → ℕ) (after : B → ℕ) where
    bound :
        (P : A → Cursor → Type 0) (Q : B → Cursor → Type 0) (f : A → L B) (k : Kernel) (c : Cursor)
        (w : World) (o : Progress A)
        → Reaches Bad n mid c P w o
        → ((a : A) (c' : Cursor) → P a c' → Reads (mid a) after c' Q (f a))
        → Reaches Bad n after c Q w (((λ _ _ _. o) >>= f) k c w)
    bound P Q f k c w (got a c' v) g h =
        later n (mid a) after c c' Q w v g.1 g.2 (f a k c' v) (h a c' g.0 k v)
    bound P Q f k c w (lost d v) g h = g

    pub bind-Reads :
        (c : Cursor) (P : A → Cursor → Type 0) (Q : B → Cursor → Type 0) (m : L A) (f : A → L B)
        → Reads n mid c P m
        → ((a : A) (c' : Cursor) → P a c' → Reads (mid a) after c' Q (f a))
        → Reads n after c Q (m >>= f)
    bind-Reads c P Q m f h l k w = bound P Q f k c w (m k c w) (h k w) l

  module _ {A : Type 0} (after : A → ℕ) (c : Cursor) (P : A → Cursor → Type 0) where
    pub give_up-Reads : IsDocument c.doc → Bad → Reads 0 after c P give_up
    give_up-Reads h b k w = (h, omega arith, omega arith, inr b)

    pub refuse-Reads : IsDocument c.doc → Bad → Reads 0 after c P refuse
    refuse-Reads h b k w = (h, omega arith, omega arith, inr b)

    left :
        (n : ℕ) (d : Document) (w v : World) (o : Outcome (Unit {0}))
        → Reaches Bad 0 after c P w (lost d v)
        → Frees n v o
        → Reaches Bad n (λ a. n + after a) c P w (leaving d o)
    left n d w v (done u x) g f = (g.0, omega (arith, g.1, f), omega (arith, g.2, f), sooner g.3)
      where
        sooner :
            (refusals w.trace < refusals v.trace) ⊎ Bad
            → (refusals w.trace < refusals x.trace) ⊎ Bad
        sooner (inl r) = inl (omega (arith, f))
        sooner (inr b) = inr b
    left n d w v (failed x) g f = absurd f

    undone :
        (n : ℕ) (out : M (Unit {0})) (k : Kernel) (w : World) (o : Progress A)
        → Releases n out
        → Reaches Bad 0 after c P w o
        → Reaches Bad n (λ a. n + after a) c P w (undo out (λ _ _ _. o) k c w)
    unfolding undo
    undone n out k w (got a c' v) r g = (g.0, omega (arith, g.1), g.2)
    undone n out k w (lost d v) r g = left n d w v (out k v) g (r k v)

    pub undo-Reads :
        (n : ℕ) (out : M (Unit {0})) (m : L A)
        → Releases n out
        → Reads 0 after c P m
        → Reads n (λ a. n + after a) c P (undo out m)
    unfolding undo
    undo-Reads n out m r h k w = undone n out k w (m k c w) r (h k w)

  module _ (c : Cursor) (whole : IsDocument c.doc) where
    pub unless_bad-Reads :
        (bad : Bool) (out : L (Unit {0})) (P : Unit {0} → Cursor → Type 0)
        → (bad ≡ true → Reads 0 (λ _. 0) c P out)
        → (bad ≡ false → P tt c)
        → Reads 0 (λ _. 0) c P (unless_bad bad out)
    unless_bad-Reads true out P h p k w = h refl k w
    unless_bad-Reads false out P h p k w = (p refl, omega arith, refl)

    extended_by :
        (op : Operation) (P : Unit {0} → Cursor → Type 0) (w : World) (o : Outcome Document)
        → (extended op c.doc ≡ none → Bad)
        → ((d : Document) → extended op c.doc ≡ some d → P tt (record c { doc = d }))
        → Implements op c.doc w o
        → Reaches Bad 0 (λ _. 0) c P w (extending c o)
    unfolding held_by
    extended_by op P w (done d v) b p i = (p d i.0, omega (arith, i.1), i.2)
    extended_by op P w (failed v) b p i = (whole, omega (arith, i.0), i.1, why i.2)
      where
        why :
            (refusals w.trace < refusals v.trace) ⊎ (extended op c.doc ≡ none)
            → (refusals w.trace < refusals v.trace) ⊎ Bad
        why (inl r) = inl r
        why (inr e) = inr (b e)

    pub adds-Reads :
        (op : Operation) (P : Unit {0} → Cursor → Type 0)
        → (extended op c.doc ≡ none → Bad)
        → ((d : Document) → extended op c.doc ≡ some d → P tt (record c { doc = d }))
        → Reads 0 (λ _. 0) c P (adds op)
    unfolding adds
    adds-Reads op P b p k w =
        extended_by op P w (apply op c.doc k w) b p (apply-Implements op c.doc k w)

    advanced-Reads :
        (P : List ℕ → Cursor → Type 0) (o : Option (List ℕ × List ℕ))
        → (o ≡ none → Bad)
        → ((p : List ℕ × List ℕ) → o ≡ some p → P p.0 (record c { rest = p.1 }))
        → Reads 0 (λ _. 0) c P (advanced o)
    advanced-Reads P none b p k w = (whole, omega arith, omega arith, inr (b refl))
    advanced-Reads P (some q) b p k w = (p q refl, omega arith, refl)

    pub next_bytes-Reads :
        (n : ℕ) (P : List ℕ → Cursor → Type 0)
        → (cut n c.rest ≡ none → Bad)
        → ((p : List ℕ × List ℕ) → cut n c.rest ≡ some p → P p.0 (record c { rest = p.1 }))
        → Reads 0 (λ _. 0) c P (next_bytes n)
    unfolding next_bytes
    next_bytes-Reads n P b p k w = advanced-Reads P (cut n c.rest) b p k w

    allocated :
        (n : ℕ) (w : World) (a : Answer) (P : ℕ → Cursor → Type 0)
        → ((v : ℕ) → P v c)
        → Reaches Bad 0 (λ _. 1) c P w (lifted c (answered (Call.allocate n) w a))
    allocated n w (ret v e) P p = (p v, omega arith, refl)
    allocated n w (fails e) P p = (whole, omega arith, omega arith, inl (omega arith))

    pub allocate-Reads :
        (n : ℕ) (P : ℕ → Cursor → Type 0)
        → ((v : ℕ) → P v c)
        → Reads 0 (λ _. 1) c P (lift (call (Call.allocate n)))
    allocate-Reads n P p k w = allocated n w (k w.trace (Call.allocate n)) P p

    pub new_string-Reads :
        (bs : List ℕ) (P : Option CString → Cursor → Type 0)
        → P (some (text bs)) c
        → Reads 0 (λ _. 1) c P (new_string bs)
    unfolding new_string
    new_string-Reads bs P p =
        bind-Reads 0 (λ _. 1) (λ _. 1) c (λ a c'. P (some (text bs)) c') P
          (lift (call (Call.allocate (length bs + 1)))) (λ _. pure (some (text bs)))
          (allocate-Reads (length bs + 1) (λ a c'. P (some (text bs)) c') (λ v. p))
          (λ a c' q. pure-Reads 1 (λ _. 1) c' P (some (text bs)) refl q)

  released :
      (n : ℕ) (c : Cursor) (P : Unit {0} → Cursor → Type 0) (w : World) (o : Outcome (Unit {0}))
      → P tt c
      → Frees n w o
      → Reaches Bad n (λ _. 0) c P w (lifted c o)
  released n c P w (done tt v) p f = (p, omega (arith, f), f.2)
  released n c P w (failed v) p f = absurd f

  pub release-Reads :
      (n : ℕ) (c : Cursor) (P : Unit {0} → Cursor → Type 0)
      → P tt c
      → Reads n (λ _. 0) c P (release n)
  unfolding release
  release-Reads n c P p k w = released n c P w (frees n k w) p (frees-Releases n k w)

pub held_by_lem : (d : Document) → held_by d ≡ document_blocks d
unfolding held_by
held_by_lem d = refl
