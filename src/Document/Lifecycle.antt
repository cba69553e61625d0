-- ===== src/Document/Lifecycle.antt =====
-- src/landlock_policy_ir.c: a document is built, copied, and both documents are released.
use landlock.Base.{ℕ, ◌+◌, ◌≡◌, arith, inl, inr, Bool-cases, Option, some, List}
use landlock.Sys.{World, Outcome, M, done, failed, ◌>>=◌}
use landlock.Sys.Types.{Kernel}
use landlock.Memory.{Copied}
use landlock.Memory.Blocks.{refusals, Leaves, Refused}
use landlock.Document.Types.{Document, blank_document}
use landlock.Document.Operations.{Operation, apply_all}
use landlock.Document.Copy.{document_copy}
use landlock.Document.Reset.{document_reset}
use landlock.Document.ResetLaws.{IsReset, document_reset-IsReset}
use landlock.Document.Wellformed.{blank-IsDocument, document_blocks}
use landlock.Document.Copied.{Made, IsCopied, document_copy-IsCopied}
use landlock.Document.Built.{Built, apply_all-Built}

-- Any calls that add to a document, a copy of it, and a reset of each.
abbrev pub lifecycle : List Operation → M (Option Document)
lifecycle ops = do
  d ← apply_all ops blank_document
  copy ← document_copy (some d) (some blank_document)
  left ← document_reset (some d)
  document_reset copy.value

-- The document is blank, and no block is left of those that were taken since `w` and of `n` others.
abbrev pub AllFreed : ℕ → World → Outcome (Option Document) → Type 0
AllFreed n w (done r v) = (r ≡ some blank_document) × Leaves w v n 0
AllFreed n w (failed v) = ⊥

-- The last reset.
copy_freed :
    (c : Document) (w v : World) (n : ℕ) (o : Outcome (Option Document))
    → Leaves w v n (document_blocks c)
    → IsReset c v o
    → AllFreed n w o
copy_freed c w v n (done r u) l h = (h.0, omega (arith, l, h.1, h.2))
copy_freed c w v n (failed u) l h = h

-- The first.
source_freed :
    (d c : Document) (k : Kernel) (w : World) (o : Outcome (Option Document))
    → IsReset d w o
    → AllFreed
        (document_blocks d + document_blocks c)
        w
        (((λ _ _. o) >>= λ left. document_reset (some c)) k w)
source_freed d c k w (done r v) h =
    copy_freed c w v _ (document_reset (some c) k v) (omega (arith, h.2))
      (document_reset-IsReset c k v)
source_freed d c k w (failed v) h = h

-- Completed or not, a copy leaves a document with the blocks that it took.
copied_value :
    (src : Document) (w v : World) (r : Copied (Option Document))
    → Made src w v r
    → (c : Document) × (r.value ≡ some c) × Leaves w v 0 (document_blocks c)
copied_value src w v r m = elim (Bool-cases r.whole) [
  | inl whole ↦
      let h : (r.value ≡ some src)
          × Leaves w v 0 (document_blocks src)
          × (refusals v.trace ≡ refusals w.trace) =
        rw whole at m in
      (src, h.0, h.1)
  | inr cut ↦
      let h : (r.value ≡ some blank_document) × Leaves w v 0 0 × Refused w v = rw cut at m in
      (blank_document, h.0, h.1)
]

abbrev freed_both : Document → Copied (Option Document) → M (Option Document)
freed_both d copy = document_reset (some d) >>= λ left. document_reset copy.value

longer :
    (n m : ℕ) (w v : World) (o : Outcome (Option Document))
    → Leaves w v n m
    → AllFreed m v o
    → AllFreed n w o
longer n m w v (done r u) l h = (h.0, omega (arith, l, h.1))
longer n m w v (failed u) l h = h

both_freed :
    (d : Document) (k : Kernel) (w : World) (o : Outcome (Copied (Option Document)))
    → IsCopied d w o
    → AllFreed (document_blocks d) w (((λ _ _. o) >>= freed_both d) k w)
both_freed d k w (failed v) h = h
both_freed d k w (done r v) h =
    let c : (c : Document) × (r.value ≡ some c) × Leaves w v 0 (document_blocks c) =
      copied_value d w v r h in
    rw c.1 (
      longer (document_blocks d) (document_blocks d + document_blocks c.0) w v _
        (omega (arith, c.2))
        (source_freed d c.0 k v (document_reset (some d) k v) (document_reset-IsReset d k v)))

freed_after_building :
    (ops : List Operation) (k : Kernel) (w : World) (o : Outcome Document)
    → Built ops blank_document w o
    → AllFreed 0 w
        (((λ _ _. o) >>= λ d. document_copy (some d) (some blank_document) >>= freed_both d) k w)
freed_after_building ops k w (failed v) h = h
freed_after_building ops k w (done d v) h =
    longer 0 (document_blocks d) w v _ (omega (arith, h.1)) (
      both_freed d k v (document_copy (some d) (some blank_document) k v)
        (document_copy-IsCopied d h.0 k v))

-- A document that is built from a blank one by any calls, of which some may fail, then copied, whether
-- the copy is completed or not, leaves no block behind after a reset of both documents, the second of
-- which, of the copy, gives a blank document.
pub lifecycle-AllFreed :
    (ops : List Operation) (k : Kernel) (w : World) → AllFreed 0 w (lifecycle ops k w)
lifecycle-AllFreed ops k w =
    freed_after_building ops k w (apply_all ops blank_document k w)
      (apply_all-Built ops blank_document k w blank-IsDocument)
