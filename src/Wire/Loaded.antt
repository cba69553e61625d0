-- ===== src/Wire/Loaded.antt =====
-- src/landlock_policy_loader.c: what `landlockd_policy_load_file` leaves of any bytes of the helper.
use landlock.Base.{ℕ, ◌+◌, arith, List, Option, some}
use landlock.Sys.{World, Outcome, done, failed, pure, fail, set_errno, ◌>>=◌, ◌>>◌}
use landlock.Sys.Types.{Kernel}
use landlock.Memory.{frees}
use landlock.Memory.Blocks.{Leaves}
use landlock.Memory.Releases.{Frees, frees-Releases}
use landlock.Document.Types.{Document, blank_document}
use landlock.Document.Wellformed.{IsDocument, document_blocks, blank-IsDocument}
use landlock.Document.Reset.{document_reset}
use landlock.Document.ResetLaws.{IsReset, document_reset-IsReset}
use landlock.Wire.Reader.{Cursor, Progress, got, lost}
use landlock.Wire.Reads.{held_by_lem, Reaches}
use landlock.Wire.Whole.{load_ir_from_wire}
use landlock.Wire.Safe.{Good}
use landlock.Wire.SafeWhole.{load_ir_from_wire-Keeps}
use landlock.Wire.File.{ended, load_buffer}

-- Of the `n` blocks of the buffers and those that were taken, the ones of the document are left, which is
-- well formed; or none, after a failure.
abbrev pub Loaded : ℕ → World → Outcome Document → Type 0
Loaded n w (done d v) = IsDocument d × Leaves w v n (document_blocks d)
Loaded n w (failed v) = Leaves w v n 0

module _ (n : ℕ) (k : Kernel) (w v : World) (d : Document)
    (taken : Leaves w v n (document_blocks d + n)) where
  kept :
      (o : Outcome (Unit {0}))
      → IsDocument d
      → Frees n v o
      → Loaded n w (((λ _ _. o) >> pure d) k v)
  kept (done u x) h f = (h, omega (arith, taken, f))
  kept (failed x) h f = absurd f

  dropped_buffers :
      (e : ℕ) (x : World) (o : Outcome (Unit {0}))
      → Leaves w x n n
      → Frees n x o
      → Loaded n w (((λ _ _. o) >> (set_errno e >> fail)) k x)
  dropped_buffers e x (done u y) l f = omega (arith, l, f)
  dropped_buffers e x (failed y) l f = absurd f

  dropped :
      (e : ℕ) (o : Outcome (Option Document))
      → IsReset d v o
      → Loaded n w (((λ _ _. o) >>= λ left. frees n >> (set_errno e >> fail)) k v)
  dropped e (done r x) h =
      dropped_buffers e x (frees n k x) (omega (arith, taken, h)) (frees-Releases n k x)
  dropped e (failed x) h = absurd h

ended-Loaded :
    (n : ℕ) (bytes : List ℕ) (k : Kernel) (w : World) (o : Progress (Unit {0}))
    → Reaches Unit 0 (λ _. 0) (record { rest = bytes; doc = blank_document }) Good w o
    → Loaded n w (ended n o k w)
ended-Loaded n bytes k w (got u c v) h =
    kept n k w v c.doc (omega (arith, h.1, held_by_lem blank_document, held_by_lem c.doc))
      (frees n k v) h.0 (frees-Releases n k v)
ended-Loaded n bytes k w (lost d v) h =
    dropped n k w v d (omega (arith, h.1, held_by_lem blank_document, held_by_lem d)) v.errno
      (document_reset (some d) k v) (document_reset-IsReset d k v)

-- Whatever bytes the helper has written, and whatever calls for memory are refused: where the loader
-- succeeds on a blank document, the document is well formed, and of the blocks of the buffers and those
-- that were taken since, only the blocks of the document are left; where it fails, none is.
pub load_buffer-Loaded :
    (n : ℕ) (bytes : List ℕ) (k : Kernel) (w : World)
    → Loaded n w (load_buffer n bytes blank_document k w)
unfolding load_buffer
load_buffer-Loaded n bytes k w =
    let c : Cursor = record { rest = bytes; doc = blank_document } in
    ended-Loaded n bytes k w (load_ir_from_wire k c w)
      (load_ir_from_wire-Keeps.law c blank-IsDocument k w)
