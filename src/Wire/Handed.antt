-- ===== src/Wire/Handed.antt =====
-- src/landlock_policy_loader.c: a document goes from the policy helper to its caller.
use landlock.Base.{
  ℕ, ◌<◌, ◌≡◌, refl, ap, ◌∙◌, arith, ◌⊎◌, inl, inr, List, [], ◌∷◌, ◌++◌, Option, some,
}
use landlock.Sys.{World, Outcome, done, failed, pure, fail, set_errno, ◌>>=◌, ◌>>◌}
use landlock.Sys.Types.{Kernel}
use landlock.Memory.{frees}
use landlock.Memory.Blocks.{refusals}
use landlock.Memory.Releases.{Frees, frees-Releases}
use landlock.Document.Types.{Document, blank_document}
use landlock.Document.Wellformed.{IsDocument, blank-IsDocument}
use landlock.Document.Reset.{document_reset}
use landlock.Document.ResetLaws.{IsReset, document_reset-IsReset}
use landlock.Output.{
  WriteAnswer, Sending, complete, stopped, waiting, after, write_all, and_then, write_blocks,
}
use landlock.Output.Sent.{IsSent, write_all-IsSent}
use landlock.Wire.Reader.{Cursor, Progress, got, lost}
use landlock.Wire.Reads.{Reaches}
use landlock.Wire.Whole.{load_ir_from_wire}
use landlock.Wire.Store.{write_ir, onto}
use landlock.Wire.Parses.{at, Arrives}
use landlock.Wire.RoundTrip.{IsWireDocument, load_ir_from_wire-Parses}
use landlock.Wire.File.{ended, load_buffer}

-- The bytes of a completed output.
abbrev pub Sends : List ℕ → Sending → Type 0
Sends bytes (complete out left) = out ≡ bytes
Sends bytes (stopped out) = Unit
Sends bytes (waiting out) = Unit

after-Sends :
    (out rest bytes : List ℕ) (s : Sending)
    → out ++ rest ≡ bytes
    → Sends rest s
    → Sends bytes (after out s)
after-Sends out rest bytes (complete more left) e h = ap (λ t. out ++ t) h ∙ e
after-Sends out rest bytes (stopped more) e h = tt
after-Sends out rest bytes (waiting more) e h = tt

next-Sends :
    (c : List ℕ) (cs : List (List ℕ)) (s : Sending)
    → IsSent c s
    → ((left : List WriteAnswer) → Sends (onto cs []) (write_blocks left cs))
    → Sends (onto (c ∷ cs) []) (and_then s (λ left. write_blocks left cs))
unfolding onto
next-Sends c cs (complete out left) e h =
    after-Sends out (onto cs []) (c ++ onto cs []) (write_blocks left cs)
      (ap (λ t. t ++ onto cs []) e) (h left)
next-Sends c cs (stopped out) e h = tt
next-Sends c cs (waiting out) e h = tt

write_blocks-Sends :
    (answers : List WriteAnswer) (cs : List (List ℕ)) → Sends (onto cs []) (write_blocks answers cs)
unfolding write_blocks onto
write_blocks-Sends answers [] = refl
write_blocks-Sends answers (c ∷ cs) =
    next-Sends c cs (write_all answers c) (write_all-IsSent answers c)
      (λ left. write_blocks-Sends left cs)

-- The document that was loaded is the one that was written, or a call for memory was refused.
abbrev pub Handed : Document → World → Outcome Document → Type 0
Handed d w (done d' v) = d' ≡ d
Handed d w (failed v) = refusals w.trace < refusals v.trace

module _ (n : ℕ) (d : Document) (k : Kernel) (w : World) where
  kept :
      (x : Document) (v : World) (o : Outcome (Unit {0}))
      → x ≡ d
      → Frees n v o
      → Handed d w (((λ _ _. o) >> pure x) k v)
  kept x v (done u y) e f = e
  kept x v (failed y) e f = absurd f

  dropped_buffers :
      (e : ℕ) (x : World) (o : Outcome (Unit {0}))
      → refusals w.trace < refusals x.trace
      → Frees n x o
      → Handed d w (((λ _ _. o) >> (set_errno e >> fail)) k x)
  dropped_buffers e x (done u y) l f = omega (arith, l, f)
  dropped_buffers e x (failed y) l f = absurd f

  dropped :
      (e : ℕ) (x : Document) (v : World) (o : Outcome (Option Document))
      → refusals w.trace < refusals v.trace
      → IsReset x v o
      → Handed d w (((λ _ _. o) >>= λ left. frees n >> (set_errno e >> fail)) k v)
  dropped e x v (done r y) l h =
      dropped_buffers e y (frees n k y) (omega (arith, l, h)) (frees-Releases n k y)
  dropped e x v (failed y) l h = absurd h

  ended-Handed :
      (c : Cursor) (o : Progress (Unit {0}))
      → Reaches ⊥ 0 (λ _. 0) c (Arrives tt (at [] d)) w o
      → Handed d w (ended n o k w)
  ended-Handed c (got u c' v) h =
      kept c'.doc v (frees n k v) (ap (λ (x : Cursor). x.doc) h.0.1) (frees-Releases n k v)
  ended-Handed c (lost x v) h =
      dropped v.errno x v (document_reset (some x) k v) (refused h.3) (document_reset-IsReset x k v)
    where
      refused : (refusals w.trace < refusals v.trace) ⊎ ⊥ → refusals w.trace < refusals v.trace
      refused (inl r) = r
      refused (inr b) = absurd b

  load_buffer-bytes :
      IsDocument d
      → IsWireDocument d
      → Handed d w (load_buffer n (onto (write_ir d) []) blank_document k w)
  unfolding load_buffer
  load_buffer-bytes whole h =
      let c : Cursor = at (onto (write_ir d) []) blank_document in
      ended-Handed c (load_ir_from_wire k c w)
        ((load_ir_from_wire-Parses d whole h).law blank-IsDocument k w)

-- A well-formed document that fits the wire, written by the helper with any answers of `write` that let it
-- complete, is loaded as it was by the caller, or a call for memory was refused there.
pub load_buffer-write_ir :
    (n : ℕ) (d : Document) (answers : List WriteAnswer) (k : Kernel) (w : World) {out : List ℕ}
    {left : List WriteAnswer}
    → IsDocument d
    → IsWireDocument d
    → write_blocks answers (write_ir d) ≡ complete out left
    → Handed d w (load_buffer n out blank_document k w)
load_buffer-write_ir n d answers k w {out} {left} whole h e =
    let sent : Sends (onto (write_ir d) []) (write_blocks answers (write_ir d)) =
      write_blocks-Sends answers (write_ir d) in
    let same : out ≡ onto (write_ir d) [] = rw e at sent in
    rw same (load_buffer-bytes n d k w whole h)
