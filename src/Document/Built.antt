-- ===== src/Document/Built.antt =====
-- src/landlock_policy_ir.c: any call that adds to a document, and any sequence of them.
use landlock.Base.{ℕ, ◌<◌, ◌≤◌, ◌≡◌, refl, arith, ◌⊎◌, inl, inr, none, some, List, [], ◌∷◌}
use landlock.Sys.{World, Outcome, done, failed, attempt, ◌>>=◌}
use landlock.Sys.Types.{Kernel}
use landlock.Memory.Blocks.{refusals, Leaves}
use landlock.Memory.Gains.{Gains}
use landlock.Document.Types.{Document}
use landlock.Document.Operations.{
  Operation, fs_layer, fs_rule, net, net_rule, path_rule, bind_rule, object_rule, addfd_rule,
  runtime_root, runtime_cwd, seccomp, deny_rule, apply, apply_all, kept,
}
use landlock.Document.Spec.{extended}
use landlock.Document.Wellformed.{IsDocument, document_blocks}
use landlock.Document.Extended.{extended-IsDocument}
use landlock.Document.Added.{Adds, Refuses, Does, document_add_path_rule-Does, add_bind_rule-Does}
use landlock.Document.AddedParts.{
  add_fs_layer-Does, enable_net-Does, enable_seccomp-Does, document_add_net_rule-Does,
  add_deny_rule-Does, set_runtime_root-Does, set_runtime_cwd-Does,
}
use landlock.Document.AddedRules.{document_add_fs_rule-Does, add_addfd_rule-Does}
use landlock.Document.AddedObjects.{add_object_rule-Does}

apply-Does : (op : Operation) (d : Document) → Does op d (apply op d)
unfolding apply
apply-Does (fs_layer handled) d = add_fs_layer-Does handled d
apply-Does (fs_rule i path allowed) d = document_add_fs_rule-Does i path allowed d
apply-Does (net handled) d = enable_net-Does handled d
apply-Does (net_rule port allowed) d = document_add_net_rule-Does port allowed d
apply-Does (path_rule field path) d = document_add_path_rule-Does field path d
apply-Does (bind_rule field source target ro) d = add_bind_rule-Does field source target ro d
apply-Does (object_rule name fs_type paths attrs) d =
    add_object_rule-Does name fs_type paths attrs d
apply-Does (addfd_rule action target mode) d = add_addfd_rule-Does action target mode d
apply-Does (runtime_root path) d = set_runtime_root-Does path d
apply-Does (runtime_cwd path) d = set_runtime_cwd-Does path d
apply-Does (seccomp error) d = enable_seccomp-Does error d
apply-Does (deny_rule nr) d = add_deny_rule-Does nr d

-- What one call does: the document of the specification, with all blocks that were taken, and no call
-- for memory refused; or nothing, with no block left behind, since a call was refused or since the
-- specification refuses the arguments.
abbrev pub Implements : Operation → Document → World → Outcome Document → Type 0
Implements op d w (done d' v) =
    (extended op d ≡ some d')
    × Leaves w v (document_blocks d) (document_blocks d')
    × (refusals v.trace ≡ refusals w.trace)
Implements op d w (failed v) =
    Leaves w v (document_blocks d) (document_blocks d)
    × (refusals w.trace ≤ refusals v.trace)
    × ((refusals w.trace < refusals v.trace) ⊎ (extended op d ≡ none))

implemented :
    (op : Operation) (d : Document) (w : World) (n : ℕ) (o : Outcome Document)
    → Gains (Refuses op d) 0 n (Adds op d n) w o
    → Implements op d w o
implemented op d w n (done d' v) g = (g.0.0, omega (arith, g.0.1, g.1), g.2)
implemented op d w n (failed v) g = (omega (arith, g.0), g.1, g.2)

-- Each function that adds to a document implements its specification, memory apart: where it succeeds
-- the document is the one of the specification and holds the blocks that were taken; where it fails no
-- block is left behind, and a call for memory was refused or the specification refuses the arguments.
pub apply-Implements :
    (op : Operation) (d : Document) (k : Kernel) (w : World) → Implements op d w (apply op d k w)
apply-Implements op d k w =
    implemented op d w (apply-Does op d).0 (apply op d k w) ((apply-Does op d).1 k w)

-- The document after the calls, were memory unlimited.
abbrev pub extended_all : List Operation → Document → Document
extended_all [] d = d
extended_all (op ∷ ops) d = extended_all ops (kept d (extended op d))

-- A document after some calls: it is well formed and holds all blocks that were taken, and is the one
-- of the specification if no call for memory was refused.
abbrev pub Built : List Operation → Document → World → Outcome Document → Type 0
Built ops d w (done d' v) =
    IsDocument d'
    × Leaves w v (document_blocks d) (document_blocks d')
    × (refusals v.trace ≡ refusals w.trace → d' ≡ extended_all ops d)
    × (refusals w.trace ≤ refusals v.trace)
Built ops d w (failed v) = ⊥

-- A call that fails, and one that succeeds, before the rest.
after_failure :
    (op : Operation) (ops : List Operation) (d : Document) (w v : World) (o : Outcome Document)
    → Leaves w v (document_blocks d) (document_blocks d)
    → refusals w.trace ≤ refusals v.trace
    → (refusals w.trace < refusals v.trace) ⊎ (extended op d ≡ none)
    → Built ops d v o
    → Built (op ∷ ops) d w o
after_failure op ops d w v (done d' u) l m (inl r) g =
    (g.0, omega (arith, l, g.1), λ e. absurd (omega (arith, r, e, g.3)), omega (arith, m, g.3))
after_failure op ops d w v (done d' u) l m (inr e) g =
    (g.0, omega (arith, l, g.1), λ f. rw e (g.2 (omega (arith, m, f, g.3))), omega (arith, m, g.3))
after_failure op ops d w v (failed u) l m r g = g

after_success :
    (op : Operation) (ops : List Operation) (d d' : Document) (w v : World) (o : Outcome Document)
    → extended op d ≡ some d'
    → Leaves w v (document_blocks d) (document_blocks d')
    → refusals v.trace ≡ refusals w.trace
    → Built ops d' v o
    → Built (op ∷ ops) d w o
after_success op ops d d' w v (done d'' u) e l f g =
    (g.0, omega (arith, l, g.1), λ h. rw e (g.2 (omega (arith, f, h))), omega (arith, f, g.3))
after_success op ops d d' w v (failed u) e l f g = g

first_call :
    (op : Operation) (ops : List Operation) (d : Document) (k : Kernel) (w : World)
    (o : Outcome Document)
    → IsDocument d
    → Implements op d w o
    → ((d' : Document) (v : World) → IsDocument d' → Built ops d' v (apply_all ops d' k v))
    → Built (op ∷ ops) d w ((attempt (λ _ _. o) >>= λ r. apply_all ops (kept d r)) k w)
first_call op ops d k w (done d' v) h i rest =
    after_success op ops d d' w v (apply_all ops d' k v) i.0 i.1 i.2
      (rest d' v (extended-IsDocument op d d' h i.0))
first_call op ops d k w (failed v) h i rest =
    after_failure op ops d w v (apply_all ops d k v) i.0 i.1 i.2 (rest d v h)

-- After any calls that add to a document, of which some may fail, it is well formed and holds all the
-- blocks that were taken, and it is the document of the specification if no call for memory was refused.
pub apply_all-Built :
    (ops : List Operation) (d : Document) (k : Kernel) (w : World)
    → IsDocument d
    → Built ops d w (apply_all ops d k w)
unfolding apply_all
apply_all-Built [] d k w h = (h, omega arith, λ e. refl, omega arith)
apply_all-Built (op ∷ ops) d k w h =
    first_call op ops d k w (apply op d k w) h (apply-Implements op d k w)
      (λ d' v g. apply_all-Built ops d' k v g)
