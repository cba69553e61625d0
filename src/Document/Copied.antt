-- ===== src/Document/Copied.antt =====
-- src/landlock_policy_ir.c, `landlockd_policy_ir_copy`: the copy as a whole.
use landlock.Base.{
  ℕ, ◌≡◌, refl, sym, ap, ◌∙◌, arith, Bool, true, false, not, ◌&&◌, Option, none, some, inl, inr,
  Bool-cases, if◌then◌else◌,
}
use landlock.Sys.{World, Outcome, set_errno, done, failed, ◌>>=◌, ◌>>◌}
use landlock.Sys.Types.{Kernel}
use landlock.Memory.{Array, Copied, stopped, array, second, is_absent}
use landlock.Memory.Blocks.{refusals, Leaves, Refused}
use landlock.Memory.Account.{string_blocks, IsArray, array_blocks, Copies, CopyLaw}
use landlock.Memory.CopyLaws.{
  pair_blocks, first-made, then_copy-CopyLaw, array-CopyLaw, string-CopyLaw,
}
use landlock.Document.Types.{Document, DocumentLayer, blank_document}
use landlock.Document.Reset.{document_reset}
use landlock.Document.ResetLaws.{document_reset-IsReset, IsReset}
use landlock.Document.Copy.{
  rest_copier, Rest, Fields, fields_of, document_of, copy_ends, layers_end, document_copy,
}
use landlock.Document.Parts.{layer_copier, bind_copier, object_copier, addfd_copier}
use landlock.Document.CopyLaws.{
  layer_copier-CopyLaw, net_copier-CopyLaw, paths_copier-CopyLaw, bind_copier-CopyLaw,
  object_copier-CopyLaw, addfd_copier-CopyLaw, seccomp_copier-CopyLaw, part_blocks, IsWhole,
}
use landlock.Document.Wellformed.{
  IsDocument, IsDocumentLayer, IsPart, IsMode, IsBind, IsObject, IsAddfd, IsNamed, IsNetRule,
  IsDeny, layer_blocks, bind_blocks, object_blocks, addfd_blocks, document_blocks, paths_blocks,
}

abbrev rest_blocks : Rest → ℕ
rest_blocks = pair_blocks part_blocks (
    pair_blocks paths_blocks (
      pair_blocks paths_blocks (
        pair_blocks paths_blocks (
          pair_blocks paths_blocks (
            pair_blocks paths_blocks (
              pair_blocks (array_blocks bind_blocks) (
                pair_blocks (array_blocks object_blocks) (
                  pair_blocks (array_blocks addfd_blocks) (
                    pair_blocks paths_blocks (
                      pair_blocks (array_blocks bind_blocks) (
                        pair_blocks paths_blocks (
                          pair_blocks string_blocks
                            (pair_blocks string_blocks part_blocks)))))))))))))

abbrev RestOk : Rest → Type 0
RestOk p =
    IsWhole IsNetRule p.0
    × (IsArray IsNamed p.1.0
        × (IsArray IsNamed p.1.1.0
            × (IsArray IsNamed p.1.1.1.0
                × (IsArray IsNamed p.1.1.1.1.0
                    × (IsArray IsNamed p.1.1.1.1.1.0
                        × (IsArray IsBind p.1.1.1.1.1.1.0
                            × (IsArray IsObject p.1.1.1.1.1.1.1.0
                                × (IsArray IsAddfd p.1.1.1.1.1.1.1.1.0
                                    × (IsArray IsNamed p.1.1.1.1.1.1.1.1.1.0
                                        × (IsArray IsBind p.1.1.1.1.1.1.1.1.1.1.0
                                            × (IsArray IsNamed p.1.1.1.1.1.1.1.1.1.1.1.0
                                                × (IsMode p.1.1.1.1.1.1.1.1.1.1.1.1.0
                                                    × (IsMode p.1.1.1.1.1.1.1.1.1.1.1.1.1.0
                                                        × (IsWhole IsDeny
                                                            p.1.1.1.1.1.1.1.1.1.1.1.1.1.1))))))))))))))

rest-CopyLaw : CopyLaw rest_copier rest_blocks RestOk
rest-CopyLaw = then_copy-CopyLaw _ _ net_copier-CopyLaw (
    then_copy-CopyLaw _ _ paths_copier-CopyLaw (
      then_copy-CopyLaw _ _ paths_copier-CopyLaw (
        then_copy-CopyLaw _ _ paths_copier-CopyLaw (
          then_copy-CopyLaw _ _ paths_copier-CopyLaw (
            then_copy-CopyLaw _ _ paths_copier-CopyLaw (
              then_copy-CopyLaw _ _
                (array-CopyLaw bind_copier bind_blocks IsBind bind_copier-CopyLaw)
                (then_copy-CopyLaw _ _
                  (array-CopyLaw object_copier object_blocks IsObject object_copier-CopyLaw)
                  (then_copy-CopyLaw _ _
                    (array-CopyLaw addfd_copier addfd_blocks IsAddfd addfd_copier-CopyLaw)
                    (then_copy-CopyLaw _ _ paths_copier-CopyLaw (
                      then_copy-CopyLaw _ _
                        (array-CopyLaw bind_copier bind_blocks IsBind bind_copier-CopyLaw)
                        (then_copy-CopyLaw _ _ paths_copier-CopyLaw (
                          then_copy-CopyLaw _ _ (string-CopyLaw IsMode) (
                            then_copy-CopyLaw _ _ (string-CopyLaw IsMode)
                              seccomp_copier-CopyLaw)))))))))))))

-- The outcome of a copy: completed, it is the document, with as many blocks of its own, and no call
-- for memory was refused; broken off, a call was refused, the destination is blank again, all that was
-- taken was freed, and `errno` is what the refused call left.
abbrev pub Made : Document → World → World → Copied (Option Document) → Type 0
Made src w v r = elim r.whole [
  | true ↦
      (r.value ≡ some src)
      × Leaves w v 0 (document_blocks src)
      × (refusals v.trace ≡ refusals w.trace)
  | false ↦ (r.value ≡ some blank_document) × Leaves w v 0 0 × Refused w v
]

abbrev pub IsCopied : Document → World → Outcome (Copied (Option Document)) → Type 0
IsCopied src w (done r v) = Made src w v r
IsCopied src w (failed v) = ⊥

abbrev fields_blocks : Fields → ℕ
fields_blocks = pair_blocks (array_blocks layer_blocks) rest_blocks

document_blocks-document_of :
    (f : Fields) → document_blocks (document_of blank_document f) ≡ fields_blocks f
document_blocks-document_of f = omega arith

part_number :
    {A : Type 0} (P : A → Type 0) (on : Bool) (n : ℕ) (rules : Array A)
    → IsPart P on n rules
    → (if on then n else 0) ≡ n
part_number P true n rules h = refl
part_number P false n rules h = sym h.0

document_of-fields_of : {d : Document} → IsDocument d → document_of blank_document (fields_of d) ≡ d
document_of-fields_of {d} h i = record d {
  net_handled_access = part_number IsNetRule d.net_enabled d.net_handled_access d.net_rules h.net i;
}

fields_ok : {d : Document} → IsDocument d → RestOk (fields_of d).1
fields_ok h = assumption

-- The code from `fail` on.
failure_made :
    (src d : Document) (e : ℕ) (w v : World) (o : Outcome (Option Document)) (k : Kernel)
    → Leaves w v 0 (document_blocks d)
    → Refused w v
    → v.errno ≡ e
    → IsReset d v o
    → IsCopied src w (((λ _ _. o) >>= λ left. set_errno e >> stopped left) k v)
failure_made src d e w v (done r u) k l f h g =
    (g.0, omega (arith, l, g.2.0, g.2.1), (omega (arith, f.0, g.2.2), g.2.3 ∙ f.1 ∙ ap some h))
failure_made src d e w v (failed u) k l f h g = g

copy_ends-IsCopied :
    (src : Document)
    → IsDocument src
    → (w : World) (o : Outcome (Copied Fields)) (k : Kernel)
    → Copies fields_blocks (fields_of src) w o
    → IsCopied src w (((λ _ _. o) >>= copy_ends blank_document) k w)
copy_ends-IsCopied src h w (failed v) k c = c
copy_ends-IsCopied src h w (done r v) k c = elim (Bool-cases r.whole) [
  | inl whole ↦
      let same : (r.value ≡ fields_of src) × (refusals v.trace ≡ refusals w.trace) =
        rw whole at c.1 in
      let value : document_of blank_document r.value ≡ src =
        ap (document_of blank_document) same.0 ∙ document_of-fields_of h in
      rw (whole, if◌then◌else◌)
        (
          ap some value,
          omega (arith, ap document_blocks value, document_blocks-document_of r.value),
          same.1,
        )
  | inr cut ↦
      let d : Document = document_of blank_document r.value in
      let refused : Refused w v = rw cut at c.1 in
      rw (cut, if◌then◌else◌)
        (failure_made src d v.errno w v (document_reset (some d) k v) k
          (omega (arith, document_blocks-document_of r.value)) refused refl
          (document_reset-IsReset d k v))
]

stopped_at_once :
    {A : Type 0} (b : Bool) (xs : Array A)
    → (not b && is_absent xs) ≡ true
    → (b ≡ false) × (xs ≡ none)
stopped_at_once false none h = (refl, refl)
stopped_at_once false (some xs) h = cc
stopped_at_once true xs h = cc

layers_end-IsCopied :
    (src : Document)
    → IsDocument src
    → (w : World) (o : Outcome (Copied (Array DocumentLayer))) (k : Kernel)
    → Copies (array_blocks layer_blocks) src.fs_layers w o
    → IsCopied src w (((λ _ _. o) >>= layers_end src blank_document) k w)
layers_end-IsCopied src h w (failed v) k c = c
layers_end-IsCopied src h w (done r v) k c = elim (Bool-cases (not r.whole && is_absent r.value)) [
  | inl now ↦
      let at_once : (r.whole ≡ false) × (r.value ≡ none) = stopped_at_once r.whole r.value now in
      let refused : Refused w v = rw at_once.0 at c.1 in
      let left : Leaves w v 0 (array_blocks layer_blocks none) = rw at_once.1 at c.0 in
      rw (now, if◌then◌else◌) (refl, left, refused)
  | inr on ↦
      rw (on, if◌then◌else◌)
        (copy_ends-IsCopied src h w (second rest_copier (fields_of src).1 r k v) k (
          first-made (array_blocks layer_blocks) rest_blocks rest_copier RestOk rest-CopyLaw
            src.fs_layers (fields_of src).1 (fields_ok h) w (done r v) k c))
]

layers-Copies :
    (src : Document)
    → IsDocument src
    → (k : Kernel) (w : World)
    → Copies
        (array_blocks layer_blocks)
        src.fs_layers
        w
        ((array layer_copier).run src.fs_layers k w)
layers-Copies src h =
    (array-CopyLaw layer_copier layer_blocks IsDocumentLayer layer_copier-CopyLaw).law src.fs_layers
      h.layers

-- The copy of a document that was built by the functions for it, to a blank one: it returns 0 exactly
-- when no call for memory is refused, and the destination is then the same document with blocks of its
-- own, as many as the document holds; else it returns -1 with a blank destination, the blocks that it
-- took are freed, and `errno` is what the refused call left.
pub document_copy-IsCopied :
    (src : Document)
    → IsDocument src
    → (k : Kernel) (w : World) → IsCopied src w (document_copy (some src) (some blank_document) k w)
unfolding document_copy
document_copy-IsCopied src h k w =
    layers_end-IsCopied src h w ((array layer_copier).run src.fs_layers k w) k
      (layers-Copies src h k w)
