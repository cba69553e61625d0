-- ===== src/Document/ResetLaws.antt =====
-- src/landlock_policy_ir.c, `landlockd_policy_ir_reset`: what it gives back.
use landlock.Base.{ℕ, ◌≡◌, refl, sym, arith, List, [], ◌∷◌, Option, none, some}
use landlock.Sys.{World, Outcome, M, done, failed, set_errno, pure, ◌>>◌}
use landlock.Sys.Types.{CString, Kernel}
use landlock.Memory.{Array, frees}
use landlock.Memory.Account.{string_blocks, array_blocks, total, no_blocks}
use landlock.Ir.{FsRule}
use landlock.Document.Types.{
  Document, DocumentLayer, BindRule, ObjectRule, AddfdRule, blank_document,
}
use landlock.Memory.Releases.{Freed, Frees, Releases, then-Releases, frees-Releases}
use landlock.Document.Reset.{
  free_string, free_items, free_array, nothing_in, free_fs_rule, free_layer, free_bind, free_object,
  free_addfd, free_paths, free_fields, document_reset,
}
use landlock.Document.Wellformed.{
  fs_rule_blocks, layer_blocks, bind_blocks, object_blocks, addfd_blocks, paths_blocks,
  document_blocks,
}

pub free_string-Releases : (s : Option CString) → Releases (string_blocks s) (free_string s)
free_string-Releases none k w = (refl, omega arith, refl, refl)
free_string-Releases (some s) k w = frees-Releases 1 k w

module _ {A : Type 0} (free_item : A → M (Unit {0})) (b : A → ℕ)
    (h : (a : A) → Releases (b a) (free_item a)) where
  free_items-Releases : (xs : List A) → Releases (total b xs) (free_items free_item xs)
  unfolding free_items
  free_items-Releases [] k w = (refl, omega arith, refl, refl)
  free_items-Releases (x ∷ xs) k w =
      then-Releases (b x) (total b xs) _ refl (free_item x) (free_items free_item xs) (h x)
        (free_items-Releases xs) k w

  pub free_array-Releases : (xs : Array A) → Releases (array_blocks b xs) (free_array free_item xs)
  free_array-Releases none k w = (refl, omega arith, refl, refl)
  free_array-Releases (some xs) k w =
      then-Releases (total b xs) 1 _ (omega arith) (free_items free_item xs) (frees 1)
        (free_items-Releases xs) (frees-Releases 1) k w

nothing_in-Releases : {A : Type 0} (a : A) → Releases (no_blocks a) (nothing_in a)
nothing_in-Releases a k w = (refl, omega arith, refl, refl)

free_fs_rule-Releases : (r : FsRule) → Releases (fs_rule_blocks r) (free_fs_rule r)
free_fs_rule-Releases r = free_string-Releases r.path

free_layer-Releases : (l : DocumentLayer) → Releases (layer_blocks l) (free_layer l)
free_layer-Releases l =
    free_array-Releases free_fs_rule fs_rule_blocks free_fs_rule-Releases l.rules

pub free_bind-Releases : (r : BindRule) → Releases (bind_blocks r) (free_bind r)
free_bind-Releases r =
    then-Releases _ _ _ refl (free_string r.source) (free_string r.target)
      (free_string-Releases r.source) (free_string-Releases r.target)

pub free_paths-Releases : (ps : Array (Option CString)) → Releases (paths_blocks ps) (free_paths ps)
free_paths-Releases = free_array-Releases free_string string_blocks free_string-Releases

pub free_object-Releases : (r : ObjectRule) → Releases (object_blocks r) (free_object r)
free_object-Releases r =
    then-Releases _ _ _ (omega arith) (free_string r.name >> free_string r.fs_type)
      (free_paths r.attach_paths)
      (then-Releases _ _ _ refl (free_string r.name) (free_string r.fs_type)
        (free_string-Releases r.name) (free_string-Releases r.fs_type))
      (free_paths-Releases r.attach_paths)

pub free_addfd-Releases : (r : AddfdRule) → Releases (addfd_blocks r) (free_addfd r)
free_addfd-Releases r =
    then-Releases _ _ _ (omega arith) (free_string r.action >> free_string r.target)
      (free_string r.mode)
      (then-Releases _ _ _ refl (free_string r.action) (free_string r.target)
        (free_string-Releases r.action) (free_string-Releases r.target))
      (free_string-Releases r.mode)

rules-Releases :
    {A : Type 0} (rules : Array A)
    → Releases (array_blocks no_blocks rules) (free_array nothing_in rules)
rules-Releases = free_array-Releases nothing_in no_blocks nothing_in-Releases

free_fields-Releases : (d : Document) → Releases (document_blocks d) (free_fields d)
free_fields-Releases d =
    then-Releases _ _ _ (omega arith) _ _
      (free_array-Releases free_layer layer_blocks free_layer-Releases d.fs_layers)
      (then-Releases _ _ _ refl _ _ (rules-Releases d.net_rules) (
        then-Releases _ _ _ refl _ _ (free_paths-Releases d.broker_open_read_rules) (
          then-Releases _ _ _ refl _ _ (free_paths-Releases d.broker_open_write_rules) (
            then-Releases _ _ _ refl _ _ (free_paths-Releases d.broker_scratch_rules) (
              then-Releases _ _ _ refl _ _ (free_paths-Releases d.broker_export_rules) (
                then-Releases _ _ _ refl _ _ (free_paths-Releases d.broker_mount_tmpfs_rules) (
                  then-Releases _ _ _ refl _ _
                    (free_array-Releases free_bind bind_blocks free_bind-Releases
                      d.broker_mount_bind_rules)
                    (then-Releases _ _ _ refl _ _
                      (free_array-Releases free_object object_blocks free_object-Releases
                        d.broker_mount_object_rules)
                      (then-Releases _ _ _ refl _ _
                        (free_array-Releases free_addfd addfd_blocks free_addfd-Releases
                          d.broker_addfd_rules)
                        (then-Releases _ _ _ refl _ _ (free_paths-Releases d.mount_tmpfs_rules) (
                          then-Releases _ _ _ refl _ _
                            (free_array-Releases free_bind bind_blocks free_bind-Releases
                              d.mount_bind_rules)
                            (then-Releases _ _ _ refl _ _ (free_paths-Releases d.mount_proc_rules) (
                              then-Releases _ _ _ refl _ _ (free_string-Releases d.runtime_root) (
                                then-Releases _ _ _ refl _ _ (free_string-Releases d.runtime_cwd)
                                  (rules-Releases d.seccomp_deny_rules)))))))))))))))

-- The outcome of a reset: nothing left in the document, its blocks freed, `errno` as it was.
abbrev pub IsReset : Document → World → Outcome (Option Document) → Type 0
IsReset d w (done r v) =
    (r ≡ some blank_document) × (v.errno ≡ w.errno) × Freed (document_blocks d) w v
IsReset d w (failed v) = ⊥

set_errno-IsReset :
    (d : Document) (e : ℕ) (w : World) (o : Outcome (Unit {0})) (k : Kernel)
    → w.errno ≡ e
    → Frees (document_blocks d) w o
    → IsReset d w (((λ _ _. o) >> (set_errno e >> pure (some blank_document))) k w)
set_errno-IsReset d e w (done u v) k h f = (refl, sym h, f)
set_errno-IsReset d e w (failed v) k h f = f

-- The reset of a document frees as many blocks as the document holds, leaves it blank, and keeps
-- `errno`; it does not fail, whatever the calls of `free` answer.
pub document_reset-IsReset :
    (d : Document) (k : Kernel) (w : World) → IsReset d w (document_reset (some d) k w)
unfolding document_reset
document_reset-IsReset d k w =
    set_errno-IsReset d w.errno w (free_fields d k w) k refl (free_fields-Releases d k w)
