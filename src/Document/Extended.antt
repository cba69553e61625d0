-- ===== src/Document/Extended.antt =====
-- src/landlock_policy_ir.c: the specification keeps documents well formed.
use landlock.Base.{
  ℕ, ◌<◌, ◌≡◌, refl, arith, Bool, true, false, ◌||◌, not, ◌==◌, is_neg, if◌then◌else◌, Option, none,
  some, List, [], ◌∷◌, drop, set, length,
}
use landlock.Sys.Types.{CString}
use landlock.Memory.{Array, items_of, is_blank, is_absent}
use landlock.Memory.Account.{All, IsArray, IsFilled}
use landlock.Memory.Arrays.{appended-IsArray, IsArray-set}
use landlock.Memory.Gains.{appended}
use landlock.Ir.{FsRule}
use landlock.Document.Types.{Document, DocumentLayer, BindRule}
use landlock.Document.Add.{
  PathField, open_read, open_write, scratch, export, broker_tmpfs, mount_tmpfs, mount_proc,
  path_rules, with_path_rules, BindField, broker_bind, mount_bind, bind_rules, with_bind_rules,
  kept_mode,
}
use landlock.Document.Operations.{
  Operation, fs_layer, fs_rule, net, net_rule, path_rule, bind_rule, object_rule, addfd_rule,
  runtime_root, runtime_cwd, seccomp, deny_rule,
}
use landlock.Document.Spec.{extended, unless, in_layer_spec, any_blank}
use landlock.Document.Wellformed.{
  IsDocument, IsNamed, IsMode, IsBind, IsPart, IsFsRule, IsDocumentLayer, IsNetRule, IsObject,
  IsAddfd, IsDeny,
}

-- The document that a function makes, if it accepts.
accepted : {A : Type 0} (bad : Bool) (a b : A) → unless bad a ≡ some b → (bad ≡ false) × (a ≡ b)
accepted true a b h = cc
accepted false a b h = (refl, cc)

named : (s : Option CString) → is_blank s ≡ false → IsNamed s
named none h = cc
named (some []) h = cc
named (some (c ∷ cs)) h = tt

or_false : (a b : Bool) → (a || b) ≡ false → (a ≡ false) × (b ≡ false)
or_false true b h = cc
or_false false b h = (refl, h)

with_path_rules-IsDocument :
    (field : PathField) (d : Document) (path : Option CString)
    → IsDocument d
    → IsNamed path
    → IsDocument (with_path_rules field (appended (path_rules field d) path) d)
with_path_rules-IsDocument open_read d path h p =
    assumption (appended-IsArray IsNamed d.broker_open_read_rules path h.opens p)
with_path_rules-IsDocument open_write d path h p =
    assumption (appended-IsArray IsNamed d.broker_open_write_rules path h.writes p)
with_path_rules-IsDocument scratch d path h p =
    assumption (appended-IsArray IsNamed d.broker_scratch_rules path h.scratches p)
with_path_rules-IsDocument export d path h p =
    assumption (appended-IsArray IsNamed d.broker_export_rules path h.exports p)
with_path_rules-IsDocument broker_tmpfs d path h p =
    assumption (appended-IsArray IsNamed d.broker_mount_tmpfs_rules path h.broker_tmpfs_mounts p)
with_path_rules-IsDocument mount_tmpfs d path h p =
    assumption (appended-IsArray IsNamed d.mount_tmpfs_rules path h.tmpfs_mounts p)
with_path_rules-IsDocument mount_proc d path h p =
    assumption (appended-IsArray IsNamed d.mount_proc_rules path h.proc_mounts p)

with_bind_rules-IsDocument :
    (field : BindField) (d : Document) (r : BindRule)
    → IsDocument d
    → IsBind r
    → IsDocument (with_bind_rules field (appended (bind_rules field d) r) d)
with_bind_rules-IsDocument broker_bind d r h p =
    assumption (appended-IsArray IsBind d.broker_mount_bind_rules r h.broker_binds p)
with_bind_rules-IsDocument mount_bind d r h p =
    assumption (appended-IsArray IsBind d.mount_bind_rules r h.binds p)

in_layer-IsDocument :
    (i : ℕ) (s : CString) (allowed : ℕ) (d : Document) (ls : List DocumentLayer)
    → IsDocument d
    → 0 < allowed
    → drop i (items_of d.fs_layers) ≡ ls
    → (d' : Document) → in_layer_spec d i (some s) allowed ls ≡ some d'
    → IsDocument d'
in_layer-IsDocument i s allowed d [] h p e d' f = cc
in_layer-IsDocument i s allowed d (l ∷ ls) h p e d' f =
    let r : FsRule = record { path = some s; allowed_access = allowed } in
    let l' : DocumentLayer = record l { rules = appended l.rules r } in
    let kept : IsDocumentLayer l
        × (IsDocumentLayer l' → IsArray IsDocumentLayer (some (set (items_of d.fs_layers) i l'))) =
      IsArray-set IsDocumentLayer d.fs_layers i l ls l' h.layers e in
    let new : Document = record d { fs_layers = some (set (items_of d.fs_layers) i l') } in
    let same : new ≡ d' = cc in
    let whole : IsDocument new =
      assumption (kept.1 (kept.0.0, appended-IsArray IsFsRule l.rules r kept.0.1 (p, tt))) in
    rw (← same) whole

-- With the flag set now, the rules that there were stay.
rules_kept :
    {A : Type 0} (P : A → Type 0) (on : Bool) (n : ℕ) (rules : Array A)
    → IsPart P on n rules
    → IsArray P rules
rules_kept P true n rules h = h.1
rules_kept P false n rules h = rw h.1 tt

not_zero : (n : ℕ) → (n == 0) ≡ false → 0 < n
not_zero n h = ground arith

appended-IsPart :
    {A : Type 0} (P : A → Type 0) (on : Bool) (n : ℕ) (rules : Array A) (x : A)
    → not on ≡ false
    → IsPart P on n rules
    → P x
    → IsPart P on n (appended rules x)
appended-IsPart P true n rules x g h p = (h.0, appended-IsArray P rules x h.1 p)
appended-IsPart P false n rules x g h p = cc

kept_mode-IsMode : (mode : Option CString) → IsMode (kept_mode mode)
kept_mode-IsMode none = tt
kept_mode-IsMode (some []) = tt
kept_mode-IsMode (some (c ∷ cs)) = tt

named-IsMode : (s : Option CString) → is_blank s ≡ false → IsMode s
named-IsMode none h = tt
named-IsMode (some s) h = named (some s) h

all_named : (ps : List (Option CString)) → any_blank ps ≡ false → All IsNamed ps
all_named [] h = tt
all_named (p ∷ ps) h =
    let b : (is_blank p ≡ false) × (any_blank ps ≡ false) =
      or_false (is_blank p) (any_blank ps) h in
    (named p b.0, all_named ps b.1)

filled :
    (ps : List (Option CString))
    → (length ps == 0) ≡ false
    → any_blank ps ≡ false
    → IsFilled IsNamed (some ps)
filled [] h g = cc
filled (p ∷ ps) h g = all_named (p ∷ ps) g

accepted-IsDocument :
    (bad : Bool) (new : Document) {d' : Document}
    → unless bad new ≡ some d'
    → (bad ≡ false → IsDocument new)
    → IsDocument d'
accepted-IsDocument true new e g = cc
accepted-IsDocument false new {d'} e g = let same : new ≡ d' = cc in rw (← same) (g refl)

layer_rule-IsDocument :
    (bad : Bool) (good : Option Document) {d' : Document}
    → (if bad then none else good) ≡ some d'
    → (bad ≡ false → good ≡ some d' → IsDocument d')
    → IsDocument d'
layer_rule-IsDocument true good e g = cc
layer_rule-IsDocument false good e g = g refl e

-- What the specification makes of a well-formed document is well formed.
pub extended-IsDocument :
    (op : Operation) (d d' : Document) → IsDocument d → extended op d ≡ some d' → IsDocument d'
unfolding extended
extended-IsDocument (fs_layer handled) d d' h e = accepted-IsDocument (handled == 0) _ e λ g.
    assumption (
      appended-IsArray IsDocumentLayer d.fs_layers
        (record { handled_access_fs = handled; rules = none }) h.layers (not_zero handled g, tt))
extended-IsDocument (fs_rule i none allowed) d d' h e = cc
extended-IsDocument (fs_rule i (some s) allowed) d d' h e =
    layer_rule-IsDocument (allowed == 0) _ e λ g f.
      in_layer-IsDocument i s allowed d (drop i (items_of d.fs_layers)) h (not_zero allowed g) refl
        d' f
extended-IsDocument (net handled) d d' h e = accepted-IsDocument (handled == 0) _ e λ g.
    let part : IsPart IsNetRule true handled d.net_rules = (
      not_zero handled g,
      rules_kept IsNetRule d.net_enabled d.net_handled_access d.net_rules h.net,
    ) in
    assumption
extended-IsDocument (net_rule port allowed) d d' h e =
    accepted-IsDocument (allowed == 0 || not d.net_enabled) _ e λ g.
      let b : ((allowed == 0) ≡ false) × (not d.net_enabled ≡ false) = or_false _ _ g in
      assumption (
        appended-IsPart IsNetRule d.net_enabled d.net_handled_access d.net_rules
          (record { port = port; allowed_access = allowed }) b.1 h.net (not_zero allowed b.0))
extended-IsDocument (path_rule field path) d d' h e =
    accepted-IsDocument (is_blank path) _ e
      λ g. with_path_rules-IsDocument field d path h (named path g)
extended-IsDocument (bind_rule field source target ro) d d' h e =
    accepted-IsDocument (is_blank source || is_blank target) _ e λ g.
      let b : (is_blank source ≡ false) × (is_blank target ≡ false) = or_false _ _ g in
      with_bind_rules-IsDocument field d
        (record { source = source; target = target; read_only = ro }) h
        (named source b.0, (named target b.1, tt))
extended-IsDocument (object_rule name fs_type paths attrs) d d' h e =
    accepted-IsDocument
      (is_blank name
        || is_blank fs_type
        || length (items_of paths) == 0
        || any_blank (items_of paths))
      _ e
      λ g.
        let items : List (Option CString) = items_of paths in
        let c : ((is_blank name || is_blank fs_type || length items == 0) ≡ false)
            × (any_blank items ≡ false) =
          or_false _ _ g in
        let b : ((is_blank name || is_blank fs_type) ≡ false) × ((length items == 0) ≡ false) =
          or_false _ _ c.0 in
        let a : (is_blank name ≡ false) × (is_blank fs_type ≡ false) = or_false _ _ b.0 in
        assumption (
          appended-IsArray IsObject d.broker_mount_object_rules
            (record {
              name = name;
              fs_type = fs_type;
              allowed_attr_set = attrs;
              attach_paths = some (items_of paths);
            })
            h.objects (named name a.0, (named fs_type a.1, (tt, filled items b.1 c.1))))
extended-IsDocument (addfd_rule action target mode) d d' h e =
    accepted-IsDocument (is_blank action || is_blank target) _ e λ g.
      let b : (is_blank action ≡ false) × (is_blank target ≡ false) = or_false _ _ g in
      assumption (
        appended-IsArray IsAddfd d.broker_addfd_rules
          (record { action = action; target = target; mode = kept_mode mode }) h.addfds
          (named action b.0, (named target b.1, kept_mode-IsMode mode)))
extended-IsDocument (runtime_root path) d d' h e =
    accepted-IsDocument (is_blank path || not (is_absent d.runtime_root)) _ e
      λ g. assumption (named-IsMode path (or_false _ _ g).0)
extended-IsDocument (runtime_cwd path) d d' h e =
    accepted-IsDocument (is_blank path || not (is_absent d.runtime_cwd)) _ e
      λ g. assumption (named-IsMode path (or_false _ _ g).0)
extended-IsDocument (seccomp error) d d' h e = accepted-IsDocument (error == 0) _ e λ g.
    let part : IsPart IsDeny true error d.seccomp_deny_rules = (
      not_zero error g,
      rules_kept IsDeny d.seccomp_enabled d.seccomp_errno d.seccomp_deny_rules h.seccomp,
    ) in
    assumption
extended-IsDocument (deny_rule nr) d d' h e =
    accepted-IsDocument (not d.seccomp_enabled || is_neg nr) _ e λ g.
      let b : (not d.seccomp_enabled ≡ false) × (is_neg nr ≡ false) = or_false _ _ g in
      assumption (
        appended-IsPart IsDeny d.seccomp_enabled d.seccomp_errno d.seccomp_deny_rules
          (record { syscall_nr = nr }) b.0 h.seccomp b.1)
