-- ===== src/Document/AddedParts.antt =====
-- src/landlock_policy_ir.c: the rest of the functions that add to a document, against their
-- specification.
use landlock.Base.{
  ℕ, ℤ, ◌+◌, ◌≡◌, refl, arith, Bool, true, false, ◌||◌, not, ◌==◌, is_neg, if◌then◌else◌,
}
use landlock.Base.{Option, none, some, length}
use landlock.Sys.{M, pure, fail_with, ◌>>=◌}
use landlock.Sys.Types.{CString}
use landlock.Sys.Errno.{einval}
use landlock.Memory.{items_of, is_absent, is_blank, strdup}
use landlock.Memory.Account.{string_blocks, no_blocks}
use landlock.Memory.Gains.{
  Takes, Is, appended, first_block, pure-Takes, bind_value-Takes, strdup-Takes,
  array_blocks-appended,
}
use landlock.Ir.{NetRule, ExceptionRule}
use landlock.Document.Types.{Document, DocumentLayer}
use landlock.Document.Add.{
  add_fs_layer, enable_net, document_add_net_rule, set_runtime_root, set_runtime_cwd,
  enable_seccomp, add_deny_rule,
}
use landlock.Document.Operations.{
  Operation, fs_layer, net, net_rule, runtime_root, runtime_cwd, seccomp, deny_rule, apply,
}
use landlock.Document.Spec.{extended}
use landlock.Document.Wellformed.{layer_blocks}
use landlock.Document.Added.{Adds, Refuses, Does, refused, only-append-Takes}

-- The guard of a function.
pub guarded :
    (op : Operation) (d : Document) (bad : Bool) (m : M Document) (good : Option Document) (n : ℕ)
    → extended op d ≡ (if bad then none else good)
    → (extended op d ≡ good → bad ≡ false → Takes (Refuses op d) 0 n (Adds op d n) m)
    → Does op d (if bad then fail_with einval else m)
guarded op d true m good n e h = refused op d e
guarded op d false m good n e h = (n, h e refl)

-- The same, where the number of blocks depends on more.
pub guarded_rest :
    (op : Operation) (d : Document) (bad : Bool) (m : M Document) (good : Option Document)
    → extended op d ≡ (if bad then none else good)
    → (extended op d ≡ good → Does op d m)
    → Does op d (if bad then fail_with einval else m)
guarded_rest op d true m good e h = refused op d e
guarded_rest op d false m good e h = h e

guarded_bind :
    {A : Type 0} (op : Operation) (d : Document) (bad : Bool) (m : M A) (f : A → M Document)
    (good : Option Document) (n : ℕ)
    → extended op d ≡ (if bad then none else good)
    → (extended op d ≡ good → Takes (Refuses op d) 0 n (Adds op d n) (m >>= f))
    → Does op d ((if bad then fail_with einval else m) >>= f)
guarded_bind op d true m f good n e h = refused op d e
guarded_bind op d false m f good n e h = (n, h e)

pub add_fs_layer-Does :
    (handled : ℕ) (d : Document) → Does (fs_layer handled) d (apply (fs_layer handled) d)
unfolding apply add_fs_layer extended
add_fs_layer-Does handled d =
    let op : Operation = fs_layer handled in
    let l : DocumentLayer = record { handled_access_fs = handled; rules = none } in
    let d' : Document = record d { fs_layers = appended d.fs_layers l } in
    let at : ℕ = length (items_of d.fs_layers) in
    let n : ℕ = first_block d.fs_layers + 0 in
    guarded_bind op d (handled == 0) _ _ (some d') (n + 0) refl (λ e.
      bind_value-Takes (Refuses op d) 0 n 0 (d', at) (Adds op d (n + 0)) _ (λ p. pure p.0)
        (only-append-Takes (Refuses op d) (Is (d', at)) d.fs_layers l
          (λ ls. (record d { fs_layers = ls }, at)) refl)
        (pure-Takes (Refuses op d) (0 + n) (Adds op d (n + 0)) d'
          (e, omega (arith, array_blocks-appended layer_blocks d.fs_layers l))))

pub enable_net-Does : (handled : ℕ) (d : Document) → Does (net handled) d (enable_net d handled)
unfolding enable_net extended
enable_net-Does handled d =
    let op : Operation = net handled in
    let d' : Document = record d { net_enabled = true; net_handled_access = handled } in
    guarded op d (handled == 0) _ (some d') 0 refl
      (λ e g. pure-Takes (Refuses op d) 0 (Adds op d 0) d' (e, omega arith))

pub enable_seccomp-Does :
    (error : ℕ) (d : Document) → Does (seccomp error) d (enable_seccomp d error)
unfolding enable_seccomp extended
enable_seccomp-Does error d =
    let op : Operation = seccomp error in
    let d' : Document = record d { seccomp_enabled = true; seccomp_errno = error } in
    guarded op d (error == 0) _ (some d') 0 refl
      (λ e g. pure-Takes (Refuses op d) 0 (Adds op d 0) d' (e, omega arith))

pub document_add_net_rule-Does :
    (port allowed : ℕ) (d : Document)
    → Does (net_rule port allowed) d (document_add_net_rule d port allowed)
unfolding document_add_net_rule extended
document_add_net_rule-Does port allowed d =
    let op : Operation = net_rule port allowed in
    let r : NetRule = record { port = port; allowed_access = allowed } in
    let d' : Document = record d { net_rules = appended d.net_rules r } in
    let n : ℕ = first_block d.net_rules + 0 in
    guarded op d (allowed == 0 || not d.net_enabled) _ (some d') n refl (λ e g.
      only-append-Takes (Refuses op d) (Adds op d n) d.net_rules r
        (λ rs. record d { net_rules = rs })
        (e, omega (arith, array_blocks-appended no_blocks d.net_rules r)))

pub add_deny_rule-Does : (nr : ℤ) (d : Document) → Does (deny_rule nr) d (add_deny_rule d nr)
unfolding add_deny_rule extended
add_deny_rule-Does nr d =
    let op : Operation = deny_rule nr in
    let r : ExceptionRule = record { syscall_nr = nr } in
    let d' : Document = record d { seccomp_deny_rules = appended d.seccomp_deny_rules r } in
    let n : ℕ = first_block d.seccomp_deny_rules + 0 in
    guarded op d (not d.seccomp_enabled || is_neg nr) _ (some d') n refl (λ e g.
      only-append-Takes (Refuses op d) (Adds op d n) d.seccomp_deny_rules r
        (λ rs. record d { seccomp_deny_rules = rs })
        (e, omega (arith, array_blocks-appended no_blocks d.seccomp_deny_rules r)))

-- A string that is set once.
unset_blocks :
    (path old : Option CString)
    → (is_blank path || not (is_absent old)) ≡ false
    → string_blocks old ≡ 0
unset_blocks path none h = refl
unset_blocks path (some s) h = ground arith

pub set_runtime_root-Does :
    (path : Option CString) (d : Document) → Does (runtime_root path) d (set_runtime_root d path)
unfolding set_runtime_root extended
set_runtime_root-Does path d =
    let op : Operation = runtime_root path in
    let d' : Document = record d { runtime_root = path } in
    let n : ℕ = string_blocks path + 0 in
    guarded op d (is_blank path || not (is_absent d.runtime_root)) _ (some d') n refl (λ e g.
      bind_value-Takes (Refuses op d) 0 (string_blocks path) 0 path (Adds op d n) (strdup path) _
        (strdup-Takes (Refuses op d) path)
        (pure-Takes (Refuses op d) (0 + string_blocks path) (Adds op d n) d'
          (e, omega (arith, unset_blocks path d.runtime_root g))))

pub set_runtime_cwd-Does :
    (path : Option CString) (d : Document) → Does (runtime_cwd path) d (set_runtime_cwd d path)
unfolding set_runtime_cwd extended
set_runtime_cwd-Does path d =
    let op : Operation = runtime_cwd path in
    let d' : Document = record d { runtime_cwd = path } in
    let n : ℕ = string_blocks path + 0 in
    guarded op d (is_blank path || not (is_absent d.runtime_cwd)) _ (some d') n refl (λ e g.
      bind_value-Takes (Refuses op d) 0 (string_blocks path) 0 path (Adds op d n) (strdup path) _
        (strdup-Takes (Refuses op d) path)
        (pure-Takes (Refuses op d) (0 + string_blocks path) (Adds op d n) d'
          (e, omega (arith, unset_blocks path d.runtime_cwd g))))
