-- ===== src/Document/Spec.antt =====
-- The functions of src/landlock_policy_ir.c that add to a document, were memory unlimited: the document
-- after the call, or `none` where the arguments are refused.
use landlock.Base.{ℕ, Bool, true, false, not, ◌||◌, ◌==◌, is_neg, if◌then◌else◌}
use landlock.Base.{Option, none, some, List, [], ◌∷◌, length, drop, set}
use landlock.Sys.Types.{CString}
use landlock.Memory.{items_of, is_absent, is_blank}
use landlock.Memory.Gains.{appended}
use landlock.Document.Types.{Document, DocumentLayer}
use landlock.Document.Add.{path_rules, with_path_rules, bind_rules, with_bind_rules, kept_mode}
use landlock.Document.Operations.{Operation}

abbrev pub unless : {A : Type 0} → Bool → A → Option A
unless refused a = if refused then none else some a

-- A rule more in the layer with the index `i`, which is the first of these.
abbrev pub in_layer_spec : Document → ℕ → Option CString → ℕ → List DocumentLayer → Option Document
in_layer_spec d i path allowed [] = none
in_layer_spec d i path allowed (l ∷ ls) = some (record d {
  fs_layers = some (
      set (items_of d.fs_layers) i
        (record l { rules = appended l.rules (record { path = path; allowed_access = allowed }) }));
})

abbrev pub any_blank : List (Option CString) → Bool
any_blank [] = false
any_blank (p ∷ ps) = is_blank p || any_blank ps

unfoldable pub extended : Operation → Document → Option Document
extended (Operation.fs_layer handled) d = unless (handled == 0) (record d {
  fs_layers = appended d.fs_layers (record { handled_access_fs = handled; rules = none });
})
extended (Operation.fs_rule index path allowed) d =
    if is_absent path || allowed == 0
    then none
    else in_layer_spec d index path allowed (drop index (items_of d.fs_layers))
extended (Operation.net handled) d =
    unless (handled == 0) (record d { net_enabled = true; net_handled_access = handled })
extended (Operation.net_rule port allowed) d =
    unless (allowed == 0 || not d.net_enabled) (record d {
      net_rules = appended d.net_rules (record { port = port; allowed_access = allowed });
    })
extended (Operation.path_rule field path) d =
    unless (is_blank path) (with_path_rules field (appended (path_rules field d) path) d)
extended (Operation.bind_rule field source target read_only) d =
    unless (is_blank source || is_blank target) (
      with_bind_rules field
        (appended (bind_rules field d)
          (record { source = source; target = target; read_only = read_only }))
        d)
extended (Operation.object_rule name fs_type paths attrs) d =
    unless
      (is_blank name
        || is_blank fs_type
        || length (items_of paths) == 0
        || any_blank (items_of paths))
      (record d {
        broker_mount_object_rules = appended d.broker_mount_object_rules (record {
          name = name;
          fs_type = fs_type;
          allowed_attr_set = attrs;
          attach_paths = some (items_of paths);
        });
      })
extended (Operation.addfd_rule action target mode) d =
    unless (is_blank action || is_blank target) (record d {
      broker_addfd_rules =
          appended d.broker_addfd_rules
            (record { action = action; target = target; mode = kept_mode mode });
    })
extended (Operation.runtime_root path) d =
    unless (is_blank path || not (is_absent d.runtime_root)) (record d { runtime_root = path })
extended (Operation.runtime_cwd path) d =
    unless (is_blank path || not (is_absent d.runtime_cwd)) (record d { runtime_cwd = path })
extended (Operation.seccomp errno_ret) d =
    unless (errno_ret == 0) (record d { seccomp_enabled = true; seccomp_errno = errno_ret })
extended (Operation.deny_rule nr) d =
    unless (not d.seccomp_enabled || is_neg nr)
      (record d { seccomp_deny_rules = appended d.seccomp_deny_rules (record { syscall_nr = nr }) })
