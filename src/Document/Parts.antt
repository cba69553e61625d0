-- ===== src/Document/Parts.antt =====
-- src/landlock_policy_ir.c, `landlockd_policy_ir_copy`: how each part of a document is copied.
use landlock.Base.{ℕ, pos, Bool, false, ◌==◌, if◌then◌else◌}
use landlock.Base.{Option, none}
use landlock.Sys.{set_errno, ◌>>◌}
use landlock.Sys.Types.{CString}
use landlock.Sys.Errno.{einval}
use landlock.Memory.{
  Array, items_of, Copier, stopped, finished, plain, string, ◌then_copy◌, by_fields, array,
  copy_block,
}
use landlock.Ir.{FsRule, NetRule, ExceptionRule}
use landlock.Document.Types.{DocumentLayer, BindRule, ObjectRule, AddfdRule, PathRules}

abbrev pub fs_rule_copier : Copier FsRule
fs_rule_copier =
    by_fields (λ f. record { path = f.1; allowed_access = f.0 }) (λ r. (r.allowed_access, r.path))
      (plain 0 then_copy string)

abbrev pub layer_copier : Copier DocumentLayer
layer_copier =
    by_fields (λ f. record { handled_access_fs = f.0; rules = f.1 })
      (λ l. (l.handled_access_fs, l.rules)) (plain 0 then_copy array fs_rule_copier)

abbrev pub bind_copier : Copier BindRule
bind_copier =
    by_fields (λ f. record { source = f.0; target = f.1.0; read_only = f.1.1 })
      (λ r. (r.source, (r.target, r.read_only))) (string then_copy string then_copy plain false)

-- The attach paths: `calloc` for any count.
abbrev pub attach_copier : Copier (Array (Option CString))
attach_copier = record { zeroed = none; run = λ paths. copy_block string (items_of paths) }

abbrev pub object_copier : Copier ObjectRule
object_copier =
    by_fields
      (λ f. record {
        name = f.0;
        fs_type = f.1.0;
        allowed_attr_set = f.1.1.0;
        attach_paths = f.1.1.1;
      })
      (λ r. (r.name, (r.fs_type, (r.allowed_attr_set, r.attach_paths))))
      (string then_copy string then_copy plain 0 then_copy attach_copier)

abbrev pub addfd_copier : Copier AddfdRule
addfd_copier =
    by_fields (λ f. record { action = f.0; target = f.1.0; mode = f.1.1 })
      (λ r. (r.action, (r.target, r.mode))) (string then_copy string then_copy string)

-- A part that is copied if it passes a test, and is zero otherwise.
abbrev pub where_set : {A : Type 0} → (A → Bool) → Copier A → Copier A
where_set test c = record {
  zeroed = c.zeroed;
  run = λ a. if test a then c.run a else finished c.zeroed;
}

-- A part that is refused if it passes a test.
abbrev pub refused_where : {A : Type 0} → (A → Bool) → Copier A → Copier A
refused_where test c = record {
  zeroed = c.zeroed;
  run = λ a. if test a then set_errno einval >> stopped c.zeroed else c.run a;
}

abbrev pub NetPart : Type 0
NetPart = Bool × (ℕ × Array NetRule)

-- The rules are copied by `memcpy`.
abbrev pub net_copier : Copier NetPart
net_copier =
    where_set (λ p. p.0)
      (plain false
        then_copy plain 0
        then_copy array (plain (record { port = 0; allowed_access = 0 })))

abbrev pub SeccompPart : Type 0
SeccompPart = Bool × (ℕ × Array ExceptionRule)

-- `landlockd_policy_ir_enable_seccomp` refuses the error number 0.
abbrev pub seccomp_copier : Copier SeccompPart
seccomp_copier =
    where_set (λ p. p.0)
      (refused_where (λ p. p.1.0 == 0)
        (plain false then_copy plain 0 then_copy array (plain (record { syscall_nr = pos 0 }))))

abbrev pub paths_copier : Copier PathRules
paths_copier = array string
