-- ===== src/Tests/Policy.antt =====
-- A policy with a layer of each kind, validated and compiled.
use landlock.Base.{ℕ, pos, ◌≡◌, ◌↔◌, refl, arith, [], ◌∷◌, none, some}
use landlock.Base.{codes, replicate, true, false}
use landlock.Sys.{fresh, done}
use landlock.Sys.Errno.{enospc}
use landlock.Ir.{fs, net, exception, Layer, Policy, policy_validate}
use landlock.Ir.Valid.{IsPolicy, policy_validate_iff}
use landlock.Compiler.{no_rulesets, policy_compile_fs}
use landlock.Compiler.NoLeak.{Owned, policy_compile_fs-Owned}
use landlock.Compiler.Exceptions.{policy_compile_exceptions}
use landlock.Compiler.Exceptions.Planned.{
  policy_compile_exceptions-entries, policy_compile_exceptions_too_many,
}
use landlock.Seccomp.Plan.{Plan, empty, entries}
use landlock.Tests.Kernels.{granting, granting-DescriptorsFit}

abbrev fs_layer : Layer
fs_layer = record {
  kind = fs;
  order = 0;
  handled_access = 0x1fff;
  rule_count = 1;
  fs_rules = some (record { path = some (codes "/usr"); allowed_access = 5 } ∷ []);
  net_rules = none;
  exception_rules = none;
}

abbrev net_layer : Layer
net_layer = record {
  kind = net;
  order = 1;
  handled_access = 3;
  rule_count = 1;
  fs_rules = none;
  net_rules = some (record { port = 80; allowed_access = 2 } ∷ []);
  exception_rules = none;
}

-- `count` exceptions, all for the same system call.
abbrev exception_layer : ℕ → ℕ → Layer
exception_layer order count = record {
  kind = exception;
  order = order;
  handled_access = 0;
  rule_count = count;
  fs_rules = none;
  net_rules = none;
  exception_rules = some (replicate count (record { syscall_nr = pos 39 }));
}

abbrev three_layers : Policy
three_layers = record {
  name = some (codes "web");
  layer_count = 3;
  layers = some (some fs_layer ∷ some net_layer ∷ some (exception_layer 2 2) ∷ []);
}

abbrev too_many : Policy
too_many = record {
  name = some (codes "web");
  layer_count = 1;
  layers = some (some (exception_layer 0 33) ∷ []);
}

three_layers-IsPolicy : IsPolicy three_layers
unfolding policy_validate
three_layers-IsPolicy = (policy_validate_iff three_layers granting fresh).0 refl

too_many-IsPolicy : IsPolicy too_many
unfolding policy_validate
too_many-IsPolicy = (policy_validate_iff too_many granting fresh).0 refl

policy_validate_iff_example :
    (policy_validate (some three_layers) granting fresh ≡ done tt fresh) ↔ IsPolicy three_layers
policy_validate_iff_example = policy_validate_iff three_layers granting fresh

policy_compile_fs-Owned_example :
    Owned 6 fresh (policy_compile_fs (some three_layers) (some no_rulesets) granting fresh)
policy_compile_fs-Owned_example =
    policy_compile_fs-Owned 6 three_layers no_rulesets granting fresh granting-DescriptorsFit

policy_compile_exceptions-entries_example :
    (plan : Plan) × (policy_compile_exceptions (some three_layers) (some empty) granting fresh
      ≡ done (record { succeeded = true; plan = some plan }) fresh)
    × (entries plan ≡ 39 ∷ 39 ∷ [])
policy_compile_exceptions-entries_example =
    policy_compile_exceptions-entries three_layers empty granting fresh three_layers-IsPolicy
      (omega arith)

policy_compile_exceptions_too_many_example :
    policy_compile_exceptions (some too_many) (some empty) granting fresh
    ≡ done (record { succeeded = false; plan = some empty }) (record fresh { errno = enospc })
policy_compile_exceptions_too_many_example =
    policy_compile_exceptions_too_many too_many empty granting fresh too_many-IsPolicy (omega arith)
