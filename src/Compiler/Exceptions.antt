-- ===== src/Compiler/Exceptions.antt =====
-- src/policy_compiler.c, `landlockd_policy_compile_exceptions`: the exception layers become a plan.
pub mod Planned
use landlock.Base.{ℕ, ℤ, Bool, true, false, if◌then◌else◌, Option, none, some, List, [], ◌∷◌}
use landlock.Sys.{M, pure, get_errno, set_errno, attempt, ◌>>=◌, ◌>>◌}
use landlock.Sys.Errno.{einval}
use landlock.Ir.{exception, ExceptionRule, Layer, Policy, items, policy_validate}
use landlock.Compiler.{layers_of, same_kind}
use landlock.Seccomp.Plan.{Plan, empty, plan_init, plan_add}

-- What is left in `*plan`, and whether the function returned 0.
pub record CompiledPlan : Type 0 where
  pub succeeded : Bool
  pub plan : Option Plan

-- The inner loop, over the rules of a layer.
unfoldable pub add_exceptions : List ExceptionRule → Plan → M Plan
add_exceptions [] plan = pure plan
add_exceptions (r ∷ rs) plan = plan_add (some plan) r.syscall_nr >>= add_exceptions rs

-- The outer loop, over the layers.
unfoldable pub add_layers : List Layer → Plan → M Plan
add_layers [] plan = pure plan
add_layers (l ∷ ls) plan =
    if same_kind l.kind exception
    then add_exceptions (items l.rule_count l.exception_rules) plan >>= add_layers ls
    else add_layers ls plan

-- After the loops: where an addition failed, the plan is reset and `errno` kept.
abbrev pub added : Option Plan → M CompiledPlan
added (some plan) = pure (record { succeeded = true; plan = some plan })
added none = do
  saved_errno ← get_errno
  reset ← plan_init (some empty)
  set_errno saved_errno
  pure (record { succeeded = false; plan = some reset })

-- After the validation.
abbrev pub accepted : Policy → Plan → Option (Unit {0}) → M CompiledPlan
accepted p plan none = pure (record { succeeded = false; plan = some plan })
accepted p plan (some valid) = do
  start ← plan_init (some plan)
  filled ← attempt (add_layers (layers_of p) start)
  added filled

-- `landlockd_policy_compile_exceptions`
unfoldable pub policy_compile_exceptions : Option Policy → Option Plan → M CompiledPlan
policy_compile_exceptions none plan =
    set_errno einval >> pure (record { succeeded = false; plan = plan })
policy_compile_exceptions (some p) none =
    set_errno einval >> pure (record { succeeded = false; plan = none })
policy_compile_exceptions (some p) (some plan) =
    attempt (policy_validate (some p)) >>= accepted p plan
