-- ===== src/Cli/Parse/Planned.antt =====
-- The plan of an accepted command line.
use landlock.Base.{ℕ, pos, ◌≤◌, ◌<◌, ◌≡◌, refl, ap, ◌∙◌, arith, List, [], ◌∷◌, length, some}
use landlock.Sys.{World, done, failed}
use landlock.Sys.Laws.{bind_cong}
use landlock.Sys.Types.{Kernel}
use landlock.Sys.Errno.{enospc}
use landlock.Ir.{ExceptionRule}
use landlock.Compiler.Exceptions.{add_exceptions}
use landlock.Compiler.Exceptions.Planned.{numbers, NonNegative, fits, overflows}
use landlock.Seccomp.Plan.{Plan, empty, plan_init, plan_add, entries, max_exceptions}
use landlock.Cli.Options.{Options}
use landlock.Cli.Parse.{add_numbers, planned_numbers, build_seccomp_plan}

-- The same numbers as the exception rules of a policy.
abbrev as_rules : List ℕ → List ExceptionRule
as_rules [] = []
as_rules (nr ∷ nrs) = record { syscall_nr = pos nr } ∷ as_rules nrs

numbers-as_rules : (nrs : List ℕ) → numbers (as_rules nrs) ≡ nrs
numbers-as_rules [] = refl
numbers-as_rules (nr ∷ nrs) = ap (◌∷◌ nr) (numbers-as_rules nrs)

length-as_rules : (nrs : List ℕ) → length (as_rules nrs) ≡ length nrs
length-as_rules [] = refl
length-as_rules (nr ∷ nrs) = omega (arith, length-as_rules nrs)

as_rules-NonNegative : (nrs : List ℕ) → NonNegative (as_rules nrs)
as_rules-NonNegative [] = tt
as_rules-NonNegative (nr ∷ nrs) = (refl, as_rules-NonNegative nrs)

-- The two loops that fill a plan are the same.
add_numbers-as_rules :
    (nrs : List ℕ) (p : Plan) (k : Kernel) (w : World)
    → add_numbers nrs p k w ≡ add_exceptions (as_rules nrs) p k w
unfolding add_numbers add_exceptions
add_numbers-as_rules [] p k w = refl
add_numbers-as_rules (nr ∷ nrs) p k w =
    bind_cong (plan_add (some p) (pos nr)) (add_numbers nrs) (add_exceptions (as_rules nrs)) k w
      (λ q v. add_numbers-as_rules nrs q k v)

module _ (o : Options) (before : Plan) (k : Kernel) (w : World) where
  -- The plan that `landlockd_cli_build_seccomp_plan` builds of at most 32 numbers of `--notify`
  -- holds these numbers, in order, and building it makes no call.
  pub build_seccomp_plan-entries :
      length (planned_numbers o) ≤ max_exceptions
      → (plan : Plan) × (build_seccomp_plan (some o) (some before) k w ≡ done plan w)
        × (entries plan ≡ planned_numbers o)
  unfolding build_seccomp_plan plan_init
  build_seccomp_plan-entries room =
      let nrs : List ℕ = planned_numbers o in
      let (plan, run, held) =
        fits (as_rules nrs) empty k w refl (as_rules-NonNegative nrs)
          (omega (arith, length-as_rules nrs)) in
      (plan, add_numbers-as_rules nrs empty k w ∙ run, held ∙ numbers-as_rules nrs)

  -- For more than 32 numbers of `--notify`, `landlockd_cli_build_seccomp_plan` fails with `ENOSPC`.
  build_seccomp_plan_too_many :
      max_exceptions < length (planned_numbers o)
      → build_seccomp_plan (some o) (some before) k w ≡ failed (record w { errno = enospc })
  unfolding build_seccomp_plan plan_init
  build_seccomp_plan_too_many over =
      let nrs : List ℕ = planned_numbers o in
      add_numbers-as_rules nrs empty k w
      ∙ overflows (as_rules nrs) empty k w (as_rules-NonNegative nrs) (omega arith)
          (omega (arith, length-as_rules nrs))
