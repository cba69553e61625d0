-- ===== src/Tests/Sandbox.antt =====
-- Confinement.
use landlock.Base.{pos, refl, none, some}
use landlock.Sys.{fresh, final}
use landlock.Seccomp.Plan.{Plan, empty}
use landlock.Sandbox.{
  restrict_self_with_no_new_privs, restrict_self_require_nnp, apply_sandbox,
  apply_sandbox_with_seccomp,
}
use landlock.Sandbox.Order.{IsOrdered, confinement-IsOrdered}
use landlock.Sandbox.Listener.{Accounted, Cleared, apply_sandbox_with_seccomp-Accounted}
use landlock.Seccomp.Plan.Laws.{extended}
use landlock.Tests.Kernels.{granting, granting-DescriptorsFit}

abbrev one_call : Plan
one_call = extended empty 39

confinement-IsOrdered_example :
    IsOrdered (final (restrict_self_with_no_new_privs (pos 3) 0 granting fresh)).trace
    × IsOrdered (final (restrict_self_require_nnp (pos 3) 0 granting fresh)).trace
    × IsOrdered (final (apply_sandbox (pos 3) 0 granting fresh)).trace
    × IsOrdered
        (final
          (apply_sandbox_with_seccomp (pos 3) (some one_call) (some (pos 9)) granting fresh)).trace
confinement-IsOrdered_example =
    confinement-IsOrdered (pos 3) 0 (some one_call) (some (pos 9)) granting fresh tt

apply_sandbox_with_seccomp-Accounted_example :
    let o = apply_sandbox_with_seccomp (pos 3) (some one_call) (some (pos 9)) granting fresh in
    Accounted 5 none fresh o × Cleared (some (pos 9)) o
apply_sandbox_with_seccomp-Accounted_example =
    apply_sandbox_with_seccomp-Accounted (pos 3) (some one_call) (some (pos 9)) granting fresh 5
      refl granting-DescriptorsFit
