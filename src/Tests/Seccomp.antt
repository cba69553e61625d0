-- ===== src/Tests/Seccomp.antt =====
-- Plans, filters and names.
use landlock.Base.{pos, ◌≡◌, refl, arith, ◌∷◌, false, true, none, some}
use landlock.Base.{replicate, codes}
use landlock.Sys.{fresh, done}
use landlock.Seccomp.Bpf.{machine, verdict, ret_allow, ret_user_notif}
use landlock.Seccomp.Plan.{Plan, plan_add, entries, IsPlan}
use landlock.Seccomp.Plan.Laws.{observe, bounded_add, observe-plan_add}
use landlock.Seccomp.Filter.{notify_filter, denylist_filter}
use landlock.Seccomp.Filter.Laws.{verdict-notify_filter, verdict-denylist_filter}
use landlock.Seccomp.Names.{Numbers, getpid, mount, ptrace, spelling, syscall_by_name}
use landlock.Seccomp.Names.Laws.{syscall_by_name-spelling}
use landlock.Seccomp.Hardening.{child_names, apply_broker_hardening}
use landlock.Seccomp.Hardening.Laws.{
  AreInts, DeniesExactly, locked_down, apply_broker_hardening_lem,
}
use landlock.Tests.Kernels.{granting}

abbrev two_calls : Plan
two_calls = record { syscall_nrs = 39 ∷ 165 ∷ replicate 30 0; count = 2 }

two_calls-IsPlan : IsPlan two_calls
two_calls-IsPlan = omega arith

-- The numbers of three calls on x86-64.
abbrev numbers : Numbers
numbers getpid = some 39
numbers mount = some 165
numbers ptrace = some 101
numbers _ = none

numbers-AreInts : AreInts numbers
numbers-AreInts getpid nr h = ground arith
numbers-AreInts mount nr h = ground arith
numbers-AreInts ptrace nr h = ground arith
numbers-AreInts _ nr h = cc

verdict-notify_filter_example : verdict machine (notify_filter two_calls) 165 ≡ some ret_user_notif
verdict-notify_filter_example = verdict-notify_filter machine two_calls 165 two_calls-IsPlan

verdict-denylist_filter_example : verdict machine (denylist_filter two_calls 1) 40 ≡ some ret_allow
verdict-denylist_filter_example = verdict-denylist_filter machine two_calls 1 40 two_calls-IsPlan

observe-plan_add_example :
    observe (plan_add (some two_calls) (pos 101) granting fresh)
    ≡ bounded_add (entries two_calls) (pos 101)
observe-plan_add_example = observe-plan_add two_calls (pos 101) granting fresh two_calls-IsPlan

syscall_by_name-spelling_example :
    syscall_by_name numbers (some (codes "getpid")) true granting fresh ≡ done 39 fresh
unfolding spelling
syscall_by_name-spelling_example = syscall_by_name-spelling numbers granting fresh getpid 39 refl

apply_broker_hardening_lem_example :
    (prog : _) × (apply_broker_hardening numbers false granting fresh
      ≡ locked_down prog granting fresh)
    × DeniesExactly machine numbers (child_names false) prog
apply_broker_hardening_lem_example =
    apply_broker_hardening_lem machine numbers numbers-AreInts granting fresh false (λ e. cc)
