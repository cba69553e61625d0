-- ===== src/Seccomp/Filter/Laws.antt =====
-- What the filters decide: the verdict on every system call number.
use landlock.Base.{ℕ, ◌+◌, ◌-◌, ◌%◌, ◌^◌, ◌<◌, suc, ◌≡◌, refl, ◌∙◌, arith, inl, inr}
use landlock.Base.{List, [], ◌∷◌, ◌++◌, some, All, length, contains, drop, ◌==◌, bit_or, Bool-cases}
use landlock.Base.{if◌then◌else◌}
use landlock.Sys.Types.{Insn, ret_k}
use landlock.Seccomp.Bpf.{Bpf, verdict, ret_allow, ret_user_notif, ret_errno}
use landlock.Seccomp.Plan.{Plan, entries, IsPlan}
use landlock.Seccomp.Plan.Laws.{length-entries}
use landlock.Seccomp.Filter.{notify_jumps, notify_filter, deny_checks, denylist_filter}

abbrev ends : List Insn
ends = ret_k ret_allow ∷ ret_k ret_user_notif ∷ []

-- Past all the jumps and the `allow` that follows them stands the notification.
drop-notify_jumps :
    (count i : ℕ) (nrs : List ℕ)
    → drop (suc (length nrs)) (notify_jumps count i nrs ++ ends) ≡ ret_k ret_user_notif ∷ []
unfolding notify_jumps
drop-notify_jumps count i [] = refl
drop-notify_jumps count i (nr ∷ nrs) = drop-notify_jumps count (suc i) nrs

low_word : (nr n : ℕ) → n < 2 ^ 31 → (nr == n % 2 ^ 32) ≡ (n == nr)
low_word nr n h = ground arith

run-notify_jumps :
    (m : Bpf) (nr count i : ℕ) (nrs : List ℕ)
    → count ≡ i + length nrs
    → count < 256
    → All (λ n. n < 2 ^ 31) nrs
    → m.run nr nr (notify_jumps count i nrs ++ ends)
      ≡ some (if contains nr nrs then ret_user_notif else ret_allow)
unfolding notify_jumps
run-notify_jumps m nr count i [] e small h = m.run-ret_k nr nr ret_allow _
run-notify_jumps m nr count i (n ∷ nrs) e small h =
    let far : (count - i) % 256 ≡ suc (length nrs) = omega arith in
    m.run-jump_eq nr nr (n % 2 ^ 32) ((count - i) % 256) 0 _ ∙ elim (Bool-cases (n == nr)) [
      | inl hit ↦
          rw (low_word nr n h.0, hit, far, drop-notify_jumps count (suc i) nrs)
            (m.run-ret_k nr nr ret_user_notif [])
      | inr miss ↦
          rw (low_word nr n h.0, miss)
            (run-notify_jumps m nr count (suc i) nrs (omega arith) small h.1)
    ]

-- The filter that `landlockd_seccomp_install` builds sends exactly the planned calls to the
-- listener: for a plan of at most 32 numbers, every number `nr` gets `SECCOMP_RET_USER_NOTIF` if it
-- is in the plan, and `SECCOMP_RET_ALLOW` if it is not.
pub verdict-notify_filter :
    (m : Bpf) (p : Plan) (nr : ℕ)
    → IsPlan p
    → verdict m (notify_filter p) nr
      ≡ some (if contains nr (entries p) then ret_user_notif else ret_allow)
unfolding notify_filter
verdict-notify_filter m p nr v =
    m.run-load nr 0 _
    ∙ run-notify_jumps m nr p.count 0 (entries p) (omega (arith, length-entries p v)) (omega arith)
        v.numbers

run-deny_checks :
    (m : Bpf) (nr errno_ret : ℕ) (nrs : List ℕ)
    → All (λ n. n < 2 ^ 31) nrs
    → m.run nr nr (deny_checks errno_ret nrs ++ (ret_k ret_allow ∷ []))
      ≡ some (if contains nr nrs then bit_or ret_errno errno_ret else ret_allow)
unfolding deny_checks
run-deny_checks m nr errno_ret [] h = m.run-ret_k nr nr ret_allow []
run-deny_checks m nr errno_ret (n ∷ nrs) h =
    m.run-jump_eq nr nr (n % 2 ^ 32) 0 1 _ ∙ elim (Bool-cases (n == nr)) [
      | inl hit ↦ rw (low_word nr n h.0, hit) (m.run-ret_k nr nr _ _)
      | inr miss ↦ rw (low_word nr n h.0, miss) (run-deny_checks m nr errno_ret nrs h.1)
    ]

-- The filter that `landlockd_seccomp_install_denylist` builds denies exactly the planned calls: for
-- a plan, every number `nr` gets `SECCOMP_RET_ERRNO | errno_ret` if it is in the plan, and
-- `SECCOMP_RET_ALLOW` if it is not.
pub verdict-denylist_filter :
    (m : Bpf) (p : Plan) (errno_ret nr : ℕ)
    → IsPlan p
    → verdict m (denylist_filter p errno_ret) nr
      ≡ some (if contains nr (entries p) then bit_or ret_errno errno_ret else ret_allow)
unfolding denylist_filter
verdict-denylist_filter m p errno_ret nr v =
    m.run-load nr 0 _ ∙ run-deny_checks m nr errno_ret (entries p) v.numbers
