-- ===== src/Seccomp/Filter.antt =====
-- src/landlockd_seccomp.c, the filters that `landlockd_seccomp_install` and
-- `landlockd_seccomp_install_denylist` build, and their installation.
pub mod Laws
use landlock.Base.{ℕ, ℤ, ◌+◌, ◌-◌, ◌%◌, ◌^◌, zero, suc, List, [], ◌∷◌, ◌++◌, Option, none, some}
use landlock.Base.{leb, ltb, ◌==◌, ◌||◌, if◌then◌else◌, Bool, int_of_long, bit_or}
use landlock.Sys.{M, pure, fail, fail_with, call, ◌>>=◌, ◌>>◌}
use landlock.Sys.Types.{Call, Insn, load, jump_eq, ret_k}
use landlock.Sys.Errno.{einval}
use landlock.Seccomp.Bpf.{offset_nr, ret_allow, ret_user_notif, ret_errno}
use landlock.Seccomp.Plan.{Plan, entries, max_exceptions}

-- SECCOMP_FILTER_FLAG_NEW_LISTENER
abbrev pub flag_new_listener : ℕ
flag_new_listener = 8

-- The loop of `landlockd_seccomp_install` from index `i`: `jt` is an `unsigned char`, and the number
-- is converted to `unsigned int`.
unfoldable pub notify_jumps : ℕ → ℕ → List ℕ → List Insn
notify_jumps count i [] = []
notify_jumps count i (nr ∷ nrs) =
    jump_eq (nr % 2 ^ 32) ((count - i) % 256) 0 ∷ notify_jumps count (suc i) nrs

unfoldable pub notify_filter : Plan → List Insn
unfolding notify_jumps
notify_filter p =
    load offset_nr
    ∷ (notify_jumps p.count 0 (entries p) ++ (ret_k ret_allow ∷ ret_k ret_user_notif ∷ []))

-- The loop of `landlockd_seccomp_install_denylist`.
unfoldable pub deny_checks : ℕ → List ℕ → List Insn
deny_checks errno_ret [] = []
deny_checks errno_ret (nr ∷ nrs) =
    jump_eq (nr % 2 ^ 32) 0 1 ∷ ret_k (bit_or ret_errno errno_ret) ∷ deny_checks errno_ret nrs

unfoldable pub denylist_filter : Plan → ℕ → List Insn
unfolding deny_checks
denylist_filter p errno_ret =
    load offset_nr ∷ (deny_checks errno_ret (entries p) ++ (ret_k ret_allow ∷ []))

-- `plan->count <= 0 || plan->count > LANDLOCKD_SECCOMP_MAX_EXCEPTIONS`
abbrev pub bad_count : Plan → Bool
bad_count p = p.count == 0 || ltb max_exceptions p.count

-- The value is the listener's descriptor, converted from `long` to `int`.
unfoldable pub install : Option Plan → M ℤ
install none = fail_with einval
install (some p) =
    if bad_count p
    then fail_with einval
    else (do fd ← call (Call.set_filter flag_new_listener (notify_filter p)); pure (int_of_long fd))

unfoldable pub install_denylist : Option Plan → ℕ → M (Unit {0})
install_denylist none errno_ret = fail_with einval
install_denylist (some p) errno_ret =
    if bad_count p
    then fail_with einval
    else (do rc ← call (Call.set_filter 0 (denylist_filter p errno_ret)); pure tt)
