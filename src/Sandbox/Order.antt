-- ===== src/Sandbox/Order.antt =====
-- The order of the calls by which a process confines itself.
use landlock.Base.{
  ℕ, ℤ, negsuc, suc, ◌≡◌, refl, arith, List, [], ◌∷◌, Bool, false, true, ◌||◌, Option, none, some,
  inl, inr,
}
use landlock.Sys.{World, final}
use landlock.Sys.Types.{Kernel, Call, Event, ret, fails}
use landlock.Sys.{attempt, ◌>>=◌, M}
use landlock.Sys.Laws.{attempt-done, attempt-failed}
use landlock.Privs.Laws.{set_no_new_privs-cases}
use landlock.Sys.Keeps.{Keeps, bind-Keeps, attempt-Keeps, if_Keeps}
use landlock.Privs.{set_no_new_privs}
use landlock.Ruleset.{restrict_self}
use landlock.Seccomp.Plan.{Plan}
use landlock.Seccomp.Filter.{install}
use landlock.Sandbox.{
  Applied, store, has_entries, confined, confine, installed, unprivileged,
  restrict_self_with_no_new_privs, restrict_self_require_nnp, apply_sandbox,
  apply_sandbox_with_seccomp,
}

-- The event shows that no_new_privs is set: it was set, or it was asked for and found set.
abbrev shows_nnp : Event → Bool
shows_nnp (Call.set_no_new_privs, ret v e) = true
shows_nnp (Call.get_no_new_privs, ret (suc v) e) = true
shows_nnp _ = false

abbrev pub nnp_shown : List Event → Bool
nnp_shown [] = false
nnp_shown (e ∷ t) = shows_nnp e || nnp_shown t

-- The calls for which the kernel wants no_new_privs of an unprivileged process.
abbrev Allowed : Call → List Event → Type 0
Allowed (Call.restrict_self fd flags) t = nnp_shown t ≡ true
Allowed (Call.set_filter flags prog) t = nnp_shown t ≡ true
Allowed _ t = Unit

-- Every such call in a history came after no_new_privs was known to be set.
abbrev pub IsOrdered : List Event → Type 0
IsOrdered [] = Unit
IsOrdered ((c, a) ∷ t) = Allowed c t × IsOrdered t

module _ (k : Kernel) (w : World) where
  with_nnp-IsOrdered :
      (fd : ℤ) (flags : ℕ)
      → IsOrdered w.trace
      → IsOrdered (final (restrict_self_with_no_new_privs fd flags k w)).trace
  unfolding restrict_self_with_no_new_privs set_no_new_privs restrict_self
  with_nnp-IsOrdered fd flags h = ground arith

  require-IsOrdered :
      (fd : ℤ) (flags : ℕ)
      → IsOrdered w.trace
      → IsOrdered (final (restrict_self_require_nnp fd flags k w)).trace
  unfolding restrict_self_require_nnp restrict_self
  require-IsOrdered fd flags h = ground arith

  apply-IsOrdered :
      (fd : ℤ) (flags : ℕ)
      → IsOrdered w.trace
      → IsOrdered (final (apply_sandbox fd flags k w)).trace
  unfolding apply_sandbox
  apply-IsOrdered fd flags h = ground (arith, with_nnp-IsOrdered fd flags h)

-- The invariant from the moment on at which no_new_privs is known to be set.
abbrev Shown : List Event → Type 0
Shown t = (nnp_shown t ≡ true) × IsOrdered t

apply_sandbox-Shown : (fd : ℤ) (flags : ℕ) → Keeps Shown (apply_sandbox fd flags)
unfolding apply_sandbox set_no_new_privs restrict_self
apply_sandbox-Shown fd flags k w h = ground arith

install-Shown : (plan : Option Plan) → Keeps Shown (install plan)
unfolding install
install-Shown plan k w h = ground arith

confined-Shown : (fd : ℤ) (out : Option ℤ) (r : Option (Unit {0})) → Keeps Shown (confined fd out r)
unfolding confined
confined-Shown fd out r k w h = ground arith

confine-Shown : (ruleset_fd fd : ℤ) (out : Option ℤ) → Keeps Shown (confine ruleset_fd fd out)
unfolding confine
confine-Shown ruleset_fd fd out =
    bind-Keeps Shown (attempt (apply_sandbox ruleset_fd 0)) (confined fd out)
      (attempt-Keeps Shown (apply_sandbox ruleset_fd 0) (apply_sandbox-Shown ruleset_fd 0))
      (confined-Shown fd out)

installed-Shown : (ruleset_fd : ℤ) (out r : Option ℤ) → Keeps Shown (installed ruleset_fd out r)
unfolding installed
installed-Shown ruleset_fd out none k w h = h
installed-Shown ruleset_fd out (some fd) k w h =
    ground (arith, confine-Shown ruleset_fd fd (store out fd) k w h)

listen-Shown :
    (ruleset_fd : ℤ) (plan : Option Plan) (out : Option ℤ)
    → Keeps Shown (unprivileged ruleset_fd plan out (some tt))
unfolding unprivileged
listen-Shown ruleset_fd plan out =
    if_Keeps Shown (has_entries plan) _ _
      (bind-Keeps Shown (attempt (install plan)) (installed ruleset_fd out)
        (attempt-Keeps Shown (install plan) (install-Shown plan)) (installed-Shown ruleset_fd out))
      (confine-Shown ruleset_fd _ out)

refused-IsOrdered :
    (ruleset_fd : ℤ) (plan : Option Plan) (out : Option ℤ) (k : Kernel) (w : World) (e : ℕ)
    → IsOrdered w.trace
    → IsOrdered
        (final (
          unprivileged ruleset_fd plan out none k
            (record w { errno = e; trace = (Call.set_no_new_privs, fails e) ∷ w.trace }))).trace
unfolding unprivileged
refused-IsOrdered ruleset_fd plan out k w e h = (tt, h)

listened-IsOrdered :
    (ruleset_fd : ℤ) (plan : Option Plan) (out : Option ℤ) (k : Kernel) (w : World)
    → IsOrdered w.trace
    → IsOrdered (final ((attempt set_no_new_privs >>= unprivileged ruleset_fd plan out) k w)).trace
listened-IsOrdered ruleset_fd plan out k w h =
    let f : Option (Unit {0}) → M Applied = unprivileged ruleset_fd plan out in
    elim (set_no_new_privs-cases k w) [
      | inl (v, e, granted) ↦
          rw (attempt-done set_no_new_privs f k granted)
            (listen-Shown ruleset_fd plan out k _ (refl, (tt, h))).1
      | inr (e, refused) ↦
          rw (attempt-failed set_no_new_privs f k refused)
            (refused-IsOrdered ruleset_fd plan out k w e h)
    ]

with_seccomp-IsOrdered :
    (ruleset_fd : ℤ) (plan : Option Plan) (out : Option ℤ) (k : Kernel) (w : World)
    → IsOrdered w.trace
    → IsOrdered (final (apply_sandbox_with_seccomp ruleset_fd plan out k w)).trace
unfolding apply_sandbox_with_seccomp
with_seccomp-IsOrdered ruleset_fd plan out k w h =
    ground (arith, listened-IsOrdered ruleset_fd plan (store out (negsuc 0)) k w h)

-- Whatever the kernel answers, a process that confines itself through
-- `landlock_restrict_self_with_no_new_privs`, `landlockd_restrict_self_require_nnp`,
-- `landlockd_apply_sandbox` or `landlockd_apply_sandbox_with_seccomp` does not ask for a Landlock
-- restriction or a seccomp filter before no_new_privs is known to be set, if it has not done so
-- before.
pub confinement-IsOrdered :
    (fd : ℤ) (flags : ℕ) (plan : Option Plan) (out : Option ℤ) (k : Kernel) (w : World)
    → IsOrdered w.trace
    → IsOrdered (final (restrict_self_with_no_new_privs fd flags k w)).trace
      × IsOrdered (final (restrict_self_require_nnp fd flags k w)).trace
      × IsOrdered (final (apply_sandbox fd flags k w)).trace
      × IsOrdered (final (apply_sandbox_with_seccomp fd plan out k w)).trace
confinement-IsOrdered fd flags plan out k w h = (
  with_nnp-IsOrdered k w fd flags h,
  require-IsOrdered k w fd flags h,
  apply-IsOrdered k w fd flags h,
  with_seccomp-IsOrdered fd plan out k w h,
)
