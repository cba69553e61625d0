-- ===== src/Privs/Laws.antt =====
-- `landlockd_set_no_new_privs` by the kernel's answer.
use landlock.Base.{ℕ, ◌≡◌, ◌∷◌, arith, ◌⊎◌, inl, inr}
use landlock.Sys.{World, done, failed}
use landlock.Sys.Laws.{Answer-cases}
use landlock.Sys.Types.{Kernel, Call, ret, fails}
use landlock.Privs.{set_no_new_privs}

pub set_no_new_privs-cases :
    (k : Kernel) (w : World)
    → ((v : ℕ) × (e : ℕ) × (set_no_new_privs k w
          ≡ done tt (record w { trace = (Call.set_no_new_privs, ret v e) ∷ w.trace })))
      ⊎ ((e : ℕ) × (set_no_new_privs k w
            ≡ failed (record w { errno = e; trace = (Call.set_no_new_privs, fails e) ∷ w.trace })))
unfolding set_no_new_privs
set_no_new_privs-cases k w = elim (Answer-cases (k w.trace Call.set_no_new_privs)) [
  | inl (v, e, h) ↦ inl (v, e, ground arith)
  | inr (e, h) ↦ inr (e, ground arith)
]
