-- ===== src/Seccomp/Hardening/Laws.antt =====
-- What the hardening filters deny.
use landlock.Base.{
  ℕ, pos, ◌==◌, sym, length-eq-zero, Bool-cases, ◌≢◌, ◌+◌, ◌<◌, ◌≤◌, ◌^◌, ◌≡◌, refl, ◌∙◌, arith,
  List, [], ◌∷◌, ◌++◌, none, some,
}
use landlock.Base.{length, append-nil, append_assoc, contains, Bool, true, false, if◌then◌else◌}
use landlock.Base.{bit_or, Option-cases, inl, inr}
use landlock.Sys.{World, done, M, pure, call, ◌>>=◌, ◌>>◌}
use landlock.Sys.Laws.{bind-done, bind_cong}
use landlock.Sys.Types.{Kernel, Call, Insn}
use landlock.Sys.Errno.{eperm}
use landlock.Privs.{set_no_new_privs}
use landlock.Seccomp.Bpf.{Bpf, verdict, ret_errno, ret_allow}
use landlock.Seccomp.Plan.{Plan, empty, plan_add, plan_init, entries, IsPlan}
use landlock.Seccomp.Plan.Laws.{
  extended, entries-extended, extended-IsPlan, empty-IsPlan, length-entries,
}
use landlock.Seccomp.Filter.{install_denylist, denylist_filter}
use landlock.Seccomp.Filter.Laws.{verdict-denylist_filter}
use landlock.Seccomp.Names.{Name, Numbers}
use landlock.Seccomp.Hardening.{
  add_names, child_names, daemon_names, deny_planned, apply_broker_hardening,
  apply_daemon_hardening,
}

-- The numbers of the calls that the architecture defines.
abbrev pub numbers_of : Numbers → List Name → List ℕ
numbers_of num [] = []
numbers_of num (n ∷ ns) =
    let rest = numbers_of num ns in elim (num n) [ none ↦ rest | some nr ↦ nr ∷ rest ]

-- The numbers of an architecture are those of a 32-bit `int`.
abbrev pub AreInts : Numbers → Type 0
AreInts num = (n : Name) (nr : ℕ) → num n ≡ some nr → nr < 2 ^ 31

plan_add_room :
    (p : Plan) (nr : ℕ) (k : Kernel) (w : World)
    → p.count < 32
    → plan_add (some p) (pos nr) k w ≡ done (extended p nr) w
unfolding plan_add
plan_add_room p nr k w h = ground arith

module _ (num : Numbers) (n : Name) (ns : List Name) (p : Plan) (k : Kernel) (w : World) where
  add_names_undefined : num n ≡ none → add_names num (n ∷ ns) p k w ≡ add_names num ns p k w
  unfolding add_names
  add_names_undefined h = rw (h, add_names)

  add_names_defined :
      (nr : ℕ)
      → num n ≡ some nr
      → p.count < 32
      → add_names num (n ∷ ns) p k w ≡ add_names num ns (extended p nr) k w
  unfolding add_names
  add_names_defined nr h room =
      rw (h, add_names)
        (bind-done (plan_add (some p) (pos nr)) (λ q. add_names num ns q) k
          (plan_add_room p nr k w room))

-- The plan after adding the numbers of some names, without the test for room.
abbrev pub plan_of : Numbers → List Name → Plan → Plan
plan_of num [] p = p
plan_of num (n ∷ ns) p = elim (num n) [
  | none ↦ plan_of num ns p
  | some nr ↦ plan_of num ns (extended p nr)
]

-- Adding names that fit into the plan never fails, and appends their numbers.
module _ (num : Numbers) (ints : AreInts num) where
  add_names_fit :
      (ns : List Name) (p : Plan) (k : Kernel) (w : World)
      → IsPlan p
      → p.count + length ns ≤ 32
      → add_names num ns p k w ≡ done (plan_of num ns p) w
  unfolding add_names
  add_names_fit [] p k w v fits = refl
  add_names_fit (n ∷ ns) p k w v fits = elim (Option-cases (num n)) [
    | inl undefined ↦
        add_names_undefined num n ns p k w undefined
        ∙ rw (undefined, plan_of) (add_names_fit ns p k w v (omega arith))
    | inr (nr, defined) ↦
        add_names_defined num n ns p k w nr defined (omega arith)
        ∙ rw (defined, plan_of)
            (add_names_fit ns (extended p nr) k w
              (extended-IsPlan p nr v (omega arith) (ints n nr defined)) (omega arith))
  ]

  plan_of-entries :
      (ns : List Name) (p : Plan)
      → IsPlan p
      → p.count + length ns ≤ 32
      → IsPlan (plan_of num ns p) × (entries (plan_of num ns p) ≡ entries p ++ numbers_of num ns)
  plan_of-entries [] p v fits = (v, rw append-nil)
  plan_of-entries (n ∷ ns) p v fits = elim (Option-cases (num n)) [
    | inl undefined ↦ rw (undefined, plan_of, numbers_of) (plan_of-entries ns p v (omega arith))
    | inr (nr, defined) ↦
        let (vq, eq) =
          plan_of-entries ns (extended p nr)
            (extended-IsPlan p nr v (omega arith) (ints n nr defined)) (omega arith) in
        rw (defined, plan_of, numbers_of)
          (vq, eq ∙ rw (entries-extended p nr v (omega arith), append_assoc) refl)
  ]

abbrev pub install_only : List Insn → M (Unit {0})
install_only prog = do rc ← call (Call.set_filter 0 prog); pure tt

-- What a process does that locks itself down for good: no new privileges, then one filter.
abbrev pub locked_down : List Insn → M (Unit {0})
locked_down prog = set_no_new_privs >> install_only prog

abbrev planned : Numbers → List Name → M (Unit {0})
planned num ns = do p ← plan_init (some empty); q ← add_names num ns p; deny_planned q

abbrev hardened : Numbers → List Name → M (Unit {0})
hardened num ns = set_no_new_privs >> planned num ns

-- A filter that denies exactly the defined calls among the names, with `EPERM`.
abbrev pub DeniesExactly : Bpf → Numbers → List Name → List Insn → Type 0
DeniesExactly m num ns prog =
    (nr : ℕ)
    → verdict m prog nr
      ≡ some (if contains nr (numbers_of num ns) then bit_or ret_errno eperm else ret_allow)

deny_planned_lem :
    (q : Plan) (k : Kernel) (w : World)
    → IsPlan q
    → entries q ≢ []
    → deny_planned q k w ≡ install_only (denylist_filter q eperm) k w
unfolding deny_planned install_denylist
deny_planned_lem q k w v nonempty = elim (Bool-cases (q.count == 0)) [
  | inl none_left ↦
      absurd (nonempty (length-eq-zero (entries q) (ground (arith, length-entries q v))))
  | inr some_left ↦ rw some_left (ground arith)
]

module _ (m : Bpf) (num : Numbers) (ints : AreInts num) (k : Kernel) (w : World) where
  hardened_lem :
      (ns : List Name)
      → length ns ≤ 32
      → numbers_of num ns ≢ []
      → (prog : List Insn) × (hardened num ns k w ≡ locked_down prog k w)
        × DeniesExactly m num ns prog
  unfolding plan_init
  hardened_lem ns fits some_defined =
      let q : Plan = plan_of num ns empty in
      let (vq, eq) = plan_of-entries num ints ns empty empty-IsPlan (omega arith) in
      (
        denylist_filter q eperm,
        bind_cong set_no_new_privs (λ _. planned num ns)
            (λ _. install_only (denylist_filter q eperm)) k w
            λ _ v.
              bind-done (add_names num ns empty) deny_planned k
                (add_names_fit num ints ns empty k v empty-IsPlan (omega arith))
              ∙ deny_planned_lem q k v vq (λ e. some_defined (sym eq ∙ e)),
        λ nr. rw (← eq) (verdict-denylist_filter m q eperm nr vq),
      )

  -- On an architecture whose numbers are `int`s and that defines some call of the child's list, the
  -- hardening of a child is exactly: no new privileges, then one filter, each step's failure being
  -- the function's failure; and that filter denies with `EPERM` exactly the calls of the list that
  -- are defined, and allows every other number.
  pub apply_broker_hardening_lem :
      (allow_mount_ops : Bool)
      → numbers_of num (child_names allow_mount_ops) ≢ []
      → (prog : List Insn) × (apply_broker_hardening num allow_mount_ops k w ≡ locked_down prog k w)
        × DeniesExactly m num (child_names allow_mount_ops) prog
  unfolding apply_broker_hardening
  apply_broker_hardening_lem true defined = hardened_lem (child_names true) (omega arith) defined
  apply_broker_hardening_lem false defined = hardened_lem (child_names false) (omega arith) defined

  -- On an architecture whose numbers are `int`s and that defines some call of the daemon's list,
  -- the hardening of the daemon is exactly: no new privileges, then one filter; and that filter
  -- denies with `EPERM` exactly the calls of the list that are defined, and allows every other
  -- number.
  apply_daemon_hardening_lem :
      numbers_of num daemon_names ≢ []
      → (prog : List Insn) × (apply_daemon_hardening num k w ≡ locked_down prog k w)
        × DeniesExactly m num daemon_names prog
  unfolding apply_daemon_hardening
  apply_daemon_hardening_lem defined = hardened_lem daemon_names (omega arith) defined
