-- ===== src/Sandbox/Listener.antt =====
-- The seccomp listener of `landlockd_apply_sandbox_with_seccomp`: whom it belongs to at the end.
use landlock.Base.{
  ℕ, ℤ, pos, negsuc, ◌+◌, ◌<◌, ◌^◌, ◌≡◌, ◌∷◌, arith, Option, some, none, ◌==◌, is_neg, ◌&&◌, false,
}
use landlock.Base.{if◌then◌else◌, inl, inr, ◌⊎◌, refl, Bool-cases, int_of_long_small}
use landlock.Sys.{World, Outcome, done, failed, final, attempt, ◌>>=◌, M}
use landlock.Sys.Errno.{einval}
use landlock.Sys.Laws.{attempt-done, attempt-failed, Answer-cases}
use landlock.Sys.Types.{Kernel, Call, ret, fails}
use landlock.Sys.Descriptors.{opened, closed, DescriptorsFit}
use landlock.Privs.{set_no_new_privs}
use landlock.Privs.Laws.{set_no_new_privs-cases}
use landlock.Ruleset.{restrict_self}
use landlock.Seccomp.Plan.{Plan}
use landlock.Seccomp.Filter.{install, notify_filter, bad_count}
use landlock.Sandbox.{
  Applied, is_null, store, has_entries, confined, confine, installed, unprivileged, apply_sandbox,
  apply_sandbox_with_seccomp,
}

-- The descriptor in a cell, counted.
abbrev pub held : Option ℤ → ℕ → ℕ
held (some (pos fd)) n = if fd == n then 1 else 0
held _ n = 0

-- The descriptors with the number `n`: what was opened on the way and what the caller's cell held at
-- the beginning has been closed, or is in the cell at the end.
abbrev pub Accounted : ℕ → Option ℤ → World → Outcome Applied → Type 0
Accounted n before w (done a v) =
    opened n v.trace + closed n w.trace + held before n
    ≡ closed n v.trace + opened n w.trace + held a.listener n
Accounted n before w (failed v) = ⊥

module _ (n : ℕ) (k : Kernel) where
  apply_neutral :
      (w : World) (fd : ℤ)
      → (opened n (final (apply_sandbox fd 0 k w)).trace ≡ opened n w.trace)
        × (closed n (final (apply_sandbox fd 0 k w)).trace ≡ closed n w.trace)
  unfolding apply_sandbox restrict_self set_no_new_privs
  apply_neutral w fd = ground arith

  confine_closes :
      (w : World) (ruleset_fd : ℤ) (fd : ℕ)
      → Accounted n (some (pos fd)) w (confine ruleset_fd (pos fd) (some (pos fd)) k w)
  unfolding confine confined
  confine_closes w ruleset_fd fd = ground (arith, apply_neutral w ruleset_fd)

  confine_without :
      (w : World) (ruleset_fd : ℤ) (out : Option ℤ)
      → Accounted n out w (confine ruleset_fd (negsuc 0) out k w)
  unfolding confine confined
  confine_without w ruleset_fd out = ground (arith, apply_neutral w ruleset_fd)

  install-cases :
      (w : World) (p : Plan)
      → DescriptorsFit k
      → ((v : ℕ) × (w' : World) × (install (some p) k w ≡ done (pos v) w')
          × (opened n w'.trace ≡ held (some (pos v)) n + opened n w.trace)
          × (closed n w'.trace ≡ closed n w.trace))
        ⊎ ((w' : World) × (install (some p) k w ≡ failed w')
            × (opened n w'.trace ≡ opened n w.trace)
            × (closed n w'.trace ≡ closed n w.trace))
  unfolding install
  install-cases w p fit = elim (Bool-cases (bad_count p)) [
    | inl bad ↦ inr (record w { errno = einval }, ground arith, ground arith, ground arith)
    | inr good ↦
        let c : Call = Call.set_filter 8 (notify_filter p) in
        elim (Answer-cases (k w.trace c)) [
          | inl (v, e, h) ↦
              let small : v < 2 ^ 31 = rw h at (fit w.trace c refl) in
              inl (
                v,
                record w { errno = e; trace = (c, ret v e) ∷ w.trace },
                ground (arith, int_of_long_small v small),
                ground arith,
                ground arith,
              )
          | inr (e, h) ↦ inr (
            record w { errno = e; trace = (c, fails e) ∷ w.trace },
            ground arith,
            ground arith,
            ground arith,
          )
        ]
  ]

  -- The account of a rest, seen from before the listener was opened.
  Accounted-opened :
      (w w' : World) (v : ℕ) (o : Outcome Applied)
      → opened n w'.trace ≡ held (some (pos v)) n + opened n w.trace
      → closed n w'.trace ≡ closed n w.trace
      → Accounted n (some (pos v)) w' o
      → Accounted n (some (negsuc 0)) w o
  Accounted-opened w w' v (done a u) o c h = omega arith
  Accounted-opened w w' v (failed u) o c h = h

  -- The account of a rest, seen from before some calls that neither opened nor closed anything.
  Accounted-neutral :
      (w w' : World) (before : Option ℤ) (o : Outcome Applied)
      → opened n w'.trace ≡ opened n w.trace
      → closed n w'.trace ≡ closed n w.trace
      → Accounted n before w' o
      → Accounted n before w o
  Accounted-neutral w w' before (done a u) o c h = omega arith
  Accounted-neutral w w' before (failed u) o c h = h

  listen-Accounted :
      (w : World) (ruleset_fd : ℤ) (p : Plan)
      → DescriptorsFit k
      → Accounted n
          (some (negsuc 0))
          w
          ((attempt (install (some p)) >>= installed ruleset_fd (some (negsuc 0))) k w)
  unfolding installed
  listen-Accounted w ruleset_fd p fit =
      let f : Option ℤ → M Applied = installed ruleset_fd (some (negsuc 0)) in
      elim (install-cases w p fit) [
        | inl (v, w', h, o, c) ↦
            rw (attempt-done (install (some p)) f k h)
              (Accounted-opened w w' v _ o c (confine_closes w' ruleset_fd v))
        | inr (w', h, o, c) ↦ rw (attempt-failed (install (some p)) f k h) (omega arith)
      ]

  unprivileged-Accounted :
      (w : World) (ruleset_fd : ℤ) (plan : Option Plan) (out : Option ℤ)
      → DescriptorsFit k
      → (has_entries plan && is_null out) ≡ false
      → Accounted n
          (store out (negsuc 0))
          w
          (unprivileged ruleset_fd plan (store out (negsuc 0)) (some tt) k w)
  unfolding unprivileged
  unprivileged-Accounted w ruleset_fd none out fit h = confine_without w ruleset_fd _
  unprivileged-Accounted w ruleset_fd (some p) none fit h =
      let no_entries : has_entries (some p) ≡ false = ground arith in
      rw (no_entries, if◌then◌else◌) (confine_without w ruleset_fd none)
  unprivileged-Accounted w ruleset_fd (some p) (some old) fit h =
      elim (Bool-cases (has_entries (some p))) [
        | inl entries ↦ rw (entries, if◌then◌else◌) (listen-Accounted w ruleset_fd p fit)
        | inr no_entries ↦ rw (no_entries, if◌then◌else◌) (confine_without w ruleset_fd _)
      ]

-- Where the function reports an error, the caller's cell holds -1, unless the pointer is NULL.
abbrev pub Cleared : Option ℤ → Outcome Applied → Type 0
Cleared out (done a v) = a.listener ≡ (if a.succeeded then a.listener else store out (negsuc 0))
Cleared out (failed v) = ⊥

Accounted-empty :
    (n : ℕ) (w : World) (before : Option ℤ) (o : Outcome Applied)
    → held before n ≡ 0
    → Accounted n before w o
    → Accounted n none w o
Accounted-empty n w before (done a v) e h = omega arith
Accounted-empty n w before (failed v) e h = h

module _ (ruleset_fd : ℤ) (plan : Option Plan) (out : Option ℤ) (k : Kernel) (w : World) where
  cleared :
      is_neg ruleset_fd ≡ false → Cleared out (apply_sandbox_with_seccomp ruleset_fd plan out k w)
  unfolding apply_sandbox_with_seccomp
  cleared h = ground arith

  held-store : (n : ℕ) → held (store out (negsuc 0)) n ≡ 0
  held-store n = ground arith

  started :
      (n : ℕ)
      → DescriptorsFit k
      → (has_entries plan && is_null out) ≡ false
      → Accounted n
          (store out (negsuc 0))
          w
          ((attempt set_no_new_privs >>= unprivileged ruleset_fd plan (store out (negsuc 0))) k w)
  unfolding unprivileged
  started n fit h =
      let f : Option (Unit {0}) → M Applied = unprivileged ruleset_fd plan (store out (negsuc 0)) in
      elim (set_no_new_privs-cases k w) [
        | inl (v, e, granted) ↦
            let w' : World = record w { trace = (Call.set_no_new_privs, ret v e) ∷ w.trace } in
            rw (attempt-done set_no_new_privs f k granted) (
              Accounted-neutral n k w w' (store out (negsuc 0))
                (unprivileged ruleset_fd plan (store out (negsuc 0)) (some tt) k w') (omega arith)
                (omega arith) (unprivileged-Accounted n k w' ruleset_fd plan out fit h))
        | inr (e, refused) ↦ rw (attempt-failed set_no_new_privs f k refused) (omega arith)
      ]

  -- For a ruleset descriptor, any plan and any pointer, whatever the kernel answers with descriptors
  -- that fit an `int`: every descriptor that `landlockd_apply_sandbox_with_seccomp` is given by the
  -- kernel is closed again or is the listener in `*listener_fd_out`, counted for each number `n`; and
  -- where it fails, `*listener_fd_out` is -1, unless the pointer is NULL.
  pub apply_sandbox_with_seccomp-Accounted :
      (n : ℕ)
      → is_neg ruleset_fd ≡ false
      → DescriptorsFit k
      → Accounted n none w (apply_sandbox_with_seccomp ruleset_fd plan out k w)
        × Cleared out (apply_sandbox_with_seccomp ruleset_fd plan out k w)
  unfolding apply_sandbox_with_seccomp
  apply_sandbox_with_seccomp-Accounted n open_fd fit =
      elim (Bool-cases (has_entries plan && is_null out)) [
        | inl bad ↦ (rw open_fd (rw bad (omega (arith, held-store n))), cleared open_fd)
        | inr good ↦ (
          rw (open_fd, good)
              (Accounted-empty n w (store out (negsuc 0)) _ (held-store n) (started n fit good)),
          cleared open_fd,
        )
      ]
