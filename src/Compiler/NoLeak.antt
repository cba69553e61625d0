-- ===== src/Compiler/NoLeak.antt =====
-- The whole of `landlockd_policy_compile_fs` and `landlockd_policy_compile_net`: who owns the
-- descriptors at the end.
use landlock.Base.{ℕ, ℤ, pos, negsuc, ◌+◌, ◌≡◌, refl, arith, List, [], ◌∷◌, false}
use landlock.Base.{some, if◌then◌else◌, Bool-cases, inl, inr, ◌⊎◌, ◌==◌, ◌∙◌, length, replicate}
use landlock.Sys.{M, World, Outcome, done, failed, attempt, call, set_errno, pure, ◌>>=◌, ◌>>◌}
use landlock.Sys.Laws.{attempt-done, attempt-failed, Answer-cases, bind-done}
use landlock.Sys.Types.{Kernel, Call, ret, fails}
use landlock.Sys.Errno.{einval}
use landlock.Sys.Descriptors.{opened, closed, DescriptorsFit}
use landlock.Ir.{Policy, policy_validate}
use landlock.Ir.Valid.{policy_validate_refuses}
use landlock.Compiler.{
  compile_layers, after_validation, Filled, Maker, Compiled, Rulesets, no_rulesets, close_all,
  compiled_rulesets_cleanup, fill, finish, allocated, compile, layers_of, count_wanted, fs_maker,
  net_maker, policy_compile_fs, policy_compile_net,
}
use landlock.Compiler.Slots.{holds, holds_all, holds-free}
use landlock.Compiler.Leaks.{
  IsAccounted, FillAccount, FillAccount-from, fill_account, fs-IsAccounted, net-IsAccounted,
}

-- Each descriptor opened on the way is closed again or in the caller's `out`, counted for `n`; and
-- where the compilation fails, `out` is empty.
abbrev pub Owned : ℕ → World → Outcome Compiled → Type 0
Owned n w (done c v) =
    (opened n v.trace + closed n w.trace
      ≡ closed n v.trace + opened n w.trace + holds_all n c.out.ruleset_fds)
    × (c.out ≡ (if c.succeeded then c.out else no_rulesets))
Owned n w (failed v) = ⊥

-- Closing an array of descriptors never fails, and closes what it holds.
close_all_closes :
    (n : ℕ) (k : Kernel) (fds : List ℤ) (w : World)
    → (v : World) × (close_all fds k w ≡ done tt v)
      × (closed n v.trace ≡ holds n fds + closed n w.trace)
      × (opened n v.trace ≡ opened n w.trace)
unfolding close_all
close_all_closes n k [] w = (w, refl, omega arith, refl)
close_all_closes n k (negsuc m ∷ fds) w = close_all_closes n k fds w
close_all_closes n k (pos fd ∷ fds) w = elim (Answer-cases (k w.trace (Call.close (pos fd)))) [
  | inl (v, e, h) ↦
      let w' : World = record w { errno = e; trace = (Call.close (pos fd), ret v e) ∷ w.trace } in
      let (u, run, c, o) = close_all_closes n k fds w' in
      (
        u,
        (let step : close_all (pos fd ∷ fds) k w ≡ close_all fds k w' = ground arith in step ∙ run),
        omega arith,
        omega arith,
      )
  | inr (e, h) ↦
      let w' : World = record w { errno = e; trace = (Call.close (pos fd), fails e) ∷ w.trace } in
      let (u, run, c, o) = close_all_closes n k fds w' in
      (
        u,
        (let step : close_all (pos fd ∷ fds) k w ≡ close_all fds k w' = ground arith in step ∙ run),
        omega arith,
        omega arith,
      )
]

module _ (n : ℕ) (k : Kernel) where
  -- The cleanup closes what the array holds and gives back the caller's `errno`.
  cleanup_closes :
      (fds : List ℤ) (count : ℕ) (w : World)
      → (v : World) × (compiled_rulesets_cleanup
            (record { count = count; ruleset_fds = some fds })
            k
            w
          ≡ done no_rulesets v)
        × (closed n v.trace ≡ holds n fds + closed n w.trace)
        × (opened n v.trace ≡ opened n w.trace)
        × (v.errno ≡ w.errno)
  unfolding compiled_rulesets_cleanup
  cleanup_closes fds count w =
      let (u, run, c, o) = close_all_closes n k fds w in
      elim (Answer-cases (k u.trace Call.free)) [
        | inl (v, e, h) ↦ (
          record u { errno = w.errno; trace = (Call.free, ret v e) ∷ u.trace },
          ground arith,
          ground arith,
          ground arith,
          ground arith,
        )
        | inr (e, h) ↦ (
          record u { errno = w.errno; trace = (Call.free, fails e) ∷ u.trace },
          ground arith,
          ground arith,
          ground arith,
          ground arith,
        )
      ]

  given_up-Owned :
      (f : Filled) (w v : World)
      → f.whole ≡ false
      → FillAccount n w 0 (done f v)
      → Owned n w (finish f k v)
  given_up-Owned f w v cut h =
      let (u, run, c, o, e) = cleanup_closes f.fds (length f.fds) v in
      let r : Rulesets = record { count = length f.fds; ruleset_fds = some f.fds } in
      let step : finish f k v
          ≡ done (record { succeeded = false; out = no_rulesets }) (record u { errno = v.errno }) =
        rw (cut, if◌then◌else◌)
          (bind-done (compiled_rulesets_cleanup r)
            (λ out. set_errno v.errno >> pure (record { succeeded = false; out = out })) k run) in
      rw step (omega arith, refl)

  finish-Owned :
      (w : World) (o : Outcome Filled)
      → FillAccount n w 0 o
      → Owned n w (((λ _ _. o) >>= finish) k w)
  finish-Owned w (failed v) h = h
  finish-Owned w (done f v) h = elim (Bool-cases f.whole) [
    | inl whole ↦ rw (whole, if◌then◌else◌) (omega arith, refl)
    | inr cut ↦ given_up-Owned f w v cut h
  ]

  module _ {L : Type 0} (m : Maker L) (law : IsAccounted m n k) where
    filled-Owned :
        (ls : List L) (w : World)
        → Owned n w ((fill m ls 0 (replicate (count_wanted m.wanted ls) (negsuc 0)) >>= finish) k w)
    filled-Owned ls w =
        let free : List ℤ = replicate (count_wanted m.wanted ls) (negsuc 0) in
        finish-Owned w (fill m ls 0 free k w) (
          FillAccount-from m n k w w 0 (holds n free) _
            (omega (arith, holds-free n (count_wanted m.wanted ls)))
            (fill_account m n k law ls 0 free w refl))

    Owned-from :
        (w v : World) (o : Outcome Compiled)
        → opened n v.trace + closed n w.trace ≡ closed n v.trace + opened n w.trace
        → Owned n v o
        → Owned n w o
    Owned-from w v (done c u) e h = (omega arith, h.1)
    Owned-from w v (failed u) e h = h

    allocated-Owned :
        (ls : List L) (w : World)
        → Owned n w (
            (attempt (call (Call.allocate (count_wanted m.wanted ls)))
                >>= allocated m ls (count_wanted m.wanted ls))
              k w)
    allocated-Owned ls w =
        let count : ℕ = count_wanted m.wanted ls in
        let c : Call = Call.allocate count in
        elim (Answer-cases (k w.trace c)) [
          | inl (b, e, h) ↦
              let w' : World = record w { errno = e; trace = (c, ret b e) ∷ w.trace } in
              let block : call c k w ≡ done b w' = rw h refl in
              rw (attempt-done (call c) (allocated m ls count) k {w = w} {v = w'} block)
                (Owned-from w w' _ (omega arith) (filled-Owned ls w'))
          | inr (e, h) ↦
              let w' : World = record w { errno = e; trace = (c, fails e) ∷ w.trace } in
              let block : call c k w ≡ failed w' = rw h refl in
              rw (attempt-failed (call c) (allocated m ls count) k {w = w} {v = w'} block)
                (omega arith, refl)
        ]

    layers-Owned : (ls : List L) (w : World) → Owned n w (compile_layers m ls k w)
    layers-Owned ls w = elim (Bool-cases (count_wanted m.wanted ls == 0)) [
      | inl none_left ↦ rw (none_left, if◌then◌else◌) (omega arith, refl)
      | inr some_left ↦ rw (some_left, if◌then◌else◌) (allocated-Owned ls w)
    ]

    -- A validation that makes no call keeps the account.
    pub compile-Owned :
        (validate : M (Unit {0})) (ls : List L) (w : World)
        → (validate k w ≡ done tt w) ⊎ (validate k w ≡ failed (record w { errno = einval }))
        → Owned n w (compile m validate ls k w)
    unfolding compile
    compile-Owned validate ls w ends = elim ends [
      | inl valid ↦
          rw (attempt-done validate (after_validation m ls) k {w = w} {v = w} valid)
            (layers-Owned ls w)
      | inr refused ↦
          let w' : World = record w { errno = einval } in
          rw (attempt-failed validate (after_validation m ls) k {w = w} {v = w'} refused)
            (omega arith, refl)
    ]

module _ (n : ℕ) (p : Policy) (before : Rulesets) (k : Kernel) (w : World)
    (fit : DescriptorsFit k) where
  -- A compilation of the file system layers of any policy, whatever a kernel answers whose
  -- descriptors fit an `int`: each descriptor that it opens, counted for any number `n`, is closed
  -- again or in the `out` that it leaves; and unless it succeeds, `out` is empty.
  pub policy_compile_fs-Owned : Owned n w (policy_compile_fs (some p) (some before) k w)
  unfolding policy_compile_fs
  policy_compile_fs-Owned =
      compile-Owned n k fs_maker (fs-IsAccounted n k fit) (policy_validate (some p)) (layers_of p) w
        (policy_validate_refuses (some p) k w)

  -- A compilation of the network layers of any policy, whatever a kernel answers whose descriptors
  -- fit an `int`: each descriptor that it opens, counted for any number `n`, is closed again or in
  -- the `out` that it leaves; and unless it succeeds, `out` is empty.
  pub policy_compile_net-Owned : Owned n w (policy_compile_net (some p) (some before) k w)
  unfolding policy_compile_net
  policy_compile_net-Owned =
      compile-Owned n k net_maker (net-IsAccounted n k fit) (policy_validate (some p)) (layers_of p)
        w (policy_validate_refuses (some p) k w)
