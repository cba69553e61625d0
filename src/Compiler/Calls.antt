-- ===== src/Compiler/Calls.antt =====
-- The descriptors that the steps of a compilation open and close.
use landlock.Base.{ℕ, ℤ, pos, negsuc, ◌+◌, ◌<◌, ◌^◌, ◌≡◌, ◌⊎◌, inl, inr, refl, arith, ◌∷◌}
use landlock.Base.{
  ◌==◌, if◌then◌else◌, Option, none, some, int_of_long, int_of_long_small, ◌||◌, bit_and,
}
use landlock.Sys.{World, Outcome, done, failed, final}
use landlock.Sys.Types.{Kernel, Call, CString, RulesetAttr, NetPort, ret, fails}
use landlock.Sys.Laws.{Answer-cases}
use landlock.Sys.Descriptors.{opened, closed, DescriptorsFit}
use landlock.Ruleset.{abi_version, create_ruleset, add_fs_rule, add_net_rule}
use landlock.Sys.Errno.{enosys, eopnotsupp}
use landlock.Ruleset.Access.{create_fs_ruleset, create_net_ruleset, fs_attr, net_attr}
use landlock.Ruleset.Access.{fs_access_mask_for_abi, net_access_mask_for_abi}
use landlock.Compiler.{add_path_rule}

-- Every descriptor opened between `w` and `v` was closed, as far as the number `n` goes.
abbrev pub Balanced : ℕ → World → World → Type 0
Balanced n w v = opened n v.trace + closed n w.trace ≡ closed n v.trace + opened n w.trace

-- A creation opened the descriptor that it returns, and otherwise nothing.
abbrev pub Created : ℕ → World → Outcome (ℤ × ℕ) → Type 0
Created n w (done (pos fd, granted) v) =
    opened n v.trace + closed n w.trace
    ≡ closed n v.trace + opened n w.trace + (if fd == n then 1 else 0)
Created n w (done (negsuc m, granted) v) = ⊥
Created n w (failed v) = Balanced n w v

module _ (n : ℕ) (k : Kernel) where
  create_ruleset_opens :
      (w : World) (attr : Option RulesetAttr) (size : ℕ)
      → DescriptorsFit k
      → ((fd : ℕ) × (w' : World) × (create_ruleset attr size 0 k w ≡ done (pos fd) w')
          × (opened n w'.trace ≡ (if fd == n then 1 else 0) + opened n w.trace)
          × (closed n w'.trace ≡ closed n w.trace))
        ⊎ ((w' : World) × (create_ruleset attr size 0 k w ≡ failed w')
            × (opened n w'.trace ≡ opened n w.trace)
            × (closed n w'.trace ≡ closed n w.trace))
  unfolding create_ruleset
  create_ruleset_opens w attr size fit =
      let c : Call = Call.create_ruleset attr size 0 in
      elim (Answer-cases (k w.trace c)) [
        | inl (v, e, h) ↦
            let small : v < 2 ^ 31 = rw h at (fit w.trace c refl) in
            inl (
              v,
              record w { trace = (c, ret v e) ∷ w.trace },
              ground (arith, int_of_long_small v small),
              ground arith,
              ground arith,
            )
        | inr (e, h) ↦ inr (
          record w { errno = e; trace = (c, fails e) ∷ w.trace },
          ground arith,
          ground arith,
          ground arith,
        )
      ]

  abi_version_neutral :
      (w : World)
      → (abi : ℤ) × (v : World) × (abi_version k w ≡ done abi v)
        × (opened n v.trace ≡ opened n w.trace)
        × (closed n v.trace ≡ closed n w.trace)
  unfolding abi_version
  abi_version_neutral w = elim (Answer-cases (k w.trace (Call.create_ruleset none 0 1))) [
    | inl (v, e, h) ↦ (
      int_of_long v,
      record w { trace = (Call.create_ruleset none 0 1, ret v e) ∷ w.trace },
      ground arith,
      ground arith,
      ground arith,
    )
    | inr (e, h) ↦ (
      (if e == enosys || e == eopnotsupp then pos 0 else negsuc 0),
      record w { errno = e; trace = (Call.create_ruleset none 0 1, fails e) ∷ w.trace },
      ground arith,
      ground arith,
      ground arith,
    )
  ]

  pub create_fs_ruleset-Created :
      (w : World) (requested : ℕ) → DescriptorsFit k → Created n w (create_fs_ruleset requested k w)
  unfolding create_fs_ruleset
  create_fs_ruleset-Created w requested fit =
      let (abi, v, probed, o, c) = abi_version_neutral w in
      let effective : ℕ = bit_and requested (fs_access_mask_for_abi abi) in
      elim (create_ruleset_opens v (some (fs_attr effective)) 8 fit) [
        | inl (fd, w', h, o', c') ↦ ground arith
        | inr (w', h, o', c') ↦ ground arith
      ]

  pub create_net_ruleset-Created :
      (w : World) (requested : ℕ)
      → DescriptorsFit k
      → Created n w (create_net_ruleset requested k w)
  unfolding create_net_ruleset
  create_net_ruleset-Created w requested fit =
      let (abi, v, probed, o, c) = abi_version_neutral w in
      let effective : ℕ = bit_and requested (net_access_mask_for_abi abi) in
      elim (create_ruleset_opens v (some (net_attr effective)) 16 fit) [
        | inl (fd, w', h, o', c') ↦ ground arith
        | inr (w', h, o', c') ↦ ground arith
      ]

  pub add_path_rule-Balanced :
      (w : World) (fd : ℤ) (path : Option CString) (allowed : ℕ)
      → Balanced n w (final (add_path_rule fd path allowed k w))
  unfolding add_path_rule add_fs_rule
  add_path_rule-Balanced w fd path allowed = ground arith

  pub add_port_rule-Balanced :
      (w : World) (fd : ℤ) (a : NetPort) → Balanced n w (final (add_net_rule fd (some a) 0 k w))
  unfolding add_net_rule
  add_port_rule-Balanced w fd a = ground arith
