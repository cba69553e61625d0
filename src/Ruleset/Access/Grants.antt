-- ===== src/Ruleset/Access/Grants.antt =====
-- What `landlock_create_fs_ruleset` and `landlock_create_net_ruleset` ask for and report.
use landlock.Base.{
  ℕ, ℤ, pos, suc, ◌∷◌, ◌<◌, ◌==◌, ◌||◌, ◌≡◌, arith, none, some, if◌then◌else◌, bit_and, int_of_long,
}
use landlock.Base.Bits.{bit}
use landlock.Sys.{World, done, failed, newest}
use landlock.Sys.Types.{Kernel, Call, ret, fails}
use landlock.Sys.Errno.{enosys, eopnotsupp}
use landlock.Ruleset.{abi_version, create_ruleset}
use landlock.Ruleset.Access.{
  create_fs_ruleset, create_net_ruleset, fs_attr, net_attr, fs_access_mask_for_abi,
  net_access_mask_for_abi,
}
use landlock.Ruleset.Access.Masks.{knows_fs, knows_net, fs_rights, net_rights}

module _ (requested : ℕ) (k : Kernel) (w : World) where
  module _ {abi v e : ℕ} (probed : k w.trace (Call.create_ruleset none 0 1) ≡ ret v e) where
    fs_granted_mask :
        {granted : ℕ} {fd : ℤ} {w' : World}
        → int_of_long v ≡ pos (suc abi)
        → create_fs_ruleset requested k w ≡ done (fd, granted) w'
        → (granted ≡ bit_and requested (fs_access_mask_for_abi (pos (suc abi))))
          × (newest w' ≡ some (Call.create_ruleset (some (fs_attr granted)) 8 0))
          × (w'.errno ≡ w.errno)
    unfolding create_fs_ruleset abi_version create_ruleset
    fs_granted_mask small h = ground arith

    -- On a kernel with Landlock's ABI version `abi + 1`, a file system ruleset that
    -- `landlock_create_fs_ruleset` returns was created for exactly the requested rights that this
    -- version knows, these are the rights that it reports, and `errno` is as before.
    pub create_fs_ruleset_grants :
        {granted : ℕ} {fd : ℤ} {w' : World}
        → int_of_long v ≡ pos (suc abi)
        → create_fs_ruleset requested k w ≡ done (fd, granted) w'
        → ((i : ℕ) → bit i granted ≡ (if knows_fs (pos (suc abi)) i then bit i requested else 0))
          × (newest w' ≡ some (Call.create_ruleset (some (fs_attr granted)) 8 0))
          × (w'.errno ≡ w.errno)
    create_fs_ruleset_grants small h =
        let (cut, asked, kept) = fs_granted_mask small h in
        (λ i. rw cut (fs_rights abi requested i), asked, kept)

    net_granted_mask :
        {granted : ℕ} {fd : ℤ} {w' : World}
        → int_of_long v ≡ pos abi
        → create_net_ruleset requested k w ≡ done (fd, granted) w'
        → (granted ≡ bit_and requested (net_access_mask_for_abi (pos abi)))
          × (newest w' ≡ some (Call.create_ruleset (some (net_attr granted)) 16 0))
          × (w'.errno ≡ w.errno)
    unfolding create_net_ruleset abi_version create_ruleset
    net_granted_mask small h = ground arith

    -- On a kernel with Landlock's ABI version `abi`, a network ruleset that
    -- `landlock_create_net_ruleset` returns was created for exactly the requested rights that this
    -- version knows (two, from version 4 on), these are the rights that it reports, and `errno` is
    -- as before.
    create_net_ruleset_grants :
        {granted : ℕ} {fd : ℤ} {w' : World}
        → int_of_long v ≡ pos abi
        → create_net_ruleset requested k w ≡ done (fd, granted) w'
        → ((i : ℕ) → bit i granted ≡ (if knows_net (pos abi) i then bit i requested else 0))
          × (newest w' ≡ some (Call.create_ruleset (some (net_attr granted)) 16 0))
          × (w'.errno ≡ w.errno)
    create_net_ruleset_grants small h =
        let (cut, asked, kept) = net_granted_mask small h in
        (λ i. rw cut (net_rights abi requested i), asked, kept)

    -- A kernel below ABI version 4 gets no network ruleset: `EOPNOTSUPP`, after the probe alone.
    pub create_net_ruleset_too_old :
        int_of_long v ≡ pos (suc abi)
        → suc abi < 4
        → create_net_ruleset requested k w
          ≡ failed (record w {
            errno = eopnotsupp;
            trace = (Call.create_ruleset none 0 1, ret v e) ∷ w.trace;
          })
    unfolding create_net_ruleset abi_version net_access_mask_for_abi
    create_net_ruleset_too_old small old = ground arith

  -- Where the probe of the version fails, `landlock_create_fs_ruleset` and
  -- `landlock_create_net_ruleset` fail after it: with `ENOSYS` if the kernel has no Landlock or has
  -- it switched off, and with the probe's own `errno` otherwise.
  pub create_rulesets_unsupported :
      {e : ℕ}
      → k w.trace (Call.create_ruleset none 0 1) ≡ fails e
      → let reported = if e == enosys || e == eopnotsupp then enosys else e in
        let after : World = record w {
          errno = reported;
          trace = (Call.create_ruleset none 0 1, fails e) ∷ w.trace;
        } in
        (create_fs_ruleset requested k w ≡ failed after)
        × (create_net_ruleset requested k w ≡ failed after)
  unfolding create_fs_ruleset create_net_ruleset abi_version
  create_rulesets_unsupported h = (ground arith, ground arith)
