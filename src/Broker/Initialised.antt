-- ===== src/Broker/Initialised.antt =====
-- src/landlockd_exec.c, `landlockd_broker_allowlist_init` and `landlockd_broker_allowlist_cleanup`.
use landlock.Base.{ℕ, ◌+◌, ◌<◌, ◌≡◌, inl, inr, refl, arith}
use landlock.Sys.{World, Outcome, M, done, failed, pure, ◌>>◌}
use landlock.Sys.Types.{CString, Kernel}
use landlock.Memory.Account.{string_blocks, array_blocks, IsArray}
use landlock.Memory.Blocks.{refusals, Leaves}
use landlock.Memory.Releases.{Releases, Frees, then-Releases}
use landlock.Memory.Gains.{Gains, Takes, Is, freeing, bind_value-Takes, map-Takes}
use landlock.Document.Types.{Document, PathRules}
use landlock.Document.Reset.{free_bind, free_object, free_addfd}
use landlock.Document.ResetLaws.{
  free_array-Releases, free_paths-Releases, free_bind-Releases, free_object-Releases,
  free_addfd-Releases,
}
use landlock.Document.Wellformed.{
  IsDocument, IsNamed, IsBind, IsObject, IsAddfd, paths_blocks, bind_blocks, object_blocks,
  addfd_blocks,
}
use landlock.Broker.Types.{Allowlist, no_entries}
use landlock.Broker.Allowlist.{
  free_entries, allowlist_cleanup, path_item, bind_item, object_item, addfd_item,
  canonicalize_rules, canonicalize_bind_rules, canonicalize_mount_object_rules,
  canonicalize_addfd_rules, or_cleanup, allowlist_init,
}
use landlock.Broker.Items.{
  make_array-Takes, mapped, real_path, real_bind, real_object, real_addfd, path_item-law,
  bind_item-law,
}
use landlock.Broker.Rules.{object_item-law, addfd_item-law}

-- The blocks that an allowlist holds.
abbrev pub allowlist_blocks : Allowlist → ℕ
allowlist_blocks a =
    paths_blocks a.read_paths
    + (paths_blocks a.write_paths
        + (paths_blocks a.scratch_paths
            + (paths_blocks a.export_paths
                + (paths_blocks a.mount_tmpfs_paths
                    + (array_blocks bind_blocks a.mount_bind_rules
                        + (array_blocks object_blocks a.mount_object_rules
                            + (array_blocks addfd_blocks a.addfd_rules)))))))

free_entries-Releases : (a : Allowlist) → Releases (allowlist_blocks a) (free_entries a)
free_entries-Releases a = then-Releases _ _ _ refl _ _ (free_paths-Releases a.read_paths) (
    then-Releases _ _ _ refl _ _ (free_paths-Releases a.write_paths) (
      then-Releases _ _ _ refl _ _ (free_paths-Releases a.scratch_paths) (
        then-Releases _ _ _ refl _ _ (free_paths-Releases a.export_paths) (
          then-Releases _ _ _ refl _ _ (free_paths-Releases a.mount_tmpfs_paths) (
            then-Releases _ _ _ refl _ _
              (free_array-Releases free_bind bind_blocks free_bind-Releases a.mount_bind_rules)
              (then-Releases _ _ _ refl _ _
                (free_array-Releases free_object object_blocks free_object-Releases
                  a.mount_object_rules)
                (free_array-Releases free_addfd addfd_blocks free_addfd-Releases
                  a.addfd_rules)))))))

or_cleanup_outcome :
    {A : Type 0} (real : CString → CString) (a : Allowlist) (held n : ℕ) (P : A → Type 0)
    (k : Kernel) (w : World) (o : Outcome A)
    → allowlist_blocks a ≡ held
    → Gains ⊥ 0 n P w o
    → Gains ⊥ held n P w (or_cleanup real a (λ _ _. o) k w)
unfolding or_cleanup
or_cleanup_outcome real a held n P k w (done x v) e g = (g.0, omega (arith, g.1), g.2)
or_cleanup_outcome real a held n P k w (failed v) e g =
    freeing ⊥ held n P k w v (free_entries a k v) g.0 g.1 g.2
      (rw (← e) (free_entries-Releases a k v))

or_cleanup-Takes :
    {A : Type 0} (real : CString → CString) (a : Allowlist) (held n : ℕ) (P : A → Type 0) (m : M A)
    → allowlist_blocks a ≡ held
    → Takes ⊥ 0 n P m
    → Takes ⊥ held n P (or_cleanup real a m)
unfolding or_cleanup
or_cleanup-Takes real a held n P m e h k w =
    or_cleanup_outcome real a held n P k w (m k w) e (h k w)

module _ (real : CString → CString) where
  canonicalize_rules-Takes :
      (rs : PathRules)
      → IsArray IsNamed rs
      → Takes ⊥ 0
          (paths_blocks (mapped (real_path real) rs))
          (Is (mapped (real_path real) rs))
          (canonicalize_rules real rs)
  unfolding canonicalize_rules
  canonicalize_rules-Takes =
      make_array-Takes string_blocks (path_item real) (real_path real) IsNamed (path_item-law real)

  -- The allowlist of a policy: each path in its canonical form.
  abbrev pub canonical : Document → Allowlist
  canonical ir = record {
    read_paths = mapped (real_path real) ir.broker_open_read_rules;
    write_paths = mapped (real_path real) ir.broker_open_write_rules;
    scratch_paths = mapped (real_path real) ir.broker_scratch_rules;
    export_paths = mapped (real_path real) ir.broker_export_rules;
    mount_tmpfs_paths = mapped (real_path real) ir.broker_mount_tmpfs_rules;
    mount_bind_rules = mapped (real_bind real) ir.broker_mount_bind_rules;
    mount_object_rules = mapped (real_object real) ir.broker_mount_object_rules;
    addfd_rules = mapped (real_addfd real) ir.broker_addfd_rules;
  }

  allowlist_init-Takes :
      (ir : Document)
      → IsDocument ir
      → (n : ℕ) × (n ≡ allowlist_blocks (canonical ir))
        × Takes ⊥ 0 n (Is (canonical ir)) (allowlist_init real ir)
  unfolding allowlist_init canonicalize_bind_rules canonicalize_mount_object_rules
      canonicalize_addfd_rules
  allowlist_init-Takes ir h =
      let c : Allowlist = canonical ir in
      let a1 : Allowlist = record no_entries { read_paths = c.read_paths } in
      let a2 : Allowlist = record a1 { write_paths = c.write_paths } in
      let a3 : Allowlist = record a2 { scratch_paths = c.scratch_paths } in
      let a4 : Allowlist = record a3 { export_paths = c.export_paths } in
      let a5 : Allowlist = record a4 { mount_tmpfs_paths = c.mount_tmpfs_paths } in
      let a6 : Allowlist = record a5 { mount_bind_rules = c.mount_bind_rules } in
      let a7 : Allowlist = record a6 { mount_object_rules = c.mount_object_rules } in
      (
        allowlist_blocks c,
        refl,
        bind_value-Takes ⊥ (0) (paths_blocks c.read_paths) _ c.read_paths (Is c)
            (or_cleanup real no_entries (canonicalize_rules real ir.broker_open_read_rules)) _
            (or_cleanup-Takes real no_entries (0) (paths_blocks c.read_paths) (Is c.read_paths)
              (canonicalize_rules real ir.broker_open_read_rules) (omega arith)
              (canonicalize_rules-Takes ir.broker_open_read_rules h.opens))
            (bind_value-Takes ⊥ (0 + paths_blocks c.read_paths) (paths_blocks c.write_paths) _
              c.write_paths (Is c)
              (or_cleanup real a1 (canonicalize_rules real ir.broker_open_write_rules)) _
              (or_cleanup-Takes real a1 (0 + paths_blocks c.read_paths) (paths_blocks c.write_paths)
                (Is c.write_paths) (canonicalize_rules real ir.broker_open_write_rules)
                (omega arith) (canonicalize_rules-Takes ir.broker_open_write_rules h.writes))
              (bind_value-Takes ⊥ (0 + paths_blocks c.read_paths + paths_blocks c.write_paths)
                (paths_blocks c.scratch_paths) _ c.scratch_paths (Is c)
                (or_cleanup real a2 (canonicalize_rules real ir.broker_scratch_rules)) _
                (or_cleanup-Takes real a2
                  (0 + paths_blocks c.read_paths + paths_blocks c.write_paths)
                  (paths_blocks c.scratch_paths) (Is c.scratch_paths)
                  (canonicalize_rules real ir.broker_scratch_rules) (omega arith)
                  (canonicalize_rules-Takes ir.broker_scratch_rules h.scratches))
                (bind_value-Takes ⊥
                  (0
                    + paths_blocks c.read_paths
                    + paths_blocks c.write_paths
                    + paths_blocks c.scratch_paths)
                  (paths_blocks c.export_paths) _ c.export_paths (Is c)
                  (or_cleanup real a3 (canonicalize_rules real ir.broker_export_rules)) _
                  (or_cleanup-Takes real a3
                    (0
                      + paths_blocks c.read_paths
                      + paths_blocks c.write_paths
                      + paths_blocks c.scratch_paths)
                    (paths_blocks c.export_paths) (Is c.export_paths)
                    (canonicalize_rules real ir.broker_export_rules) (omega arith)
                    (canonicalize_rules-Takes ir.broker_export_rules h.exports))
                  (bind_value-Takes ⊥
                    (0
                      + paths_blocks c.read_paths
                      + paths_blocks c.write_paths
                      + paths_blocks c.scratch_paths
                      + paths_blocks c.export_paths)
                    (paths_blocks c.mount_tmpfs_paths) _ c.mount_tmpfs_paths (Is c)
                    (or_cleanup real a4 (canonicalize_rules real ir.broker_mount_tmpfs_rules)) _
                    (or_cleanup-Takes real a4
                      (0
                        + paths_blocks c.read_paths
                        + paths_blocks c.write_paths
                        + paths_blocks c.scratch_paths
                        + paths_blocks c.export_paths)
                      (paths_blocks c.mount_tmpfs_paths) (Is c.mount_tmpfs_paths)
                      (canonicalize_rules real ir.broker_mount_tmpfs_rules) (omega arith)
                      (canonicalize_rules-Takes ir.broker_mount_tmpfs_rules h.broker_tmpfs_mounts))
                    (bind_value-Takes ⊥
                      (0
                        + paths_blocks c.read_paths
                        + paths_blocks c.write_paths
                        + paths_blocks c.scratch_paths
                        + paths_blocks c.export_paths
                        + paths_blocks c.mount_tmpfs_paths)
                      (array_blocks bind_blocks c.mount_bind_rules) _ c.mount_bind_rules (Is c)
                      (or_cleanup real a5 (canonicalize_bind_rules real ir.broker_mount_bind_rules))
                      _
                      (or_cleanup-Takes real a5
                        (0
                          + paths_blocks c.read_paths
                          + paths_blocks c.write_paths
                          + paths_blocks c.scratch_paths
                          + paths_blocks c.export_paths
                          + paths_blocks c.mount_tmpfs_paths)
                        (array_blocks bind_blocks c.mount_bind_rules) (Is c.mount_bind_rules)
                        (canonicalize_bind_rules real ir.broker_mount_bind_rules) (omega arith)
                        (make_array-Takes bind_blocks (bind_item real) (real_bind real) IsBind
                          (bind_item-law real) ir.broker_mount_bind_rules h.broker_binds))
                      (bind_value-Takes ⊥
                        (0
                          + paths_blocks c.read_paths
                          + paths_blocks c.write_paths
                          + paths_blocks c.scratch_paths
                          + paths_blocks c.export_paths
                          + paths_blocks c.mount_tmpfs_paths
                          + array_blocks bind_blocks c.mount_bind_rules)
                        (array_blocks object_blocks c.mount_object_rules) _ c.mount_object_rules
                        (Is c)
                        (or_cleanup real a6
                          (canonicalize_mount_object_rules real ir.broker_mount_object_rules))
                        _
                        (or_cleanup-Takes real a6
                          (0
                            + paths_blocks c.read_paths
                            + paths_blocks c.write_paths
                            + paths_blocks c.scratch_paths
                            + paths_blocks c.export_paths
                            + paths_blocks c.mount_tmpfs_paths
                            + array_blocks bind_blocks c.mount_bind_rules)
                          (array_blocks object_blocks c.mount_object_rules)
                          (Is c.mount_object_rules)
                          (canonicalize_mount_object_rules real ir.broker_mount_object_rules)
                          (omega arith)
                          (make_array-Takes object_blocks (object_item real) (real_object real)
                            IsObject (object_item-law real) ir.broker_mount_object_rules h.objects))
                        (map-Takes ⊥
                          (0
                            + paths_blocks c.read_paths
                            + paths_blocks c.write_paths
                            + paths_blocks c.scratch_paths
                            + paths_blocks c.export_paths
                            + paths_blocks c.mount_tmpfs_paths
                            + array_blocks bind_blocks c.mount_bind_rules
                            + array_blocks object_blocks c.mount_object_rules)
                          (array_blocks addfd_blocks c.addfd_rules) (Is c.addfd_rules) (Is c)
                          (or_cleanup real a7 (canonicalize_addfd_rules real ir.broker_addfd_rules))
                          (λ rs. record a7 { addfd_rules = rs })
                          (λ rs e i. record a7 { addfd_rules = e i })
                          (or_cleanup-Takes real a7
                            (0
                              + paths_blocks c.read_paths
                              + paths_blocks c.write_paths
                              + paths_blocks c.scratch_paths
                              + paths_blocks c.export_paths
                              + paths_blocks c.mount_tmpfs_paths
                              + array_blocks bind_blocks c.mount_bind_rules
                              + array_blocks object_blocks c.mount_object_rules)
                            (array_blocks addfd_blocks c.addfd_rules) (Is c.addfd_rules)
                            (canonicalize_addfd_rules real ir.broker_addfd_rules) (omega arith)
                            (make_array-Takes addfd_blocks (addfd_item real) (real_addfd real)
                              IsAddfd (addfd_item-law real) ir.broker_addfd_rules h.addfds))))))))),
      )

  -- The outcome: the canonical allowlist with blocks of its own, and no call refused; or a failure with
  -- no block left behind, after a call for memory or for a canonical path was refused.
  abbrev pub Initialised : Document → World → Outcome Allowlist → Type 0
  Initialised ir w (done a v) =
      (a ≡ canonical ir)
      × Leaves w v 0 (allowlist_blocks (canonical ir))
      × (refusals v.trace ≡ refusals w.trace)
  Initialised ir w (failed v) = Leaves w v 0 0 × (refusals w.trace < refusals v.trace)

  initialised :
      (ir : Document) (w : World) (n : ℕ) (o : Outcome Allowlist)
      → n ≡ allowlist_blocks (canonical ir)
      → Gains ⊥ 0 n (Is (canonical ir)) w o
      → Initialised ir w o
  initialised ir w n (done a v) e g = (g.0, omega (arith, e, g.1), g.2)
  initialised ir w n (failed v) e (l, m, inl r) = (l, r)
  initialised ir w n (failed v) e (l, m, inr b) = absurd b

  -- The allowlist of a policy document that was built by the functions for it: where every call for
  -- memory and for a canonical path is answered, it holds the canonical form of each path and copies of
  -- the other strings, rule by rule; where one is refused, the function fails and has released all that
  -- it made.
  pub allowlist_init-Initialised :
      (ir : Document)
      → IsDocument ir
      → (k : Kernel) (w : World) → Initialised ir w (allowlist_init real ir k w)
  allowlist_init-Initialised ir h k w =
      let t : (n : ℕ) × (n ≡ allowlist_blocks (canonical ir))
          × Takes ⊥ 0 n (Is (canonical ir)) (allowlist_init real ir) =
        allowlist_init-Takes ir h in
      initialised ir w t.0 (allowlist_init real ir k w) t.1 (t.2 k w)

-- What `landlockd_broker_allowlist_cleanup` leaves.
abbrev pub CleanedUp : Allowlist → World → Outcome Allowlist → Type 0
CleanedUp a w (done b v) = (b ≡ no_entries) × Leaves w v (allowlist_blocks a) 0
CleanedUp a w (failed v) = ⊥

cleaned :
    (a : Allowlist) (w : World) (o : Outcome (Unit {0})) (k : Kernel)
    → Frees (allowlist_blocks a) w o
    → CleanedUp a w (((λ _ _. o) >> pure no_entries) k w)
cleaned a w (done u v) k g = (refl, omega (arith, g.0, g.1))
cleaned a w (failed v) k g = g

-- The cleanup of an allowlist frees all blocks that it holds and leaves it without entries.
pub allowlist_cleanup-CleanedUp :
    (a : Allowlist) (k : Kernel) (w : World) → CleanedUp a w (allowlist_cleanup a k w)
unfolding allowlist_cleanup
allowlist_cleanup-CleanedUp a k w = cleaned a w (free_entries a k w) k (free_entries-Releases a k w)
