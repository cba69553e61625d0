-- ===== src/Wire/RoundTrip.antt =====
-- src/landlock_policy_loader.c: `load_ir_from_wire` on what `write_ir` writes.
use landlock.Base.{
  ℕ, ◌^◌, ◌<◌, ◌≤◌, ◌≡◌, refl, arith, Bool, true, false, ltb, ◌==◌, ◌||◌, Option, none, some, List,
  [], ◌∷◌, ◌++◌, length,
}
use landlock.Sys.Types.{CString}
use landlock.Memory.{Array, items_of}
use landlock.Memory.Account.{All}
use landlock.Ir.{NetRule, ExceptionRule}
use landlock.Document.Types.{Document, PathRules, BindRule, blank_document}
use landlock.Document.Add.{
  open_read, open_write, scratch, export, broker_tmpfs, mount_tmpfs, mount_proc, broker_bind,
  mount_bind,
}
use landlock.Document.Operations.{Operation, net, runtime_root, runtime_cwd, seccomp}
use landlock.Document.Spec.{extended}
use landlock.Document.Wellformed.{IsMode, IsNetRule, IsDeny, IsPart, IsDocument}
use landlock.Wire.Reader.{Cursor, L, ◌>>◌, refuse, give_up, rounds}
use landlock.Wire.Load.{header_widths, header_of, load_net_rule}
use landlock.Wire.Whole.{
  load_runtime, load_deny, load_net, load_seccomp, load_end, load_body, load_ir_from_wire,
}
use landlock.Wire.Store.{
  text_of, flag, each, count_of, body_chunks, numbers, net_rule_chunks, deny_chunks, runtime_chunks,
  header_values, write_ir, onto,
}
use landlock.Wire.Parses.{
  at, Fit, Parses, pure-Parses, bind-Parses, unless_bad-Parses, adds-Parses, next_bytes-Parses,
  IsWireText, whole_text, new_string-Parses, read_numbers-Parses,
}
use landlock.Wire.Items.{onto-append, array-Parses, added-Parses, IsWirePath, paths-Parses}
use landlock.Wire.Rules.{
  IsWireLayer, layers-Parses, IsWirePort, load_net_rule-Parses, IsWireDeny, load_deny-Parses,
}
use landlock.Wire.Objects.{IsWireBind, binds-Parses, IsWireObject, objects-Parses}
use landlock.Wire.Addfds.{IsWireAddfd, addfds-Parses}

-- One of the two paths at the end.
runtime-Parses :
    (set_path : Option CString → Operation) (put : Option CString → Document)
    → ((c : ℕ) (cs : CString)
        → extended (set_path (some (c ∷ cs))) (put none) ≡ some (put (some (c ∷ cs))))
    → (s : Option CString) (rest : List ℕ) → IsMode s
    → IsWireText s
    → Parses 0 0
        (at (onto (runtime_chunks s) rest) (put none))
        tt
        (at rest (put s))
        (load_runtime set_path (length (text_of s)))
unfolding load_runtime onto
runtime-Parses set_path put e none rest h t = pure-Parses tt
runtime-Parses set_path put e (some []) rest h t = absurd h
runtime-Parses set_path put e (some (c ∷ cs)) rest h t =
    let more : (length (c ∷ cs) == 0) ≡ false = ground arith in
    rw (more, whole_text (c ∷ cs) t.1)
      (bind-Parses _ (next_bytes-Parses (c ∷ cs)) (
        bind-Parses _ (new_string-Parses (c ∷ cs) t.0)
          (added-Parses 1 (set_path (some (c ∷ cs))) (e c cs))))

module _ (e : Document) where
  abbrev net_part : Bool → ℕ → Array NetRule → Document
  net_part on handled rules = record e {
    net_enabled = on;
    net_handled_access = handled;
    net_rules = rules;
  }

  net_enabled_by :
      (handled : ℕ)
      → 0 < handled
      → extended (net handled) (net_part false 0 none) ≡ some (net_part true handled none)
  unfolding extended
  net_enabled_by handled h =
      let positive : (handled == 0) ≡ false = ground arith in rw positive refl

  net-Parses :
      (on : Bool) (handled : ℕ) (rules : Array NetRule) (rest : List ℕ)
      → IsPart IsNetRule on handled rules
      → All IsWirePort (items_of rules)
      → Parses 0 0
          (at (onto (each net_rule_chunks (items_of rules)) rest) (net_part false 0 none))
          tt
          (at rest (net_part on handled rules))
          (load_net (flag on) handled (count_of rules))
  unfolding load_net each onto
  net-Parses true handled rules rest h p =
      bind-Parses (λ u. rounds (count_of rules) load_net_rule)
        (adds-Parses (net handled) (net_enabled_by handled h.0))
        (array-Parses net_rule_chunks load_net_rule IsWirePort (net_part true handled) IsNetRule
          (load_net_rule-Parses (record e { net_handled_access = handled })) rules rest h.1 p)
  net-Parses false handled rules rest h p = rw (h.0, h.1) (pure-Parses tt)

  abbrev seccomp_part : Bool → ℕ → Array ExceptionRule → Document
  seccomp_part on error rules = record e {
    seccomp_enabled = on;
    seccomp_errno = error;
    seccomp_deny_rules = rules;
  }

  seccomp_enabled_by :
      (error : ℕ)
      → 0 < error
      → extended (seccomp error) (seccomp_part false 0 none) ≡ some (seccomp_part true error none)
  unfolding extended
  seccomp_enabled_by error h =
      let positive : (error == 0) ≡ false = ground arith in rw positive refl

  seccomp-Parses :
      (on : Bool) (error : ℕ) (rules : Array ExceptionRule) (rest : List ℕ)
      → IsPart IsDeny on error rules
      → error ≤ 4095
      → All IsWireDeny (items_of rules)
      → Parses 0 0
          (at (onto (each deny_chunks (items_of rules)) rest) (seccomp_part false 0 none))
          tt
          (at rest (seccomp_part on error rules))
          (load_seccomp (flag on) error (count_of rules))
  unfolding load_seccomp each onto
  seccomp-Parses true error rules rest h small p =
      let in_range : (error == 0 || ltb 4095 error) ≡ false = ground (arith, h.0) in
      bind-Parses _ (unless_bad-Parses (error == 0 || ltb 4095 error) give_up in_range) (
        bind-Parses (λ u. rounds (count_of rules) load_deny)
          (adds-Parses (seccomp error) (seccomp_enabled_by error h.0))
          (array-Parses deny_chunks load_deny IsWireDeny (seccomp_part true error) IsDeny
            (load_deny-Parses (record e { seccomp_errno = error })) rules rest h.1 p))
  seccomp-Parses false error rules rest h small p = rw (h.0, h.1) (pure-Parses tt)

load_end-Parses : {d : Document} → Parses 0 0 (at [] d) tt (at [] d) load_end
unfolding load_end
load_end-Parses = record { law = λ h k w. ((refl, refl, h), omega arith, refl) }

abbrev pub WirePaths : PathRules → Type 0
WirePaths rules = (count_of rules < 2 ^ 32) × All IsWirePath (items_of rules)

abbrev pub WireBinds : Array BindRule → Type 0
WireBinds rules = (count_of rules < 2 ^ 32) × All IsWireBind (items_of rules)

-- The numbers of a document fit the wire, its strings are C strings, the actions are of the closed set
-- and the error number is one of the kernel's.
pub record IsWireDocument (d : Document) : Type 0 where
  pub layers : (count_of d.fs_layers < 2 ^ 32) × All IsWireLayer (items_of d.fs_layers)
  pub net :
      (d.net_handled_access < 2 ^ 64)
      × (count_of d.net_rules < 2 ^ 32)
      × All IsWirePort (items_of d.net_rules)
  pub opens : WirePaths d.broker_open_read_rules
  pub writes : WirePaths d.broker_open_write_rules
  pub scratches : WirePaths d.broker_scratch_rules
  pub exports : WirePaths d.broker_export_rules
  pub broker_tmpfs_mounts : WirePaths d.broker_mount_tmpfs_rules
  pub broker_binds : WireBinds d.broker_mount_bind_rules
  pub objects :
      (count_of d.broker_mount_object_rules < 2 ^ 32)
      × All IsWireObject (items_of d.broker_mount_object_rules)
  pub addfds :
      (count_of d.broker_addfd_rules < 2 ^ 32) × All IsWireAddfd (items_of d.broker_addfd_rules)
  pub tmpfs_mounts : WirePaths d.mount_tmpfs_rules
  pub binds : WireBinds d.mount_bind_rules
  pub proc_mounts : WirePaths d.mount_proc_rules
  pub root : IsWireText d.runtime_root
  pub cwd : IsWireText d.runtime_cwd
  pub seccomp :
      (d.seccomp_errno ≤ 4095)
      × (count_of d.seccomp_deny_rules < 2 ^ 32)
      × All IsWireDeny (items_of d.seccomp_deny_rules)

flag_fits : (b : Bool) → flag b < 2 ^ 32
flag_fits true = omega arith
flag_fits false = omega arith

text_fits : (s : Option CString) → IsWireText s → length (text_of s) < 2 ^ 32
text_fits none h = omega arith
text_fits (some s) h = h.1

header-Fit : (d : Document) → IsWireDocument d → Fit header_widths (header_values d)
header-Fit d h = omega (
  arith,
  h.layers.0,
  h.net.0,
  h.net.1,
  h.opens.0,
  h.writes.0,
  h.scratches.0,
  h.exports.0,
  h.broker_tmpfs_mounts.0,
  h.broker_binds.0,
  h.objects.0,
  h.addfds.0,
  h.tmpfs_mounts.0,
  h.binds.0,
  h.proc_mounts.0,
  h.seccomp.0,
  h.seccomp.1,
  text_fits d.runtime_root h.root,
  text_fits d.runtime_cwd h.cwd,
  flag_fits d.net_enabled,
  flag_fits d.seccomp_enabled,
)

root_set :
    (e : Document) (c : ℕ) (cs : CString)
    → extended (runtime_root (some (c ∷ cs))) (record e { runtime_root = none })
      ≡ some (record e { runtime_root = some (c ∷ cs) })
unfolding extended
root_set e c cs = refl

cwd_set :
    (e : Document) (c : ℕ) (cs : CString)
    → extended (runtime_cwd (some (c ∷ cs))) (record e { runtime_cwd = none })
      ≡ some (record e { runtime_cwd = some (c ∷ cs) })
unfolding extended
cwd_set e c cs = refl

next-Parses :
    {d d' : Document} {c : Cursor} (xs ys : List (List ℕ)) (m n : L (Unit {0}))
    → Parses 0 0 (at (onto xs (onto ys [])) d) tt (at (onto ys []) d') m
    → Parses 0 0 (at (onto ys []) d') tt c n
    → Parses 0 0 (at (onto (xs ++ ys) []) d) tt c (m >> n)
next-Parses xs ys m n h l = rw (onto-append xs ys []) (bind-Parses (λ u. n) h l)

module _ (d : Document) (whole : IsDocument d) (h : IsWireDocument d) where
  body-Parses :
      Parses 0 0
        (at (onto (body_chunks d) []) blank_document)
        tt
        (at [] d)
        (load_body (header_of (header_values d)))
  unfolding load_body
  body-Parses =
      let d1 : Document = record blank_document { fs_layers = d.fs_layers } in
      let d2 : Document = net_part d1 d.net_enabled d.net_handled_access d.net_rules in
      let d3 : Document = record d2 { broker_open_read_rules = d.broker_open_read_rules } in
      let d4 : Document = record d3 { broker_open_write_rules = d.broker_open_write_rules } in
      let d5 : Document = record d4 { broker_scratch_rules = d.broker_scratch_rules } in
      let d6 : Document = record d5 { broker_export_rules = d.broker_export_rules } in
      let d7 : Document = record d6 { broker_mount_tmpfs_rules = d.broker_mount_tmpfs_rules } in
      let d8 : Document = record d7 { broker_mount_bind_rules = d.broker_mount_bind_rules } in
      let d9 : Document = record d8 { broker_mount_object_rules = d.broker_mount_object_rules } in
      let d10 : Document = record d9 { broker_addfd_rules = d.broker_addfd_rules } in
      let d11 : Document = record d10 { mount_tmpfs_rules = d.mount_tmpfs_rules } in
      let d12 : Document = record d11 { mount_bind_rules = d.mount_bind_rules } in
      let d13 : Document = record d12 { mount_proc_rules = d.mount_proc_rules } in
      let d14 : Document = record d13 { runtime_root = d.runtime_root } in
      let d15 : Document = record d14 { runtime_cwd = d.runtime_cwd } in
      next-Parses _ _ _ _ (layers-Parses blank_document d.fs_layers _ whole.layers h.layers.1) (
        next-Parses _ _ _ _
          (net-Parses d1 d.net_enabled d.net_handled_access d.net_rules _ whole.net h.net.2)
          (next-Parses _ _ _ _
            (paths-Parses open_read d2 d.broker_open_read_rules _ whole.opens h.opens.1)
            (next-Parses _ _ _ _
              (paths-Parses open_write d3 d.broker_open_write_rules _ whole.writes h.writes.1)
              (next-Parses _ _ _ _
                (paths-Parses scratch d4 d.broker_scratch_rules _ whole.scratches h.scratches.1)
                (next-Parses _ _ _ _
                  (paths-Parses export d5 d.broker_export_rules _ whole.exports h.exports.1)
                  (next-Parses _ _ _ _
                    (paths-Parses broker_tmpfs d6 d.broker_mount_tmpfs_rules _
                      whole.broker_tmpfs_mounts h.broker_tmpfs_mounts.1)
                    (next-Parses _ _ _ _
                      (binds-Parses broker_bind d7 d.broker_mount_bind_rules _ whole.broker_binds
                        h.broker_binds.1)
                      (next-Parses _ _ _ _
                        (objects-Parses d8 d.broker_mount_object_rules _ whole.objects h.objects.1)
                        (next-Parses _ _ _ _
                          (addfds-Parses d9 d.broker_addfd_rules _ whole.addfds h.addfds.1)
                          (next-Parses _ _ _ _
                            (paths-Parses mount_tmpfs d10 d.mount_tmpfs_rules _ whole.tmpfs_mounts
                              h.tmpfs_mounts.1)
                            (next-Parses _ _ _ _
                              (binds-Parses mount_bind d11 d.mount_bind_rules _ whole.binds
                                h.binds.1)
                              (next-Parses _ _ _ _
                                (paths-Parses mount_proc d12 d.mount_proc_rules _ whole.proc_mounts
                                  h.proc_mounts.1)
                                (next-Parses _ _ _ _
                                  (runtime-Parses runtime_root
                                    (λ s. record d13 { runtime_root = s }) (root_set d13)
                                    d.runtime_root _ whole.root h.root)
                                  (next-Parses _ _ _ _
                                    (runtime-Parses runtime_cwd
                                      (λ s. record d14 { runtime_cwd = s }) (cwd_set d14)
                                      d.runtime_cwd _ whole.cwd h.cwd)
                                    (bind-Parses (λ u. load_end)
                                      (seccomp-Parses d15 d.seccomp_enabled d.seccomp_errno
                                        d.seccomp_deny_rules [] whole.seccomp h.seccomp.0
                                        h.seccomp.2)
                                      load_end-Parses)))))))))))))))

  -- The whole.
  pub load_ir_from_wire-Parses :
      Parses 0 0 (at (onto (write_ir d) []) blank_document) tt (at [] d) load_ir_from_wire
  unfolding load_ir_from_wire write_ir
  load_ir_from_wire-Parses =
      rw (onto-append (numbers header_widths (header_values d)) (body_chunks d) []) (
        bind-Parses _ (read_numbers-Parses header_widths (header_values d) (header-Fit d h)) (
          bind-Parses (λ u. load_body (header_of (header_values d)))
            (unless_bad-Parses false refuse refl) body-Parses))
