-- ===== src/Wire/SafeWhole.antt =====
-- src/landlock_policy_loader.c: `load_ir_from_wire` as a whole on any bytes.
use landlock.Base.{ℕ, pos, ◌-◌, ◌^◌, refl, arith, ◌||◌, ◌==◌, ltb, if◌then◌else◌, Bool}
use landlock.Base.{true, false, Option, List, [], ◌∷◌, inr}
use landlock.Sys.{World}
use landlock.Sys.Types.{CString, Kernel}
use landlock.Document.Wellformed.{IsDocument}
use landlock.Document.Add.{
  open_read, open_write, scratch, export, broker_tmpfs, mount_tmpfs, mount_proc, broker_bind,
  mount_bind,
}
use landlock.Document.Operations.{Operation, net, runtime_root, runtime_cwd, seccomp, deny_rule}
use landlock.Wire.Load.{
  Header, header_widths, header_of, load_layer, load_net_rule, load_object, load_addfd,
}
use landlock.Wire.Reader.{Cursor, got, L, pure, refuse, give_up}
use landlock.Wire.Reads.{Reaches}
use landlock.Wire.Whole.{
  load_runtime, load_deny, load_net, load_seccomp, load_end, load_body, load_ir_from_wire,
}
use landlock.Wire.Safe.{
  Good, Keeps, pure-Keeps, bind-Keeps, give_up-Keeps, refuse-Keeps, unless_bad-Keeps, adds-Keeps,
  next_bytes-Keeps, read_number-Keeps, read_numbers-Keeps, new_string-Keeps, rounds-Keeps,
  added-Keeps, load_path-Keeps, load_layer-Keeps, load_net_rule-Keeps, load_bind-Keeps,
  load_object-Keeps, load_addfd-Keeps,
}

skipped-Keeps :
    (off : Bool) (m : L (Unit {0}))
    → Keeps 0 (λ _. 0) m
    → Keeps 0 (λ _. 0) (if off then pure tt else m)
skipped-Keeps true m h = pure-Keeps tt refl
skipped-Keeps false m h = h

load_runtime-Keeps :
    (set_path : Option CString → Operation) (n : ℕ) → Keeps 0 (λ _. 0) (load_runtime set_path n)
unfolding load_runtime
load_runtime-Keeps set_path n = skipped-Keeps (n == 0) _ (
    bind-Keeps (next_bytes-Keeps n)
      (λ bs. bind-Keeps (new_string-Keeps bs) (λ path. added-Keeps 1 (set_path path))))

load_deny-Keeps : Keeps 0 (λ _. 0) load_deny
unfolding load_deny
load_deny-Keeps = bind-Keeps (read_number-Keeps 4) (λ nr.
    bind-Keeps (unless_bad-Keeps (ltb (2 ^ 31 - 1) nr) give_up give_up-Keeps)
      (λ u. adds-Keeps (deny_rule (pos nr))))

load_net-Keeps : (on handled n : ℕ) → Keeps 0 (λ _. 0) (load_net on handled n)
unfolding load_net
load_net-Keeps on handled n =
    skipped-Keeps (on == 0) _ (
      bind-Keeps (adds-Keeps (net handled)) (λ u. rounds-Keeps n load_net_rule load_net_rule-Keeps))

load_seccomp-Keeps : (on error n : ℕ) → Keeps 0 (λ _. 0) (load_seccomp on error n)
unfolding load_seccomp
load_seccomp-Keeps on error n = skipped-Keeps (on == 0) _ (
    bind-Keeps (unless_bad-Keeps (error == 0 || ltb 4095 error) give_up give_up-Keeps) (λ u.
      bind-Keeps (adds-Keeps (seccomp error)) (λ v. rounds-Keeps n load_deny load_deny-Keeps)))

load_end-Keeps : Keeps 0 (λ _. 0) load_end
unfolding load_end
load_end-Keeps = record { law = λ c d k w. at_end c d k w c.rest }
  where
    at_end :
        (c : Cursor)
        → IsDocument c.doc
        → (k : Kernel) (w : World) (bs : List ℕ)
        → Reaches Unit 0
            (λ _. 0)
            c
            Good
            w
            (elim bs [ [] ↦ got tt c w | b ∷ cs ↦ refuse {A = Unit {0}} k c w ])
    at_end c d k w [] = (d, omega arith, refl)
    at_end c d k w (b ∷ bs) = (d, omega arith, omega arith, inr tt)

load_body-Keeps : (h : Header) → Keeps 0 (λ _. 0) (load_body h)
unfolding load_body
load_body-Keeps h = bind-Keeps (rounds-Keeps h.fs_layer_count load_layer load_layer-Keeps) λ u1.
    bind-Keeps (load_net-Keeps h.net_enabled h.net_handled_access h.net_rule_count) λ u2.
      bind-Keeps (rounds-Keeps h.broker_open_read_count _ (load_path-Keeps open_read)) λ u3.
        bind-Keeps (rounds-Keeps h.broker_open_write_count _ (load_path-Keeps open_write)) λ u4.
          bind-Keeps (rounds-Keeps h.broker_scratch_count _ (load_path-Keeps scratch)) λ u5.
            bind-Keeps (rounds-Keeps h.broker_export_count _ (load_path-Keeps export)) λ u6.
              bind-Keeps (rounds-Keeps h.broker_mount_tmpfs_count _ (load_path-Keeps broker_tmpfs))
                λ u7.
                  bind-Keeps
                    (rounds-Keeps h.broker_mount_bind_count _ (load_bind-Keeps broker_bind))
                    λ u8.
                      bind-Keeps
                        (rounds-Keeps h.broker_mount_object_count load_object load_object-Keeps)
                        λ u9.
                          bind-Keeps (rounds-Keeps h.broker_addfd_count load_addfd load_addfd-Keeps)
                            λ u10.
                              bind-Keeps
                                (rounds-Keeps h.mount_tmpfs_count _ (load_path-Keeps mount_tmpfs))
                                λ u11.
                                  bind-Keeps
                                    (rounds-Keeps h.mount_bind_count _ (load_bind-Keeps mount_bind))
                                    λ u12.
                                      bind-Keeps
                                        (rounds-Keeps h.mount_proc_count _
                                          (load_path-Keeps mount_proc))
                                        λ u13.
                                          bind-Keeps
                                            (load_runtime-Keeps runtime_root h.runtime_root_len)
                                            λ u14.
                                              bind-Keeps
                                                (load_runtime-Keeps runtime_cwd h.runtime_cwd_len)
                                                λ u15.
                                                  bind-Keeps
                                                    (load_seccomp-Keeps h.seccomp_enabled
                                                      h.seccomp_errno h.seccomp_deny_count)
                                                    λ u16. load_end-Keeps

pub load_ir_from_wire-Keeps : Keeps 0 (λ _. 0) load_ir_from_wire
unfolding load_ir_from_wire
load_ir_from_wire-Keeps =
    bind-Keeps (read_numbers-Keeps header_widths)
      λ ns. bind-Keeps (unless_bad-Keeps _ refuse refuse-Keeps) λ u. load_body-Keeps (header_of ns)
