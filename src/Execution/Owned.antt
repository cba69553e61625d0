-- ===== src/Execution/Owned.antt =====
-- src/landlockd_exec.c: who owns the descriptors after the compilation of a policy document.
use landlock.Base.{
  ℕ, ℤ, pos, negsuc, ◌+◌, ◌≡◌, ◌==◌, refl, arith, inl, inr, Bool-cases, if◌then◌else◌, Option, none,
  some, List,
}
use landlock.Sys.{World, Outcome, done, failed, final, attempt, pure, ◌>>=◌}
use landlock.Sys.Types.{Kernel}
use landlock.Sys.Descriptors.{opened, closed, DescriptorsFit}
use landlock.Memory.{items_of}
use landlock.Ir.{NetRule}
use landlock.Ruleset.Access.{create_net_ruleset}
use landlock.Document.Types.{Document}
use landlock.Compiler.{add_port_rules}
use landlock.Compiler.Calls.{
  Created, Balanced, create_fs_ruleset-Created, create_net_ruleset-Created,
}
use landlock.Compiler.Leaks.{IsAccounted, add_path_rules-Balanced, add_port_rules-Balanced}
use landlock.Compiler.NoLeak.{Owned, compile-Owned}
use landlock.Execution.{
  document_maker, exec_compile_fs, net_compiled, net_created, exec_compile_net,
}

document-IsAccounted : (n : ℕ) (k : Kernel) → DescriptorsFit k → IsAccounted document_maker n k
document-IsAccounted n k fit = record {
  created = λ w handled. create_fs_ruleset-Created n k w handled fit;
  ruled = λ w fd l. add_path_rules-Balanced n k (items_of l.rules) w fd;
}

-- The descriptor `n` among those that a compilation of the network hands over.
abbrev pub handed : ℕ → Option ℤ → ℕ
handed n none = 0
handed n (some (pos fd)) = if fd == n then 1 else 0
handed n (some (negsuc m)) = 0

abbrev pub NetOwned : ℕ → World → Outcome (Option ℤ) → Type 0
NetOwned n w (done fd v) =
    opened n v.trace + closed n w.trace ≡ closed n v.trace + opened n w.trace + handed n fd
NetOwned n w (failed v) = Balanced n w v

rules_added :
    (n fd : ℕ) (w v : World) (o : Outcome (Unit {0})) (k : Kernel)
    → opened n v.trace + closed n w.trace
      ≡ closed n v.trace + opened n w.trace + (if fd == n then 1 else 0)
    → Balanced n v (final o)
    → NetOwned n w ((attempt (λ _ _. o) >>= net_compiled (pos fd)) k v)
rules_added n fd w v (done u x) k h b = omega arith
rules_added n fd w v (failed x) k h b = ground arith

ruleset_created :
    (n : ℕ) (rules : List NetRule) (w : World) (o : Outcome (ℤ × ℕ)) (k : Kernel)
    → Created n w o
    → NetOwned n w (((λ _ _. o) >>= net_created rules) k w)
ruleset_created n rules w (done (pos fd, granted) v) k h =
    rules_added n fd w v (add_port_rules (pos fd) rules k v) k h
      (add_port_rules-Balanced n k rules v (pos fd))
ruleset_created n rules w (done (negsuc m, granted) v) k h = absurd h
ruleset_created n rules w (failed v) k h = h

net_owned :
    (n : ℕ) (ir : Document) (k : Kernel) (w : World)
    → DescriptorsFit k
    → NetOwned n w (exec_compile_net ir k w)
unfolding exec_compile_net
net_owned n ir k w fit = elim (Bool-cases ir.net_enabled) [
  | inl on ↦
      rw (on, if◌then◌else◌)
        (ruleset_created n (items_of ir.net_rules) w (create_net_ruleset ir.net_handled_access k w)
          k (create_net_ruleset-Created n k w ir.net_handled_access fit))
  | inr off ↦ rw (off, if◌then◌else◌) (omega arith)
]

-- The compilation of any policy document, whatever a kernel answers whose descriptors fit an `int`:
-- each descriptor that `landlockd_exec_compile_fs` opens, counted for any number `n`, is closed again
-- or among the rulesets that it leaves, of which there are none unless it succeeds; and each that
-- `landlockd_exec_compile_net` opens is closed again or the ruleset that it returns.
pub exec_compile-Owned :
    (n : ℕ) (ir : Document) (k : Kernel) (w : World)
    → DescriptorsFit k
    → Owned n w (exec_compile_fs ir k w) × NetOwned n w (exec_compile_net ir k w)
unfolding exec_compile_fs
exec_compile-Owned n ir k w fit = (
  compile-Owned n k document_maker (document-IsAccounted n k fit) (pure tt) (items_of ir.fs_layers)
      w (inl refl),
  net_owned n ir k w fit,
)
