-- ===== src/Compiler.antt =====
-- src/policy_compiler.c: an intermediate policy becomes Landlock rulesets and a seccomp plan.
pub mod Slots
pub mod Calls
pub mod Leaks
pub mod NoLeak
pub mod Exceptions
use landlock.Base.{ℕ, ℤ, pos, negsuc, suc, Bool, true, false, ◌==◌, is_neg, if◌then◌else◌}
use landlock.Base.{Option, none, some, List, [], ◌∷◌, length, replicate, set}
use landlock.Sys.{M, pure, fail, fail_with, get_errno, set_errno, attempt, call, ◌>>=◌, ◌>>◌}
use landlock.Sys.Types.{Call, CString, PathBeneath, NetPort}
use landlock.Sys.Errno.{einval}
use landlock.Ruleset.{add_fs_rule, add_net_rule}
use landlock.Ruleset.Access.{create_fs_ruleset, create_net_ruleset}
use landlock.Ir.{
  Kind, fs, net, exception, other, FsRule, NetRule, ExceptionRule, Layer, Policy, items,
  policy_validate,
}
use landlock.Seccomp.Plan.{Plan, empty, plan_init, plan_add}

-- `struct landlockd_compiled_rulesets`: `count` descriptors behind a pointer.
pub record Rulesets : Type 0 where
  pub count : ℕ
  pub ruleset_fds : Option (List ℤ)

-- What a compilation leaves in `*out`, and whether it returned 0.
pub record Compiled : Type 0 where
  pub succeeded : Bool
  pub out : Rulesets

abbrev pub no_rulesets : Rulesets
no_rulesets = record { count = 0; ruleset_fds = none }

-- The layers that a validated policy holds; a NULL among them was refused before.
abbrev pub non_null {ℓ} : {A : Type ℓ} → List (Option A) → List A
non_null [] = []
non_null (none ∷ ls) = non_null ls
non_null (some l ∷ ls) = l ∷ non_null ls

abbrev pub layers_of : Policy → List Layer
layers_of p = non_null (items p.layer_count p.layers)

abbrev pub same_kind : Kind → Kind → Bool
same_kind fs fs = true
same_kind net net = true
same_kind exception exception = true
same_kind other other = true
same_kind _ _ = false

abbrev pub count_wanted : {L : Type 0} → (L → Bool) → List L → ℕ
count_wanted wanted [] = 0
count_wanted wanted (l ∷ ls) =
    let rest = count_wanted wanted ls in if wanted l then suc rest else rest

-- `landlockd_count_layers`
abbrev pub count_layers : Kind → List Layer → ℕ
count_layers kind ls = count_wanted (λ l. same_kind l.kind kind) ls

-- The loop of `landlockd_compiled_rulesets_cleanup`; what `close` returns is ignored.
unfoldable pub close_all : List ℤ → M (Unit {0})
close_all [] = pure tt
close_all (negsuc n ∷ fds) = close_all fds
close_all (pos fd ∷ fds) = do closed ← attempt (call (Call.close (pos fd))); close_all fds

abbrev pub release : Option (List ℤ) → M (Unit {0})
release none = pure tt
release (some fds) = do close_all fds; freed ← attempt (call Call.free); pure tt

-- `landlockd_compiled_rulesets_cleanup`
unfoldable pub compiled_rulesets_cleanup : Rulesets → M Rulesets
unfolding close_all
compiled_rulesets_cleanup r = do
  saved_errno ← get_errno
  release r.ruleset_fds
  set_errno saved_errno
  pure no_rulesets

-- The loop over the rules of a file system layer: each path is opened, added to the ruleset `fd` and
-- closed again, whether the kernel took the rule or not.
abbrev pub rule_added : ℤ → Option (Unit {0}) → M (Unit {0})
rule_added parent_fd (some added) = do closed ← attempt (call (Call.close parent_fd)); pure tt
rule_added parent_fd none = do
  saved_errno ← get_errno
  closed ← attempt (call (Call.close parent_fd))
  set_errno saved_errno
  fail

unfoldable pub add_path_rule : ℤ → Option CString → ℕ → M (Unit {0})
add_path_rule fd path allowed_access = do
  parent_fd ← call (Call.open_path path)
  added ← attempt (
      add_fs_rule fd (some (record { allowed_access = allowed_access; parent_fd = pos parent_fd }))
        0)
  rule_added (pos parent_fd) added

unfoldable pub add_path_rules : ℤ → List FsRule → M (Unit {0})
add_path_rules fd [] = pure tt
add_path_rules fd (r ∷ rs) = add_path_rule fd r.path r.allowed_access >> add_path_rules fd rs

-- The loop over the rules of a network layer.
unfoldable pub add_port_rules : ℤ → List NetRule → M (Unit {0})
add_port_rules fd [] = pure tt
add_port_rules fd (r ∷ rs) = do
  add_net_rule fd (some (record { allowed_access = r.allowed_access; port = r.port })) 0
  add_port_rules fd rs

-- What the loop over the layers leaves in `fds`, and whether it ran to its end.
pub record Filled : Type 0 where
  pub whole : Bool
  pub fds : List ℤ

-- How layers become rulesets: which ones, with which rights, and by which calls. The functions differ
-- in this and in their validation alone.
pub record Maker (L : Type 0) : Type 0 where
  pub wanted : L → Bool
  pub handled : L → ℕ
  pub create : ℕ → M (ℤ × ℕ)
  pub add_rules : ℤ → L → M (Unit {0})

abbrev pub fs_maker : Maker Layer
fs_maker = record {
  wanted = λ l. same_kind l.kind fs;
  handled = λ l. l.handled_access;
  create = create_fs_ruleset;
  add_rules = λ fd l. add_path_rules fd (items l.rule_count l.fs_rules);
}

abbrev pub net_maker : Maker Layer
net_maker = record {
  wanted = λ l. same_kind l.kind net;
  handled = λ l. l.handled_access;
  create = create_net_ruleset;
  add_rules = λ fd l. add_port_rules fd (items l.rule_count l.net_rules);
}

-- The end of the function: all that was created is handed over, or closed.
abbrev pub finish : Filled → M Compiled
finish f =
    if f.whole
    then pure (record {
      succeeded = true;
      out = record { count = length f.fds; ruleset_fds = some f.fds };
    })
    else (do
      saved_errno ← get_errno
      out ← compiled_rulesets_cleanup (record { count = length f.fds; ruleset_fds = some f.fds })
      set_errno saved_errno
      pure (record { succeeded = false; out = out }))

module _ {L : Type 0} (m : Maker L) where
  -- The rules of the layer are in, or not; then the rest of the layers.
  abbrev pub after_rules : (List ℤ → M Filled) → List ℤ → Option (Unit {0}) → M Filled
  after_rules rest fds none = pure (record { whole = false; fds = fds })
  after_rules rest fds (some added) = rest fds

  abbrev pub after_create : (List ℤ → M Filled) → L → ℕ → List ℤ → Option (ℤ × ℕ) → M Filled
  after_create rest l next fds none = pure (record { whole = false; fds = fds })
  after_create rest l next fds (some (fd, granted)) =
      attempt (m.add_rules fd l) >>= after_rules rest (set fds next fd)

  -- The loop over the layers: `next` is the first free slot of `fds`.
  unfoldable pub fill : List L → ℕ → List ℤ → M Filled
  fill [] next fds = pure (record { whole = true; fds = fds })
  fill (l ∷ ls) next fds =
      let rest = fill ls next fds in
      let own =
        attempt (m.create (m.handled l))
        >>= after_create (λ fds'. fill ls (suc next) fds') l next fds in
      if m.wanted l then own else rest

  abbrev pub allocated : List L → ℕ → Option ℕ → M Compiled
  allocated ls count none = pure (record { succeeded = false; out = no_rulesets })
  allocated ls count (some block) = fill ls 0 (replicate count (negsuc 0)) >>= finish

  -- What follows the validation.
  abbrev pub compile_layers : List L → M Compiled
  compile_layers ls =
      let count = count_wanted m.wanted ls in
      if count == 0
      then pure (record { succeeded = true; out = no_rulesets })
      else attempt (call (Call.allocate count)) >>= allocated ls count

  abbrev pub after_validation : List L → Option (Unit {0}) → M Compiled
  after_validation ls none = pure (record { succeeded = false; out = no_rulesets })
  after_validation ls (some valid) = compile_layers ls

  unfoldable pub compile : M (Unit {0}) → List L → M Compiled
  compile validate ls = attempt validate >>= after_validation ls

-- The test of the arguments: `none` is NULL, and `out` shows what is there before.
abbrev pub checked : {P : Type 0} → (P → M Compiled) → Option P → Option Rulesets → M Compiled
checked run none none = set_errno einval >> pure (record { succeeded = false; out = no_rulesets })
checked run none (some out) = set_errno einval >> pure (record { succeeded = false; out = out })
checked run (some p) none =
    set_errno einval >> pure (record { succeeded = false; out = no_rulesets })
checked run (some p) (some out) = run p

-- `landlockd_policy_compile_fs`
unfoldable pub policy_compile_fs : Option Policy → Option Rulesets → M Compiled
policy_compile_fs = checked (λ p. compile fs_maker (policy_validate (some p)) (layers_of p))

-- `landlockd_policy_compile_net`
unfoldable pub policy_compile_net : Option Policy → Option Rulesets → M Compiled
policy_compile_net = checked (λ p. compile net_maker (policy_validate (some p)) (layers_of p))
