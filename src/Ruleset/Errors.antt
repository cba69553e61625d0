-- ===== src/Ruleset/Errors.antt =====
-- `errno` across the wrappers of src/landlock.c.
use landlock.Sys.Errno.{ebadf, einval}
use landlock.Base.{
  ℕ, ℤ, ◌≡◌, ◌∷◌, is_neg, ◌||◌, ◌==◌, if◌then◌else◌, arith, Option, none, some, Bool,
}
use landlock.Sys.{World, Outcome, done, failed}
use landlock.Sys.Types.{
  Kernel, Call, ret, fails, RulesetAttr, PathBeneath, NetPort, RuleAttr, path_beneath, net_port,
}
use landlock.Ruleset.{
  Headers, create_ruleset_for_abi, create_ruleset, add_rule, add_fs_rule, add_net_rule,
  restrict_self, probe_abi,
}

-- A success leaves `errno` as the caller had it.
abbrev pub ErrnoKept {ℓ} : {A : Type ℓ} → World → Outcome A → Type 0
ErrnoKept w (done a v) = v.errno ≡ w.errno
ErrnoKept w (failed v) = Unit

module _ (k : Kernel) (w : World) where
  pub probe_abi-ErrnoKept : (out : Bool) → ErrnoKept w (probe_abi out k w)
  unfolding probe_abi
  probe_abi-ErrnoKept out = ground arith

  pub create_ruleset-ErrnoKept :
      (attr : Option RulesetAttr) (size flags : ℕ)
      → ErrnoKept w (create_ruleset attr size flags k w)
  unfolding create_ruleset
  create_ruleset-ErrnoKept attr size flags = ground arith

  create_ruleset_for_abi-ErrnoKept :
      (h : Headers) (abi : ℤ) (attr : Option RulesetAttr) (flags : ℕ)
      → ErrnoKept w (create_ruleset_for_abi h abi attr flags k w)
  unfolding create_ruleset_for_abi
  create_ruleset_for_abi-ErrnoKept h abi attr flags = ground arith

  pub add_rule-ErrnoKept :
      (fd : ℤ) (rule_type : ℕ) (attr : Option RuleAttr) (flags : ℕ)
      → ErrnoKept w (add_rule fd rule_type attr flags k w)
  unfolding add_rule
  add_rule-ErrnoKept fd rule_type attr flags = ground arith

  add_fs_rule-ErrnoKept :
      (fd : ℤ) (attr : Option PathBeneath) (flags : ℕ) → ErrnoKept w (add_fs_rule fd attr flags k w)
  unfolding add_fs_rule
  add_fs_rule-ErrnoKept fd attr flags = ground arith

  add_net_rule-ErrnoKept :
      (fd : ℤ) (attr : Option NetPort) (flags : ℕ) → ErrnoKept w (add_net_rule fd attr flags k w)
  unfolding add_net_rule
  add_net_rule-ErrnoKept fd attr flags = ground arith

  pub restrict_self-ErrnoKept : (fd : ℤ) (flags : ℕ) → ErrnoKept w (restrict_self fd flags k w)
  unfolding restrict_self
  restrict_self-ErrnoKept fd flags = ground arith

  -- When a wrapper of a Landlock system call succeeds, `errno` has the value that it had before the
  -- call, whatever the system call left in it.
  pub wrappers-ErrnoKept :
      (h : Headers) (abi fd : ℤ) (attr : Option RulesetAttr) (rule : Option RuleAttr)
      (path : Option PathBeneath) (port : Option NetPort) (size rule_type flags : ℕ) (out : Bool)
      → ErrnoKept w (probe_abi out k w)
        × ErrnoKept w (create_ruleset attr size flags k w)
        × ErrnoKept w (create_ruleset_for_abi h abi attr flags k w)
        × ErrnoKept w (add_rule fd rule_type rule flags k w)
        × ErrnoKept w (add_fs_rule fd path flags k w)
        × ErrnoKept w (add_net_rule fd port flags k w)
        × ErrnoKept w (restrict_self fd flags k w)
  wrappers-ErrnoKept h abi fd attr rule path port size rule_type flags out = (
    probe_abi-ErrnoKept out,
    create_ruleset-ErrnoKept attr size flags,
    create_ruleset_for_abi-ErrnoKept h abi attr flags,
    add_rule-ErrnoKept fd rule_type rule flags,
    add_fs_rule-ErrnoKept fd path flags,
    add_net_rule-ErrnoKept fd port flags,
    restrict_self-ErrnoKept fd flags,
  )

-- What one checked call comes to: a refusal sets `errno` and calls nothing; otherwise the call is
-- made once, a failure hands on the kernel's `errno`, and a success restores the caller's.
abbrev pub checked : Option ℕ → Call → Kernel → World → Outcome (Unit {0})
checked (some e) c k w = failed (record w { errno = e })
checked none c k w = elim (k w.trace c) [
  | ret v e ↦ done tt (record w { trace = (c, ret v e) ∷ w.trace })
  | fails e ↦ failed (record w { errno = e; trace = (c, fails e) ∷ w.trace })
]

-- The `errno` of a path rule that is refused before the system call, if it is.
abbrev pub path_refusal : ℤ → PathBeneath → Option ℕ
path_refusal fd a =
    if is_neg fd || is_neg a.parent_fd
    then some ebadf
    else if a.allowed_access == 0
    then some einval
    else none

-- `landlock_add_fs_rule` of a rule is one checked call: a negative ruleset or parent descriptor is
-- `EBADF`, no access right is `EINVAL`, and any other rule goes to the kernel unchanged.
add_fs_rule-checked :
    (fd : ℤ) (a : PathBeneath) (flags : ℕ) (k : Kernel) (w : World)
    → add_fs_rule fd (some a) flags k w
      ≡ checked (path_refusal fd a) (Call.add_rule fd 1 (path_beneath a) flags) k w
unfolding add_fs_rule
add_fs_rule-checked fd a flags k w = ground arith

abbrev pub port_refusal : ℤ → NetPort → Option ℕ
port_refusal fd a =
    if is_neg fd then some ebadf else if a.allowed_access == 0 then some einval else none

-- `landlock_add_net_rule` of a rule is one checked call: a negative ruleset descriptor is `EBADF`, no
-- access right is `EINVAL`, and any other rule goes to the kernel unchanged.
add_net_rule-checked :
    (fd : ℤ) (a : NetPort) (flags : ℕ) (k : Kernel) (w : World)
    → add_net_rule fd (some a) flags k w
      ≡ checked (port_refusal fd a) (Call.add_rule fd 2 (net_port a) flags) k w
unfolding add_net_rule
add_net_rule-checked fd a flags k w = ground arith
