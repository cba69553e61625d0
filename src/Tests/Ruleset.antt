-- ===== src/Tests/Ruleset.antt =====
-- Rulesets on kernels with and without Landlock.
use landlock.Base.{
  ℕ, ℤ, pos, negsuc, ◌≡◌, ◌≤◌, refl, arith, List, [], ◌∷◌, Bool, true, Option, none, some,
}
use landlock.Base.{if◌then◌else◌}
use landlock.Base.Bits.{bit}
use landlock.Sys.{World, fresh, failed, newest}
use landlock.Sys.Types.{Call, ret, fails, RulesetAttr}
use landlock.Sys.Errno.{enosys}
use landlock.Ruleset.{
  abi_version, Headers, probe_abi, create_ruleset, create_ruleset_for_abi, add_rule, add_fs_rule,
  add_net_rule, restrict_self,
}
use landlock.Ruleset.Errors.{ErrnoKept, wrappers-ErrnoKept}
use landlock.Ruleset.Warning.{warnings, restrict_all, restrict_all_warns_once}
use landlock.Ruleset.Access.{create_fs_ruleset, create_net_ruleset, fs_attr, net_attr}
use landlock.Ruleset.Access.Masks.{knows_fs}
use landlock.Ruleset.Access.Grants.{create_fs_ruleset_grants, create_rulesets_unsupported}
use landlock.Tests.Kernels.{granting, refusing}

abbrev headers : Headers
headers = record { has_handled_access_net = true; has_scoped = true }

abbrev no_error : ℕ
no_error = 0

-- The world after the version was asked and a ruleset was created.
abbrev created : RulesetAttr → ℕ → World
created attr size = record {
  errno = no_error;
  e2big_warned = Bool.false;
  trace =
      (Call.create_ruleset (some attr) size 0, ret 5 7)
      ∷ (Call.create_ruleset none 0 1, ret 4 7)
      ∷ [];
}

create_fs_ruleset_grants_example :
    ((i : ℕ) → bit i 0x7fff ≡ (if knows_fs (pos 4) i then bit i 0xffff else 0))
    × (newest (created (fs_attr 0x7fff) 8) ≡ some (Call.create_ruleset (some (fs_attr 0x7fff)) 8 0))
    × (no_error ≡ no_error)
unfolding create_fs_ruleset landlock.Base.int_of_long abi_version
    landlock.Ruleset.Access.fs_access_mask_for_abi create_ruleset
create_fs_ruleset_grants_example =
    create_fs_ruleset_grants 0xffff granting fresh {abi = 3} {v = 4} {e = 7} refl {granted = 0x7fff}
      {fd = pos 5} {w' = created (fs_attr 0x7fff) 8} refl refl

abbrev no_landlock : World
no_landlock = record {
  errno = enosys;
  e2big_warned = Bool.false;
  trace = (Call.create_ruleset none 0 1, fails enosys) ∷ [];
}

create_rulesets_unsupported_example :
    (create_fs_ruleset 1 refusing fresh ≡ failed no_landlock)
    × (create_net_ruleset 1 refusing fresh ≡ failed no_landlock)
create_rulesets_unsupported_example = create_rulesets_unsupported 1 refusing fresh {e = enosys} refl

wrappers-ErrnoKept_example :
    ErrnoKept fresh (probe_abi true granting fresh)
    × ErrnoKept fresh (create_ruleset (some (fs_attr 1)) 8 0 granting fresh)
    × ErrnoKept fresh (create_ruleset_for_abi headers (pos 4) (some (fs_attr 1)) 0 granting fresh)
    × ErrnoKept fresh (add_rule (pos 3) 2 none 0 granting fresh)
    × ErrnoKept fresh (
        add_fs_rule
          (pos 3)
          (some (record { allowed_access = 1; parent_fd = pos 4 }))
          0
          granting
          fresh)
    × ErrnoKept fresh
        (add_net_rule (pos 3) (some (record { allowed_access = 1; port = 80 })) 0 granting fresh)
    × ErrnoKept fresh (restrict_self (pos 3) 0 granting fresh)
wrappers-ErrnoKept_example =
    wrappers-ErrnoKept granting fresh headers (pos 4) (pos 3) (some (fs_attr 1)) none
      (some (record { allowed_access = 1; parent_fd = pos 4 }))
      (some (record { allowed_access = 1; port = 80 })) 8 2 0 true

restrict_all_warns_once_example :
    warnings (restrict_all ((pos 3, 0) ∷ (pos 4, 0) ∷ []) (λ t c. fails 7) fresh).trace ≤ 1
restrict_all_warns_once_example =
    restrict_all_warns_once ((pos 3, 0) ∷ (pos 4, 0) ∷ []) (λ t c. fails 7)
