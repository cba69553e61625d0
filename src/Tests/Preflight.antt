-- ===== src/Tests/Preflight.antt =====
-- What a kernel with Landlock and one without report.
use landlock.Base.{pos, arith, some}
use landlock.Sys.{fresh}
use landlock.Ruleset.{abi_version}
use landlock.Preflight.{blank, preflight_run}
use landlock.Preflight.Reported.{Agrees, preflight_run-abi_version}
use landlock.Tests.Kernels.{granting}

preflight_run-abi_version_example :
    Agrees 3 fresh
      (abi_version granting fresh)
      (preflight_run (pos 3) (some (blank 0)) granting fresh)
preflight_run-abi_version_example =
    preflight_run-abi_version 3 (blank 0) granting fresh (omega arith)
