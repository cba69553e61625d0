-- ===== src/Cli/Lists/Collected.antt =====
-- What the lists of an accepted command line hold.
use landlock.Base.{◌<◌, ◌≡◌, true, false}
use landlock.Base.{some, List, length}
use landlock.Sys.{Outcome, done, failed}
use landlock.Sys.Types.{CString}
use landlock.Memory.Account.{array_of}
use landlock.Cli.Options.{Options, Parsed}
use landlock.Cli.Lists.Passes.{paths_of, numbers_of}

-- The arrays of the options are exactly the values of the arguments, with no slot beside them, at least one
-- path among them; without numbers there is no array for them.
pub record Holds (args : List CString) (o : Options) : Type 0 where
  pub paths : o.ro_paths ≡ some (paths_of args)
  pub path_count : o.ro_path_count ≡ length (paths_of args)
  pub some_path : 0 < o.ro_path_count
  pub numbers : o.notify_syscalls ≡ array_of (numbers_of args)
  pub number_count : o.notify_count ≡ length (numbers_of args)

-- What is accepted has the property; what is not is reported as refused.
abbrev pub Accepts : (Options → Type 0) → Outcome Parsed → Type 0
Accepts P (done p w) = elim p.succeeded [ true ↦ P p.options | false ↦ Unit ]
Accepts P (failed w) = ⊥
