-- ===== src/Tests/Cli.antt =====
-- Command lines.
use landlock.Base.{ℕ, ◌≡◌, refl, arith, List, [], ◌∷◌, codes, length, some, true}
use landlock.Sys.{Outcome, fresh, final, done}
use landlock.Sys.Types.{CString}
use landlock.Cli.Options.{Options, no_options, run}
use landlock.Cli.Numbers.{parse_syscall_nr}
use landlock.Cli.Numbers.Decimal.{text, parse_syscall_nr-text}
use landlock.Cli.Verbs.{parse_policy_verb}
use landlock.Cli.Verbs.Runnable.{Judged, Runnable, CommandFits, parse_policy_verb-Runnable}
use landlock.Cli.Lists.{parse_lists, fill_arrays, count_options}
use landlock.Cli.Parse.{cli_parse, basename, build_seccomp_plan}
use landlock.Cli.Parse.Planned.{build_seccomp_plan-entries}
use landlock.Seccomp.Plan.{Plan, empty, entries}
use landlock.Tests.Kernels.{granting}

parse_syscall_nr-text_example :
    parse_syscall_nr (text (0 ∷ 3 ∷ 9 ∷ [])) granting fresh ≡ done 39 (record fresh { errno = 0 })
parse_syscall_nr-text_example = parse_syscall_nr-text 0 (3 ∷ 9 ∷ []) granting fresh (omega arith)

-- landlockd run --policy web -- /bin/sh
abbrev command_line : List CString
command_line =
    codes "landlockd"
    ∷ codes "run"
    ∷ codes "--policy"
    ∷ codes "web"
    ∷ codes "--"
    ∷ codes "/bin/sh"
    ∷ []

abbrev after_run : List CString
after_run = codes "--policy" ∷ codes "web" ∷ codes "--" ∷ codes "/bin/sh" ∷ []

parse_policy_verb-Runnable_example :
    Judged
      (λ o. Runnable o × CommandFits run o)
      (parse_policy_verb command_line no_options run after_run granting fresh)
parse_policy_verb-Runnable_example =
    parse_policy_verb-Runnable command_line after_run no_options run granting fresh (refl, refl)

-- landlockd --ro /usr --notify 39 --ro /etc -- /bin/sh
abbrev list_arguments : List CString
list_arguments =
    codes "--ro"
    ∷ codes "/usr"
    ∷ codes "--notify"
    ∷ codes "39"
    ∷ codes "--ro"
    ∷ codes "/etc"
    ∷ codes "--"
    ∷ codes "/bin/sh"
    ∷ []

-- The whole command line is accepted, with its two paths and its one number.
lists_parsed :
    Outcome.done
      (record {
        succeeded = true;
        options = record no_options {
          argv = some (codes "landlockd" ∷ list_arguments);
          ro_path_count = 2;
          ro_paths = some (some (codes "/usr") ∷ some (codes "/etc") ∷ []);
          notify_count = 1;
          notify_syscalls = some (39 ∷ []);
          command_argv = some (codes "/bin/sh" ∷ []);
        };
      })
      (final
        (cli_parse (some (codes "landlockd" ∷ list_arguments)) (some no_options) granting fresh))
    ≡ cli_parse (some (codes "landlockd" ∷ list_arguments)) (some no_options) granting fresh
unfolding cli_parse parse_lists fill_arrays count_options parse_syscall_nr basename
lists_parsed = refl

abbrev notifying : List ℕ → Options
notifying nrs = record no_options { notify_count = length nrs; notify_syscalls = some nrs }

build_seccomp_plan-entries_example :
    (plan : Plan) × (build_seccomp_plan
        (some (notifying (39 ∷ 165 ∷ [])))
        (some empty)
        granting
        fresh
      ≡ done plan fresh)
    × (entries plan ≡ 39 ∷ 165 ∷ [])
build_seccomp_plan-entries_example =
    build_seccomp_plan-entries (notifying (39 ∷ 165 ∷ [])) empty granting fresh (omega arith)
