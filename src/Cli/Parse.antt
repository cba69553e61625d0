-- ===== src/Cli/Parse.antt =====
-- src/cli_parse.c, `landlockd_cli_parse` and `landlockd_cli_build_seccomp_plan`.
pub mod Planned
use landlock.Base.{ℕ, pos, Bool, true, false, ◌&&◌, ◌==◌, leb, if◌then◌else◌}
use landlock.Base.{Option, none, some, List, [], ◌∷◌, length, drop, take, codes, str_eq}
use landlock.Sys.{M, pure, fail_with, ◌>>=◌}
use landlock.Sys.Types.{CString}
use landlock.Sys.Errno.{einval}
use landlock.Cli.Options.{Options, Parsed, no_options, accept, run, lint, serve, stop, status}
use landlock.Cli.Verbs.{parse_policy_verb}
use landlock.Cli.Lists.{parse_lists}
use landlock.Seccomp.Plan.{Plan, plan_init, plan_add}

-- `cli_basename`, of a pointer that is not NULL: what follows the last slash. The first argument is
-- the rest after the last slash so far.
after_slash : CString → CString → CString
after_slash best [] = best
after_slash best (c ∷ cs) =
    let here = after_slash cs cs in
    let there = after_slash best cs in if c == 47 then here else there

unfoldable pub basename : CString → CString
unfolding after_slash
basename path = after_slash path path

-- `strcmp(argv[i], s) == 0`, where the guard says that `argc` is more than `i`
abbrev argument_is : ℕ → CString → List CString → Bool
argument_is i s argv = elim (drop i argv) [ [] ↦ false | a ∷ more ↦ str_eq a s ]

abbrev argument : ℕ → List CString → Option CString
argument i argv = elim (drop i argv) [ [] ↦ none | a ∷ more ↦ some a ]

abbrev basename_is : CString → List CString → Bool
basename_is s [] = false
basename_is s (a ∷ more) = str_eq (basename a) s

-- `serve`, `stop` and `status`; anything else is read as lists.
parse_socket_verb : List CString → M Parsed
parse_socket_verb argv =
    let argc = length argv in
    let socket = record no_options { socket_path = argument 3 argv; argv = some argv } in
    if argc == 4 && argument_is 1 (codes "serve") argv && argument_is 2 (codes "--socket") argv
    then accept (record socket { verb = serve })
    else if argc == 3
        && argument_is 1 (codes "serve") argv
        && argument_is 2 (codes "--systemd") argv
    then accept
        (record no_options { verb = serve; use_systemd_socket_activation = true; argv = some argv })
    else if argc == 4 && argument_is 1 (codes "stop") argv && argument_is 2 (codes "--socket") argv
    then accept (record socket { verb = stop })
    else if argc == 4
        && argument_is 1 (codes "status") argv
        && argument_is 2 (codes "--socket") argv
    then accept (record socket { verb = status })
    else parse_lists argv (drop 1 argv) no_options

parse_verb : List CString → M Parsed
unfolding parse_socket_verb
parse_verb argv =
    let policy_program = basename_is (codes "landlockd-policy") argv && leb 2 (length argv) in
    if basename_is (codes "landlockd-run") argv
    then parse_policy_verb argv no_options run (drop 1 argv)
    else if policy_program && argument_is 1 (codes "lint") argv
    then parse_policy_verb argv no_options lint (drop 2 argv)
    else if policy_program && argument_is 1 (codes "dry-run") argv
    then parse_policy_verb argv (record no_options { dry_run = true }) run (drop 2 argv)
    else if argument_is 1 (codes "run") argv
    then parse_policy_verb argv no_options run (drop 2 argv)
    else if argument_is 1 (codes "lint") argv
    then parse_policy_verb argv no_options lint (drop 2 argv)
    else parse_socket_verb argv

-- `landlockd_cli_parse`, with `none` for NULL.
unfoldable pub cli_parse : Option (List CString) → Option Options → M Parsed
unfolding parse_verb
cli_parse none options = fail_with einval
cli_parse (some argv) none = fail_with einval
cli_parse (some argv) (some before) =
    if length argv == 2 && argument_is 1 (codes "--help") argv
    then accept (record no_options { show_help = true })
    else parse_verb argv

-- The loop of `landlockd_cli_build_seccomp_plan`.
unfoldable pub add_numbers : List ℕ → Plan → M Plan
add_numbers [] plan = pure plan
add_numbers (nr ∷ nrs) plan = plan_add (some plan) (pos nr) >>= add_numbers nrs

-- The numbers that the loop reads.
abbrev pub planned_numbers : Options → List ℕ
planned_numbers o = elim o.notify_syscalls [ none ↦ [] | some nrs ↦ take o.notify_count nrs ]

-- `landlockd_cli_build_seccomp_plan`
unfoldable pub build_seccomp_plan : Option Options → Option Plan → M Plan
build_seccomp_plan none plan = fail_with einval
build_seccomp_plan (some o) none = fail_with einval
build_seccomp_plan (some o) (some plan) = plan_init (some plan) >>= add_numbers (planned_numbers o)
