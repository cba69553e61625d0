-- ===== src/Cli/Verbs.antt =====
-- src/cli_parse.c, `cli_parse_policy_verb`: the options of `run` and `lint`.
pub mod Runnable
use landlock.Base.{ℕ, Bool, true, false, not, ◌&&◌, ◌||◌, if◌then◌else◌}
use landlock.Base.{Option, none, some, List, [], ◌∷◌, codes, str_eq}
use landlock.Sys.{M}
use landlock.Sys.Types.{CString}
use landlock.Cli.Options.{
  Options, Verb, no_verb, run, lint, serve, stop, status, Parsed, accept, reject,
}

abbrev pub given : Option CString → Bool
given none = false
given (some s) = true

-- The chain of tests for the name of an option, of their results; `none` is a refusal.
abbrev pub chosen : Bool → Bool → Bool → CString → Options → Option Options
chosen policy policy_file socket value o =
    if policy
    then (if given o.policy_name || given o.policy_file
        then none
        else some (record o { policy_name = some value }))
    else if policy_file
    then (if given o.policy_name || given o.policy_file
        then none
        else some (record o { policy_file = some value }))
    else if socket
    then (if given o.socket_path then none else some (record o { socket_path = some value }))
    else none

-- One option with its value.
unfoldable pub set_option : CString → CString → Options → Option Options
set_option name value o =
    chosen (str_eq name (codes "--policy")) (str_eq name (codes "--policy-file"))
      (str_eq name (codes "--socket")) value o

-- The rest of the arguments for a verb with a command.
abbrev pub with_command : List CString → Options → List CString → M Parsed
with_command argv o [] =
    if not o.preflight_only && not o.dry_run
    then reject o
    else accept (record o { argv = some argv })
with_command argv o (dashes ∷ []) = reject o
with_command argv o (dashes ∷ c ∷ cs) =
    accept (record o { argv = some argv; command_argv = some (c ∷ cs) })

-- What follows the loop, at the index where it ended.
unfoldable pub policy_verb_end : List CString → Verb → Options → List CString → M Parsed
policy_verb_end argv verb o rest =
    if o.preflight_only && o.dry_run
    then reject o
    else if not (given o.policy_name) && not (given o.policy_file)
    then reject o
    else elim verb [
      | lint ↦ elim rest [ [] ↦ accept (record o { argv = some argv }) | a ∷ more ↦ reject o ]
      | _ ↦ with_command argv o rest
    ]

-- The rest of a turn of the loop after the two flags: an option with its value.
abbrev pub with_value : (Options → M Parsed) → CString → CString → Options → M Parsed
with_value next name value o =
    if str_eq value (codes "--")
    then reject o
    else elim (set_option name value o) [ none ↦ reject o | some o' ↦ next o' ]

-- The loop.
unfoldable pub policy_verb_loop :
    (Options → List CString → M Parsed) → List CString → Options → M Parsed
policy_verb_loop after [] o = after o []
policy_verb_loop after (a ∷ []) o =
    if str_eq a (codes "--")
    then after o (a ∷ [])
    else if str_eq a (codes "--preflight")
    then after (record o { preflight_only = true }) []
    else if str_eq a (codes "--dry-run")
    then after (record o { dry_run = true }) []
    else reject o
policy_verb_loop after (a ∷ b ∷ more) o =
    let one = policy_verb_loop after (b ∷ more) in
    let two = policy_verb_loop after more in
    if str_eq a (codes "--")
    then after o (a ∷ b ∷ more)
    else if str_eq a (codes "--preflight")
    then one (record o { preflight_only = true })
    else if str_eq a (codes "--dry-run")
    then one (record o { dry_run = true })
    else with_value two a b o

-- `cli_parse_policy_verb`, of the arguments from index `argi` on.
unfoldable pub parse_policy_verb : List CString → Options → Verb → List CString → M Parsed
parse_policy_verb argv o verb args =
    policy_verb_loop (policy_verb_end argv verb) args (record o { verb = verb })
