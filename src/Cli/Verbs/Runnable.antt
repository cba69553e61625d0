-- ===== src/Cli/Verbs/Runnable.antt =====
-- What a successful `run` or `lint` command line says.
use landlock.Base.{◌≡◌, inl, inr, refl, arith, Bool, true, false, not, ◌&&◌, ◌||◌, if◌then◌else◌}
use landlock.Base.{Option-cases, Option, none, some, List, [], ◌∷◌, codes, str_eq}
use landlock.Sys.{World, Outcome, M, done, failed}
use landlock.Sys.Types.{CString, Kernel}
use landlock.Sys.Errno.{einval}
use landlock.Cli.Options.{Options, Verb, no_verb, run, lint, serve, status, stop, Parsed, reject}
use landlock.Cli.Verbs.{
  with_command, given, chosen, set_option, with_value, policy_verb_end, policy_verb_loop,
  parse_policy_verb,
}

-- At most one source of a policy.
abbrev pub AtMostOne : Options → Type 0
AtMostOne o = (given o.policy_name && given o.policy_file) ≡ false

-- Options of which the command is not read yet.
abbrev pub IsStarted : Options → Type 0
IsStarted o = AtMostOne o × (o.command_argv ≡ none)

-- The options that the rest of the program may rely on.
abbrev pub Runnable : Options → Type 0
Runnable o =
    AtMostOne o
    × ((given o.policy_name || given o.policy_file) ≡ true)
    × ((o.preflight_only && o.dry_run) ≡ false)

-- A result is a refusal with `EINVAL`, or the options are more promised.
abbrev pub Judged : (Options → Type 0) → Outcome Parsed → Type 0
Judged P (done p w) = elim p.succeeded [ true ↦ P p.options | false ↦ w.errno ≡ einval ]
Judged P (failed w) = ⊥

chosen-IsStarted :
    (policy policy_file socket : Bool) (value : CString) (o o' : Options)
    → IsStarted o
    → chosen policy policy_file socket value o ≡ some o'
    → IsStarted o'
chosen-IsStarted policy policy_file socket value o o' h e = (ground arith, ground (arith, h.1))

set_option-IsStarted :
    (name value : CString) (o o' : Options)
    → IsStarted o
    → set_option name value o ≡ some o'
    → IsStarted o'
unfolding set_option
set_option-IsStarted name value o o' h e = chosen-IsStarted _ _ _ value o o' h e

module _ (P : Options → Type 0) (k : Kernel) where
  if_Judged :
      (b : Bool) (m n : M Parsed) (w : World)
      → Judged P (m k w)
      → Judged P (n k w)
      → Judged P ((if b then m else n) k w)
  if_Judged true m n w x y = x
  if_Judged false m n w x y = y

  with_value-Judged :
      (next : Options → M Parsed) (name value : CString) (o : Options) (w : World)
      → IsStarted o
      → ((o' : Options) → IsStarted o' → Judged P (next o' k w))
      → Judged P (with_value next name value o k w)
  with_value-Judged next name value o w h later =
      if_Judged (str_eq value (codes "--")) (reject o) _ w refl
        (elim (Option-cases (set_option name value o)) [
          | inl refused ↦ rw refused refl
          | inr (o', chosen_one) ↦
              rw chosen_one (later o' (set_option-IsStarted name value o o' h chosen_one))
        ])

  loop-Judged :
      (after : Options → List CString → M Parsed)
      → ((o : Options) (rest : List CString) (w : World)
          → IsStarted o
          → Judged P (after o rest k w))
      → (args : List CString) (o : Options) (w : World) → IsStarted o
      → Judged P (policy_verb_loop after args o k w)
  unfolding policy_verb_loop
  loop-Judged after ended [] o w h = ended o [] w h
  loop-Judged after ended (a ∷ []) o w h =
      if_Judged (str_eq a (codes "--")) _ _ w (ended o (a ∷ []) w h) (
        if_Judged (str_eq a (codes "--preflight")) _ _ w
          (ended (record o { preflight_only = true }) [] w h)
          (if_Judged (str_eq a (codes "--dry-run")) _ _ w
            (ended (record o { dry_run = true }) [] w h) refl))
  loop-Judged after ended (a ∷ b ∷ more) o w h =
      if_Judged (str_eq a (codes "--")) _ _ w (ended o (a ∷ b ∷ more) w h) (
        if_Judged (str_eq a (codes "--preflight")) _ _ w
          (loop-Judged after ended (b ∷ more) (record o { preflight_only = true }) w h)
          (if_Judged (str_eq a (codes "--dry-run")) _ _ w
            (loop-Judged after ended (b ∷ more) (record o { dry_run = true }) w h)
            (with_value-Judged (policy_verb_loop after more) a b o w h
              (λ o' h'. loop-Judged after ended more o' w h'))))

-- A command of at least one word, or none where it is not needed.
abbrev pub IsCommand : Bool → Option (List CString) → Type 0
IsCommand needed none = needed ≡ false
IsCommand needed (some []) = ⊥
IsCommand needed (some (word ∷ words)) = Unit

-- What each verb promises beside: `lint` has no command; `run` has one, unless it only checks.
abbrev pub CommandFits : Verb → Options → Type 0
CommandFits lint o = o.command_argv ≡ none
CommandFits _ o = IsCommand (not o.preflight_only && not o.dry_run) o.command_argv

with_command-Judged :
    (argv : List CString) (o : Options) (rest : List CString) (k : Kernel) (w : World)
    → IsStarted o
    → Judged
        (λ o'. Runnable o' × IsCommand (not o'.preflight_only && not o'.dry_run) o'.command_argv)
        ((if o.preflight_only && o.dry_run
            then reject o
            else if not (given o.policy_name) && not (given o.policy_file)
            then reject o
            else with_command argv o rest)
          k w)
with_command-Judged argv o [] k w h = ground (arith, h.0, h.1)
with_command-Judged argv o (dashes ∷ []) k w h = ground arith
with_command-Judged argv o (dashes ∷ c ∷ cs) k w h = ground (arith, h.0)

end-Judged :
    (argv : List CString) (verb : Verb) (o : Options) (rest : List CString) (k : Kernel) (w : World)
    → IsStarted o
    → Judged (λ o'. Runnable o' × CommandFits verb o') (policy_verb_end argv verb o rest k w)
unfolding policy_verb_end
end-Judged argv lint o [] k w h = ground (arith, h.1)
end-Judged argv lint o (a ∷ more) k w h = ground arith
end-Judged argv no_verb o rest k w h = with_command-Judged argv o rest k w h
end-Judged argv run o rest k w h = with_command-Judged argv o rest k w h
end-Judged argv serve o rest k w h = with_command-Judged argv o rest k w h
end-Judged argv status o rest k w h = with_command-Judged argv o rest k w h
end-Judged argv stop o rest k w h = with_command-Judged argv o rest k w h

-- The options of `run` and `lint`, on any arguments and from options without two policy sources and
-- without a command: what is accepted names its policy in exactly one of the two ways, never asks for a
-- preflight and a dry run at once, has no command for `lint`, and for every other verb has one of at least
-- one word, or none where it only checks; everything else is refused with `EINVAL`.
pub parse_policy_verb-Runnable :
    (argv args : List CString) (o : Options) (verb : Verb) (k : Kernel) (w : World)
    → IsStarted o
    → Judged (λ o'. Runnable o' × CommandFits verb o') (parse_policy_verb argv o verb args k w)
unfolding parse_policy_verb
parse_policy_verb-Runnable argv args o verb k w h =
    loop-Judged (λ o'. Runnable o' × CommandFits verb o') k (policy_verb_end argv verb)
      (λ o' rest v h'. end-Judged argv verb o' rest k v h') args (record o { verb = verb }) w h
