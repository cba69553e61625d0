-- ===== src/Cli/Options.antt =====
-- src/landlockd_cli.h: what the command line says.
use landlock.Base.{ℕ, Bool, true, false, Option, none, some, List}
use landlock.Sys.{M, pure, set_errno, attempt, call, ◌>>=◌, ◌>>◌}
use landlock.Sys.Types.{Call, CString}
use landlock.Sys.Errno.{einval}

-- `enum landlockd_cli_verb`
pub data Verb : Type 0 where
  no_verb run lint serve status stop : Verb

-- `struct landlockd_cli_options`; an array that `calloc` made starts with zeros.
pub record Options : Type 0 where
  pub argv : Option (List CString)
  pub verb : Verb
  pub policy_name : Option CString
  pub policy_file : Option CString
  pub socket_path : Option CString
  pub use_systemd_socket_activation : Bool
  pub preflight_only : Bool
  pub dry_run : Bool
  pub ro_path_count : ℕ
  pub ro_paths : Option (List (Option CString))
  pub notify_count : ℕ
  pub notify_syscalls : Option (List ℕ)
  pub command_argv : Option (List CString)
  pub show_help : Bool

-- The first assignments of `landlockd_cli_parse`.
abbrev pub no_options : Options
no_options = record {
  argv = none;
  verb = no_verb;
  policy_name = none;
  policy_file = none;
  socket_path = none;
  use_systemd_socket_activation = false;
  preflight_only = false;
  dry_run = false;
  ro_path_count = 0;
  ro_paths = none;
  notify_count = 0;
  notify_syscalls = none;
  command_argv = none;
  show_help = false;
}

-- What is left in `*options`, and whether the function returned 0.
pub record Parsed : Type 0 where
  pub succeeded : Bool
  pub options : Options

abbrev pub accept : Options → M Parsed
accept o = pure (record { succeeded = true; options = o })

-- `errno = EINVAL; return -1;`
abbrev pub reject : Options → M Parsed
reject o = set_errno einval >> pure (record { succeeded = false; options = o })

-- `landlockd_cli_options_release`
unfoldable pub options_release : Option Options → M (Option Options)
options_release none = pure none
options_release (some o) = do
  freed_paths ← attempt (call Call.free)
  freed_numbers ← attempt (call Call.free)
  pure (
      some
        (record o { ro_paths = none; notify_syscalls = none; ro_path_count = 0; notify_count = 0 }))
