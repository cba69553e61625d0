-- ===== src/Execution.antt =====
-- src/landlockd_exec.c: the rulesets that a program runs under are compiled of a policy document.
pub mod Owned
use landlock.Base.{ℕ, ℤ, pos, Bool, true, false, if◌then◌else◌, Option, none, some, List}
use landlock.Sys.{M, pure, fail, get_errno, set_errno, attempt, call, ◌>>=◌, ◌>>◌}
use landlock.Sys.Types.{Call}
use landlock.Memory.{items_of}
use landlock.Ir.{NetRule}
use landlock.Document.Types.{Document, DocumentLayer}
use landlock.Ruleset.Access.{create_fs_ruleset, create_net_ruleset}
use landlock.Compiler.{
  Rulesets, Compiled, Maker, no_rulesets, release, add_path_rules, add_port_rules, compile,
}

abbrev pub document_maker : Maker DocumentLayer
document_maker = record {
  wanted = λ l. true;
  handled = λ l. l.handled_access_fs;
  create = create_fs_ruleset;
  add_rules = λ fd l. add_path_rules fd (items_of l.rules);
}

-- `landlockd_exec_compile_fs`; `struct landlockd_exec_compiled_fs` has the two fields of
-- `struct landlockd_compiled_rulesets`. There is no validation, and the cleanup after an error is the
-- same loop, between the lines that save and restore `errno`.
unfoldable pub exec_compile_fs : Document → M Compiled
exec_compile_fs ir = compile document_maker (pure tt) (items_of ir.fs_layers)

-- `landlockd_exec_cleanup_fs`, of a pointer that is not NULL.
unfoldable pub exec_cleanup_fs : Rulesets → M Rulesets
exec_cleanup_fs r = release r.ruleset_fds >> pure no_rulesets

-- After the rules of the network were added, or not.
abbrev pub net_compiled : ℤ → Option (Unit {0}) → M (Option ℤ)
net_compiled fd (some added) = pure (some fd)
net_compiled fd none = do
  saved_errno ← get_errno
  closed ← attempt (call (Call.close fd))
  set_errno saved_errno
  fail

abbrev pub net_created : List NetRule → ℤ × ℕ → M (Option ℤ)
net_created rules (fd, granted) = attempt (add_port_rules fd rules) >>= net_compiled fd

-- `landlockd_exec_compile_net`: `none` is the -1 that `*net_ruleset_fd_out` holds without a network
-- part, and after a failure.
unfoldable pub exec_compile_net : Document → M (Option ℤ)
exec_compile_net ir =
    if ir.net_enabled
    then create_net_ruleset ir.net_handled_access >>= net_created (items_of ir.net_rules)
    else pure none
