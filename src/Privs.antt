-- ===== src/Privs.antt =====
-- src/landlock_no_new_privs.c
pub mod Laws
use landlock.Sys.{M, ◌>>=◌, get_errno, set_errno, call}
use landlock.Sys.Types.{Call}

-- `landlockd_set_no_new_privs`
unfoldable pub set_no_new_privs : M (Unit {0})
set_no_new_privs = do
  saved_errno ← get_errno
  rc ← call Call.set_no_new_privs
  set_errno saved_errno
