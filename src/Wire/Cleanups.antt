-- ===== src/Wire/Cleanups.antt =====
-- src/landlock_policy_loader.c: what is done on the way out of `load_ir_from_wire` after an error.
use landlock.Base.{ℕ}
use landlock.Sys.{M, get_errno, set_errno, ◌>>=◌, ◌>>◌}
use landlock.Sys.Errno.{einval}
use landlock.Memory.{frees}

-- `free(…); errno = EINVAL;`
unfoldable pub free_invalid : ℕ → M (Unit {0})
unfolding frees
free_invalid n = frees n >> set_errno einval

-- `saved_errno = errno; free(…); errno = saved_errno;`
unfoldable pub free_saved : ℕ → M (Unit {0})
unfolding frees
free_saved n = do saved_errno ← get_errno; frees n; set_errno saved_errno
