-- ===== src/Daemon/Requests.antt =====
-- src/landlockd_daemon.c: the request of `landlockd_daemon_run`, and how `landlockd_daemon_handle_run`
-- receives it.
use landlock.Base.{
  ℕ, zero, suc, ◌+◌, ◌*◌, ◌%◌, ◌^◌, Bool, false, not, ◌&&◌, ◌||◌, ◌==◌, ltb, if◌then◌else◌,
}
use landlock.Base.{Option, none, some, List, [], ◌∷◌, ◌++◌, length, take}
use landlock.Sys.{call}
use landlock.Sys.Types.{CString, Call}
use landlock.Sys.Errno.{epipe}
use landlock.Wire.Bytes.{number, cut, text}
use landlock.Wire.Cleanups.{free_saved}
use landlock.Wire.Store.{u32, each}
use landlock.Wire.Reader.{got, lost, L, pure, ◌>>=◌, ◌>>◌, refuse, unless_bad, lift, undo}

abbrev pub daemon_magic : ℕ
daemon_magic = 0x4c444344

abbrev pub daemon_version : ℕ
daemon_version = 1

abbrev pub cmd_run : ℕ
cmd_run = 1

abbrev pub max_args : ℕ
max_args = 128

abbrev pub max_policy_len : ℕ
max_policy_len = 16384

abbrev pub max_arg_len : ℕ
max_arg_len = 65535

abbrev pub max_request_bytes : ℕ
max_request_bytes = 1024 * 1024

-- `(uint32_t)strlen(s)`
abbrev pub len_of : CString → ℕ
len_of s = length s % 2 ^ 32

-- The loop over `argv` of `landlockd_daemon_run`: the bytes that the arguments take, as a `uint32_t`, or
-- EINVAL. It stops long before the count of the arguments, which is a `uint32_t` too, can wrap.
unfoldable pub counted_bytes : ℕ → List CString → Option ℕ
counted_bytes total [] = some total
counted_bytes total (a ∷ args) =
    let more = (total + 4 + len_of a) % 2 ^ 32 in
    let rest = counted_bytes more args in
    if len_of a == 0 || ltb max_arg_len (len_of a)
    then none
    else if ltb max_request_bytes more
    then none
    else rest

abbrev pub fits_total : ℕ → Option ℕ → Bool
fits_total len none = false
fits_total len (some total) = not (
    len == 0
    || ltb max_policy_len len
    || ltb max_request_bytes len
    || ltb max_request_bytes ((total + len) % 2 ^ 32))

-- Whether the client sends a request at all.
unfoldable pub is_sendable : CString → List CString → Bool
unfolding counted_bytes
is_sendable policy_file argv =
    not (length argv == 0 || ltb max_args (length argv))
    && fits_total (len_of policy_file) (counted_bytes 0 argv)

abbrev pub header_blocks : ℕ → ℕ → ℕ → List (List ℕ)
header_blocks command argc policy_len =
    (u32 daemon_magic ++ (u32 daemon_version ++ (u32 command ++ (u32 argc ++ u32 policy_len)))) ∷ []

unfoldable pub argument_blocks : CString → List (List ℕ)
argument_blocks a = u32 (len_of a) ∷ take (len_of a) a ∷ []

-- What follows the header.
unfoldable pub run_blocks : CString → List CString → List (List ℕ)
unfolding argument_blocks each
run_blocks policy_file argv = take (len_of policy_file) policy_file ∷ each argument_blocks argv

-- Why a client sends no more bytes: it has hung up, or `read` fails with an error.
pub data Ending : Type 0 where
  hung_up : Ending
  broken : (error : ℕ) → Ending

abbrev pub errno_of : Ending → ℕ
errno_of hung_up = epipe
errno_of (broken error) = error

abbrev pub bad_argument : ℕ → ℕ → Bool
bad_argument total arg_len =
    arg_len == 0
    || ltb max_arg_len arg_len
    || ltb max_request_bytes total
    || ltb max_request_bytes (total + arg_len)

module _ (ending : Ending) where
  -- `landlockd_daemon_read_all`, on all that the client sends before the end; a `read` that is interrupted is
  -- made again.
  abbrev pub arrived : Option (List ℕ × List ℕ) → L (List ℕ)
  arrived none k c w = lost c.doc (record w { errno = errno_of ending })
  arrived (some p) k c w = got p.0 (record c { rest = p.1 }) w

  unfoldable pub read_all : ℕ → L (List ℕ)
  read_all n k c w = arrived (cut n c.rest) k c w

  abbrev pub read_len : L ℕ
  read_len = read_all 4 >>= λ bs. pure (number bs)

  -- The loop for the arguments; `held` blocks are freed where it fails.
  unfoldable pub receive_arguments : ℕ → ℕ → ℕ → L (List CString)
  unfolding read_all undo free_saved
  receive_arguments held total zero = pure []
  receive_arguments held total (suc n) = do
    arg_len ← undo (free_saved held) read_len
    undo (free_saved held) (unless_bad (bad_argument (total + 4) arg_len) refuse)
    block ← undo (free_saved held) (lift (call (Call.allocate (arg_len + 1))))
    bs ← undo (free_saved (suc held)) (read_all arg_len)
    args ← receive_arguments (suc held) (total + 4 + arg_len) n
    pure (text bs ∷ args)

  -- `landlockd_daemon_handle_run` up to the run: the policy's name and the arguments.
  unfoldable pub receive_run : ℕ → ℕ → L (CString × List CString)
  unfolding read_all undo free_saved receive_arguments
  receive_run argc policy_len = do
    unless_bad (argc == 0 || ltb max_args argc || policy_len == 0 || ltb max_policy_len policy_len)
        refuse
    block ← lift (call (Call.allocate (policy_len + 1)))
    bs ← undo (free_saved 1) (read_all policy_len)
    argv ← undo (free_saved 1) (lift (call (Call.allocate (argc + 1))))
    args ← receive_arguments 2 policy_len argc
    pure (text bs, args)
