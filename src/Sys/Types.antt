-- ===== src/Sys/Types.antt =====
-- What the code asks of the kernel and of the C library, and what comes back.
use landlock.Base.{ℕ, ℤ, List, Option, Bool}

-- A C string, as its bytes without the terminating NUL.
abbrev pub CString : Type 0
CString = List ℕ

-- `struct landlock_ruleset_attr_compat` (include/landlockd/landlock_compat.h).
pub record RulesetAttr : Type 0 where
  pub handled_access_fs : ℕ
  pub handled_access_net : ℕ
  pub scoped : ℕ

-- `struct landlock_path_beneath_attr`
pub record PathBeneath : Type 0 where
  pub allowed_access : ℕ
  pub parent_fd : ℤ

-- `struct landlock_net_port_attr`
pub record NetPort : Type 0 where
  pub allowed_access : ℕ
  pub port : ℕ

-- Either structure behind a `const void *`. Both begin with `allowed_access`.
pub data RuleAttr : Type 0 where
  path_beneath : PathBeneath → RuleAttr
  net_port : NetPort → RuleAttr

-- `struct sock_filter`, in the three forms that the filters use: `BPF_LD | BPF_W | BPF_ABS`,
-- `BPF_JMP | BPF_JEQ | BPF_K` and `BPF_RET | BPF_K`.
pub data Insn : Type 0 where
  load : (offset : ℕ) → Insn
  jump_eq : (k jt jf : ℕ) → Insn
  ret_k : (k : ℕ) → Insn

pub data Call : Type 0 where
  create_ruleset : (attr : Option RulesetAttr) (size flags : ℕ) → Call
  add_rule : (ruleset_fd : ℤ) (rule_type : ℕ) (attr : RuleAttr) (flags : ℕ) → Call
  restrict_self : (ruleset_fd : ℤ) (flags : ℕ) → Call
  -- prctl(PR_SET_NO_NEW_PRIVS, 1, 0, 0, 0) and prctl(PR_GET_NO_NEW_PRIVS, 0, 0, 0, 0)
  set_no_new_privs : Call
  get_no_new_privs : Call
  -- seccomp(SECCOMP_SET_MODE_FILTER, flags, prog)
  set_filter : (flags : ℕ) (prog : List Insn) → Call
  get_notif_sizes : Call
  get_action_avail : (action : ℕ) → Call
  -- open(path, O_PATH | O_CLOEXEC), of a pointer that may be NULL
  open_path : (path : Option CString) → Call
  close : (fd : ℤ) → Call
  allocate : (items : ℕ) → Call
  -- strdup(s), and realloc to a number of items of a pointer that is NULL or not
  duplicate : (s : CString) → Call
  reallocate : (null : Bool) (items : ℕ) → Call
  -- realpath(path, NULL)
  resolve : (path : CString) → Call
  free : Call
  -- the one line on stderr of `landlock_restrict_self`
  print_e2big : Call

-- A result that is not negative, or -1, each with the `errno` that the call leaves behind: POSIX
-- lets a call that succeeds change `errno` too.
pub data Answer : Type 0 where
  ret : (value errno : ℕ) → Answer
  fails : (errno : ℕ) → Answer

-- A call that was made and its answer.
abbrev pub Event : Type 0
Event = Call × Answer

-- The world outside the program: any answer to any call, after any history (newest call first).
abbrev pub Kernel : Type 0
Kernel = List Event → Call → Answer
