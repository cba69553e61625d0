-- ===== src/Cli/Lists.antt =====
-- src/cli_parse.c, the end of `landlockd_cli_parse`: `--ro` and `--notify` options and a command, read
-- in two passes. The first counts and refuses, the second fills the arrays.

pub mod Passes
pub mod Collected
use landlock.Base.{ℕ, suc, Bool, true, false, ◌==◌, ltb, if◌then◌else◌}
use landlock.Base.{Option, none, some, List, [], ◌∷◌, drop, replicate, set, codes, str_eq}
use landlock.Sys.{M, pure, fail_with, attempt, call, ◌>>=◌}
use landlock.Sys.Types.{Call, CString}
use landlock.Sys.Errno.{einval}
use landlock.Cli.Options.{Options, Parsed, accept, reject}
use landlock.Cli.Numbers.{parse_syscall_nr}

-- What the first pass counts, and the arguments from the index where it ended.
pub record Counted : Type 0 where
  pub ro_count : ℕ
  pub notify_count : ℕ
  pub rest : List CString

abbrev pub counted : Option ℕ → M Counted → M Counted
counted none next = fail_with einval
counted (some parsed_nr) next = next

-- The first pass.
unfoldable pub count_options : List CString → ℕ → ℕ → M Counted
count_options [] ro_count notify_count =
    pure (record { ro_count = ro_count; notify_count = notify_count; rest = [] })
count_options (a ∷ []) ro_count notify_count =
    if str_eq a (codes "--")
    then pure (record { ro_count = ro_count; notify_count = notify_count; rest = a ∷ [] })
    else fail_with einval
count_options (a ∷ b ∷ more) ro_count notify_count =
    let next = count_options more in
    if str_eq a (codes "--")
    then pure (record { ro_count = ro_count; notify_count = notify_count; rest = a ∷ b ∷ more })
    else if str_eq b (codes "--")
    then fail_with einval
    else if str_eq a (codes "--ro")
    then next (suc ro_count) notify_count
    else if str_eq a (codes "--notify")
    then attempt (parse_syscall_nr b) >>= (λ nr. counted nr (next ro_count (suc notify_count)))
    else fail_with einval

-- The two arrays and how far they are filled.
pub record Arrays : Type 0 where
  pub ro_path_count : ℕ
  pub ro_paths : List (Option CString)
  pub notify_count : ℕ
  pub notify_syscalls : List ℕ

abbrev pub with_path : CString → Arrays → Arrays
with_path path f = record f {
  ro_path_count = suc f.ro_path_count;
  ro_paths = set f.ro_paths f.ro_path_count (some path);
}

-- A text that is no number leaves its slot as it was.
abbrev pub with_number : Option ℕ → Arrays → Arrays
with_number none f = record f { notify_count = suc f.notify_count }
with_number (some nr) f = record f {
  notify_count = suc f.notify_count;
  notify_syscalls = set f.notify_syscalls f.notify_count nr;
}

-- The second pass, and the arguments from the index where it ended. The first pass has refused a last
-- argument that is not `--`.
unfoldable pub fill_arrays : List CString → Arrays → M (Arrays × List CString)
fill_arrays [] f = pure (f, [])
fill_arrays (a ∷ []) f = pure (f, a ∷ [])
fill_arrays (a ∷ b ∷ more) f =
    let next = fill_arrays more in
    if str_eq a (codes "--")
    then pure (f, a ∷ b ∷ more)
    else if str_eq a (codes "--ro")
    then next (with_path b f)
    else attempt (parse_syscall_nr b) >>= (λ nr. next (with_number nr f))

-- `calloc`: zeros, or NULL; an array with no items is not asked for.
abbrev calloc : ℕ → M ℕ
calloc n = call (Call.allocate n)

-- The last assignments.
abbrev pub listed : List CString → Options → Counted → Arrays × List CString → M Parsed
listed argv o c (f, rest) = accept (record o {
  argv = some argv;
  ro_path_count = f.ro_path_count;
  ro_paths = some f.ro_paths;
  notify_count = f.notify_count;
  notify_syscalls = if ltb 0 c.notify_count then some f.notify_syscalls else none;
  command_argv = some (drop 1 rest);
})

-- The arrays as `calloc` made them.
abbrev pub zeroed : Options → Counted → Arrays
zeroed o c = record {
  ro_path_count = o.ro_path_count;
  ro_paths = replicate c.ro_count none;
  notify_count = o.notify_count;
  notify_syscalls = replicate c.notify_count 0;
}

-- After both allocations.
abbrev pub filled_options : List CString → List CString → Options → Counted → M Parsed
filled_options argv args o c = fill_arrays args (zeroed o c) >>= listed argv o c

abbrev pub give_up : Options → M Parsed
give_up o = pure (record { succeeded = false; options = o })

abbrev pub notify_allocated : List CString → List CString → Options → Counted → Option ℕ → M Parsed
notify_allocated argv args o c none = do freed ← attempt (call Call.free); give_up o
notify_allocated argv args o c (some block) = filled_options argv args o c

abbrev pub paths_allocated : List CString → List CString → Options → Counted → Option ℕ → M Parsed
paths_allocated argv args o c none = give_up o
paths_allocated argv args o c (some block) =
    if ltb 0 c.notify_count
    then attempt (calloc c.notify_count) >>= notify_allocated argv args o c
    else filled_options argv args o c

-- The test between the passes: some `--ro`, a `--` and a command after it.
abbrev pub has_command : Counted → Bool
has_command c = if c.ro_count == 0 then false else elim c.rest [
  | [] ↦ false
  | dashes ∷ command ↦ elim command [ [] ↦ false | word ∷ words ↦ true ]
]

abbrev pub passed : List CString → List CString → Options → Option Counted → M Parsed
passed argv args o none = give_up o
passed argv args o (some c) =
    if has_command c
    then attempt (calloc c.ro_count) >>= paths_allocated argv args o c
    else reject o

-- The whole of it, of the arguments from index 1 on.
unfoldable pub parse_lists : List CString → List CString → Options → M Parsed
parse_lists argv args o = attempt (count_options args 0 0) >>= passed argv args o
