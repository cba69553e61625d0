-- ===== src/Lib.antt =====
-- A model of landlockd's sandbox library: the Landlock and seccomp wrappers, the sandbox that is put
-- together from them, the compiler that turns a policy into rulesets and a seccomp plan, and the ways on
-- which a policy and a request reach it.
--
-- The parts, from the bottom up. A C function that returns -1 and sets `errno` is an `M` of Sys.antt:
-- it reads a `Kernel`, which may answer any call in any way after any history, and the `World` of the
-- process, which is `errno`, the static flag of src/landlock.c and the calls made so far. It ends with
-- a value or a failure, and the world at that moment. Calls that this repository does not contain
-- (system calls, `open`, `close`, `malloc`, `free` and the line on stderr) are the constructors of
-- `Call`; what a kernel must promise, where a theorem needs it, is a hypothesis (`DescriptorsFit`:
-- descriptors fit an `int`).
--
-- - Base.antt: lists, tests, bits, 32-bit conversions and C strings.
-- - Sys.antt: the setting above, with the errors, the calls and the count of descriptors.
-- - Privs.antt: src/landlock_no_new_privs.c.
-- - Ruleset.antt: src/landlock.c. Ruleset/Access.antt: src/landlock_fs_ruleset.c and
--   src/landlock_net_ruleset.c.
-- - Seccomp.antt: src/landlockd_seccomp.c, as the plan of exceptions (Plan), the BPF programs and their
--   installation (Filter), the table of names (Names) and the fixed denylists (Hardening). Bpf is the
--   interface of the kernel's interpreter. Which system calls exist, and their numbers, is a parameter.
-- - Sandbox.antt: src/landlock_sandbox.c, src/landlock_sandbox_seccomp.c and
--   src/landlock_restrict_self_require_nnp.c, which use Privs, Ruleset and Seccomp.
-- - Ir.antt: src/policy_ir.c, the validation of an intermediate policy.
-- - Compiler.antt: src/policy_compiler.c, which validates a policy by Ir, makes its rulesets by
--   Ruleset and its exceptions a plan by Seccomp. `policy_compile_fs` and `policy_compile_net` differ
--   in one record, the `Maker`.
-- - FsPolicy.antt: src/landlock_policy.c, which has a validation of its own and otherwise makes
--   rulesets as Compiler does, by a third `Maker`.
-- - Preflight.antt: src/landlockd_preflight.c, src/landlockd_preflight_seccomp.c and
--   src/seccomp_notify_probe.c.
-- - Cli.antt: src/cli_parse.c, as the numbers of `--notify` (Numbers), the verbs with a policy (Verbs),
--   the lists of `--ro` and `--notify` (Lists) and the whole command line with its plan (Parse).
-- - Memory.antt: arrays and strings on the heap, and the copying and freeing of them. A pointer and the
--   count beside it are an optional list, since the code changes the two together; the blocks that are
--   taken and freed are counted in the history of calls (Blocks), not their addresses.
-- - Document.antt: src/landlock_policy_ir.c, the policy as it is read: the functions that add to it
--   (Add, and by name in Operations), its reset (Reset) and its copy (Copy). Spec says what each call
--   does were memory unlimited, and Wellformed what the functions keep.
-- - Execution.antt: of src/landlockd_exec.c, the compilation of a document's rulesets, by Compiler.
-- - Broker.antt: of src/landlockd_exec.c, the allowlist that a broker makes of a policy (Allowlist), its
--   decisions by it (Decisions) and its leases (Leases). What `realpath` answers for the paths that it
--   resolves is a parameter; that it may refuse any path is the kernel's part.
-- - Output.antt: the loop around `write`, of src/landlock_policy_loader.c and src/landlockd_daemon.c. What
--   `write` answers is a list: so many bytes taken, an interrupt, or an error.
-- - Wire.antt: of src/landlock_policy_loader.c, the format in which the helper hands a policy over:
--   `write_ir` (Store), `load_ir_from_wire` (Reader, Load, Whole) and what `landlockd_policy_load_file`
--   does with the helper's bytes (File). A reading step is an `L`, over the bytes that are left and the
--   document that is filled, which it keeps when it fails.
-- - Audit.antt: src/landlockd_audit.c, the lines of JSON, with the buffer that grows. Json is an independent
--   reader of the grammar of JSON strings, and Utf8 a test of UTF-8; the two together are what JSON asks for.
-- - Daemon.antt: of src/landlockd_daemon.c, the request to run a program, from the client's side and the
--   daemon's (Requests), and the daemon's cache of policies (Cache), which loads them by a parameter.
-- - Tests.antt: concrete kernels, plans, policies, requests and caches.
--
-- All loops run over lists or counts, so there is no fuel, but for one: the buffer of the audit log doubles
-- its capacity until the line fits, on fuel of one more than the length, since each round adds at least 1.
-- A pointer is an `Option`; an array that comes with a count is a list, of which the code reads as many
-- items as the count says. 64-bit masks are natural numbers, since the code only combines their bits; where
-- C converts to a narrower type the model writes out the remainder. Numbers on the wire have their low byte
-- first, as on the machines that the table of system calls is for.
--
-- Parameters, which stand for code outside this repository or parts of it that are not modelled: what
-- `realpath` answers, the numbers of system calls, the kernel's interpreter of BPF, the text that `snprintf`
-- prints of a number, the time, and for the cache the loading of a file.
--
-- Not modelled: the rest of src/landlockd_exec.c, which runs programs and answers for them; the socket, the
-- loop, the commands `stop` and `status` and the environment of the daemon; the helper process with its pipes,
-- and src/landlock_policy_loader_in_process.c, which reads the tables of the TOML parser; the output of the
-- programs. They are mostly processes, sockets and text. Neither are the vendored parser and test library,
-- and the helper in Rust.
pub mod Base
pub mod Sys
pub mod Memory
pub mod Document
pub mod Broker
pub mod Execution
pub mod Privs
pub mod Ruleset
pub mod Seccomp
pub mod Sandbox
pub mod Output
pub mod Wire
pub mod Audit
pub mod Daemon
pub mod Ir
pub mod Compiler
pub mod Preflight
pub mod FsPolicy
pub mod Cli
pub mod Tests
