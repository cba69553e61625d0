-- ===== src/Wire/Store.antt =====
-- src/landlock_policy_loader.c: `write_ir`, as the blocks of bytes that it hands to `write_all`, in order.
-- The counts of its loops are below 2 ^ 32, as those of its counters are.
use landlock.Base.{
  ℕ, ℤ, pos, negsuc, ◌-◌, ◌/◌, ◌%◌, ◌^◌, Bool, true, false, Option, none, some, List, [], ◌∷◌, ◌++◌,
  length, take,
}
use landlock.Sys.Types.{CString}
use landlock.Memory.{Array, items_of}
use landlock.Ir.{FsRule, NetRule, ExceptionRule}
use landlock.Document.Types.{Document, DocumentLayer, BindRule, ObjectRule, AddfdRule, PathRules}
use landlock.Wire.Bytes.{bytes_of}
use landlock.Wire.Load.{wire_magic, wire_version, header_widths}

-- `write_u32` and `write_u64`, whose arguments are converted to that width.
abbrev pub u32 : ℕ → List ℕ
u32 n = bytes_of 4 n

abbrev pub u64 : ℕ → List ℕ
u64 n = bytes_of 8 n

-- The string behind a pointer, which is not NULL here.
abbrev pub text_of : Option CString → CString
text_of none = []
text_of (some s) = s

abbrev pub flag : Bool → ℕ
flag false = 0
flag true = 1

-- The length of a string, converted to `uint32_t`, and as many of its bytes.
unfoldable pub string_chunks : Option CString → List (List ℕ)
string_chunks s = u32 (length (text_of s)) ∷ take (length (text_of s) % 2 ^ 32) (text_of s) ∷ []

unfoldable pub each : {A : Type 0} → (A → List (List ℕ)) → List A → List (List ℕ)
each chunks [] = []
each chunks (x ∷ xs) = chunks x ++ each chunks xs

unfoldable pub fs_rule_chunks : FsRule → List (List ℕ)
unfolding string_chunks
fs_rule_chunks r = u64 r.allowed_access ∷ string_chunks r.path

abbrev pub count_of : {A : Type 0} → Array A → ℕ
count_of xs = length (items_of xs)

unfoldable pub layer_chunks : DocumentLayer → List (List ℕ)
unfolding each fs_rule_chunks
layer_chunks l =
    u64 l.handled_access_fs ∷ u32 (count_of l.rules) ∷ each fs_rule_chunks (items_of l.rules)

unfoldable pub net_rule_chunks : NetRule → List (List ℕ)
net_rule_chunks r = u32 r.port ∷ u64 r.allowed_access ∷ []

unfoldable pub bind_chunks : BindRule → List (List ℕ)
unfolding string_chunks
bind_chunks r = string_chunks r.source ++ (string_chunks r.target ++ (u32 (flag r.read_only) ∷ []))

unfoldable pub object_chunks : ObjectRule → List (List ℕ)
unfolding string_chunks each
object_chunks r =
    string_chunks r.name
    ++ (string_chunks r.fs_type
        ++ (u32 (count_of r.attach_paths)
            ∷ u32 (r.allowed_attr_set % 2 ^ 32)
            ∷ u32 (r.allowed_attr_set / 2 ^ 32)
            ∷ each string_chunks (items_of r.attach_paths)))

unfoldable pub addfd_chunks : AddfdRule → List (List ℕ)
unfolding string_chunks
addfd_chunks r = string_chunks r.action ++ (string_chunks r.target ++ string_chunks r.mode)

abbrev pub number_of : ℤ → ℕ
number_of (pos n) = n
number_of (negsuc n) = 2 ^ 32 - 1 - n

unfoldable pub deny_chunks : ExceptionRule → List (List ℕ)
deny_chunks r = u32 (number_of r.syscall_nr) ∷ []

abbrev pub header_values : Document → List ℕ
header_values d =
    wire_magic
    ∷ wire_version
    ∷ count_of d.fs_layers
    ∷ flag d.net_enabled
    ∷ d.net_handled_access
    ∷ count_of d.net_rules
    ∷ count_of d.broker_open_read_rules
    ∷ count_of d.broker_open_write_rules
    ∷ count_of d.broker_scratch_rules
    ∷ count_of d.broker_export_rules
    ∷ count_of d.broker_mount_tmpfs_rules
    ∷ count_of d.broker_mount_bind_rules
    ∷ count_of d.broker_mount_object_rules
    ∷ count_of d.broker_addfd_rules
    ∷ count_of d.mount_tmpfs_rules
    ∷ count_of d.mount_bind_rules
    ∷ count_of d.mount_proc_rules
    ∷ length (text_of d.runtime_root)
    ∷ length (text_of d.runtime_cwd)
    ∷ flag d.seccomp_enabled
    ∷ d.seccomp_errno
    ∷ count_of d.seccomp_deny_rules
    ∷ []

abbrev pub numbers : List ℕ → List ℕ → List (List ℕ)
numbers [] ns = []
numbers (width ∷ ws) [] = []
numbers (width ∷ ws) (n ∷ ns) = bytes_of width n ∷ numbers ws ns

abbrev pub paths_chunks : PathRules → List (List ℕ)
paths_chunks rules = each string_chunks (items_of rules)

-- The path alone: its length stands in the header.
abbrev pub runtime_chunks : Option CString → List (List ℕ)
runtime_chunks none = []
runtime_chunks (some s) = take (length s % 2 ^ 32) s ∷ []

-- What follows the header.
abbrev pub body_chunks : Document → List (List ℕ)
body_chunks d =
    each layer_chunks (items_of d.fs_layers)
    ++ (each net_rule_chunks (items_of d.net_rules)
        ++ (paths_chunks d.broker_open_read_rules
            ++ (paths_chunks d.broker_open_write_rules
                ++ (paths_chunks d.broker_scratch_rules
                    ++ (paths_chunks d.broker_export_rules
                        ++ (paths_chunks d.broker_mount_tmpfs_rules
                            ++ (each bind_chunks (items_of d.broker_mount_bind_rules)
                                ++ (each object_chunks (items_of d.broker_mount_object_rules)
                                    ++ (each addfd_chunks (items_of d.broker_addfd_rules)
                                        ++ (paths_chunks d.mount_tmpfs_rules
                                            ++ (each bind_chunks (items_of d.mount_bind_rules)
                                                ++ (paths_chunks d.mount_proc_rules
                                                    ++ (runtime_chunks d.runtime_root
                                                        ++ (runtime_chunks d.runtime_cwd
                                                            ++ each deny_chunks (
                                                            items_of
                                                            d.seccomp_deny_rules)))))))))))))))

unfoldable pub write_ir : Document → List (List ℕ)
unfolding each string_chunks layer_chunks net_rule_chunks bind_chunks object_chunks addfd_chunks
    deny_chunks
write_ir d = numbers header_widths (header_values d) ++ body_chunks d

-- The bytes of blocks, with others behind them.
unfoldable pub onto : List (List ℕ) → List ℕ → List ℕ
onto [] rest = rest
onto (c ∷ cs) rest = c ++ onto cs rest
