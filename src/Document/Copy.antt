-- ===== src/Document/Copy.antt =====
-- src/landlock_policy_ir.c, `landlockd_policy_ir_copy`. Each field is copied in turn; the first failure
-- ends the copy, and what was copied so far is released.

use landlock.Base.{Bool, not, ◌&&◌, ◌==◌, if◌then◌else◌}
use landlock.Base.{Option, none, some}
use landlock.Sys.{M, get_errno, set_errno, ◌>>=◌, ◌>>◌}
use landlock.Sys.Types.{CString}
use landlock.Sys.Errno.{einval}
use landlock.Memory.{
  Array, is_absent, Copied, Copier, stopped, finished, string, ◌then_copy◌, second, array,
}
use landlock.Document.Types.{Document, DocumentLayer, BindRule, ObjectRule, AddfdRule, PathRules}
use landlock.Document.Reset.{document_reset}
use landlock.Document.Parts.{
  layer_copier, bind_copier, object_copier, addfd_copier, NetPart, net_copier, SeccompPart,
  seccomp_copier, paths_copier,
}

-- The fields after the layers, in the order in which they are copied.
abbrev pub Rest : Type 0
Rest =
    NetPart
    × (PathRules
        × (PathRules
            × (PathRules
                × (PathRules
                    × (PathRules
                        × (Array BindRule
                            × (Array ObjectRule
                                × (Array AddfdRule
                                    × (PathRules
                                        × (Array BindRule
                                            × (PathRules
                                                × (Option CString
                                                    × (Option CString × SeccompPart)))))))))))))

abbrev pub Fields : Type 0
Fields = Array DocumentLayer × Rest

abbrev pub fields_of : Document → Fields
fields_of d = (
  d.fs_layers,
  (
    (d.net_enabled, (d.net_handled_access, d.net_rules)),
    (
      d.broker_open_read_rules,
      (
        d.broker_open_write_rules,
        (
          d.broker_scratch_rules,
          (
            d.broker_export_rules,
            (
              d.broker_mount_tmpfs_rules,
              (
                d.broker_mount_bind_rules,
                (
                  d.broker_mount_object_rules,
                  (
                    d.broker_addfd_rules,
                    (
                      d.mount_tmpfs_rules,
                      (
                        d.mount_bind_rules,
                        (
                          d.mount_proc_rules,
                          (
                            d.runtime_root,
                            (
                              d.runtime_cwd,
                              (d.seccomp_enabled, (d.seccomp_errno, d.seccomp_deny_rules)),
                            ),
                          ),
                        ),
                      ),
                    ),
                  ),
                ),
              ),
            ),
          ),
        ),
      ),
    ),
  ),
)

abbrev pub rest_copier : Copier Rest
rest_copier =
    net_copier
    then_copy paths_copier
    then_copy paths_copier
    then_copy paths_copier
    then_copy paths_copier
    then_copy paths_copier
    then_copy array bind_copier
    then_copy array object_copier
    then_copy array addfd_copier
    then_copy paths_copier
    then_copy array bind_copier
    then_copy paths_copier
    then_copy string
    then_copy string
    then_copy seccomp_copier

-- The document with these fields. `net_handled_access` is written only with the network part.
abbrev pub document_of : Document → Fields → Document
document_of dst
      (
        layers,
        (
          (net, (handled, rules)),
          (
            opens,
            (
              writes,
              (
                scratch,
                (
                  exports,
                  (
                    broker_tmpfs,
                    (
                      broker_bind,
                      (
                        objects,
                        (addfds, (tmpfs, (bind, (procs, (root, (cwd, (seccomp, (error, deny)))))))),
                      ),
                    ),
                  ),
                ),
              ),
            ),
          ),
        ),
      ) =
    record {
      fs_layers = layers;
      net_enabled = net;
      net_handled_access = if net then handled else dst.net_handled_access;
      net_rules = rules;
      broker_open_read_rules = opens;
      broker_open_write_rules = writes;
      broker_scratch_rules = scratch;
      broker_export_rules = exports;
      broker_mount_tmpfs_rules = broker_tmpfs;
      broker_mount_bind_rules = broker_bind;
      broker_mount_object_rules = objects;
      broker_addfd_rules = addfds;
      mount_tmpfs_rules = tmpfs;
      mount_bind_rules = bind;
      mount_proc_rules = procs;
      runtime_root = root;
      runtime_cwd = cwd;
      seccomp_enabled = seccomp;
      seccomp_errno = error;
      seccomp_deny_rules = deny;
    }

-- The test that the destination has nothing in it: it does not look at `net_handled_access`.
abbrev pub is_unused : Document → Bool
is_unused d =
    is_absent d.fs_layers
    && not d.net_enabled
    && is_absent d.net_rules
    && is_absent d.broker_open_read_rules
    && is_absent d.broker_open_write_rules
    && is_absent d.broker_scratch_rules
    && is_absent d.broker_export_rules
    && is_absent d.broker_mount_tmpfs_rules
    && is_absent d.broker_mount_bind_rules
    && is_absent d.broker_mount_object_rules
    && is_absent d.broker_addfd_rules
    && is_absent d.mount_tmpfs_rules
    && is_absent d.mount_bind_rules
    && is_absent d.mount_proc_rules
    && is_absent d.runtime_root
    && is_absent d.runtime_cwd
    && not d.seccomp_enabled
    && d.seccomp_errno == 0
    && is_absent d.seccomp_deny_rules

-- `return 0`, or the code from `fail` on.
abbrev pub copy_ends : Document → Copied Fields → M (Copied (Option Document))
copy_ends dst r = if r.whole then finished (some (document_of dst r.value)) else (do
  saved_errno ← get_errno
  left ← document_reset (some (document_of dst r.value))
  set_errno saved_errno
  stopped left)

-- Where the `calloc` of the layers fails, the code returns at once.
abbrev pub layers_end :
    Document → Document → Copied (Array DocumentLayer) → M (Copied (Option Document))
layers_end src dst layers =
    if not layers.whole && is_absent layers.value
    then stopped (some dst)
    else second rest_copier (fields_of src).1 layers >>= copy_ends dst

-- `landlockd_policy_ir_copy`, of pointers that may be NULL: whether it returns 0, and `*dst` after it.
unfoldable pub document_copy : Option Document → Option Document → M (Copied (Option Document))
unfolding document_reset
document_copy none dst = set_errno einval >> stopped dst
document_copy (some src) none = set_errno einval >> stopped none
document_copy (some src) (some dst) =
    if is_unused dst
    then (array layer_copier).run src.fs_layers >>= layers_end src dst
    else set_errno einval >> stopped (some dst)
