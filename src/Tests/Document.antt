-- ===== src/Tests/Document.antt =====
-- A policy document with a part of each shape, built, copied and released.
use landlock.Base.{pos, ◌≡◌, refl, arith, List, [], ◌∷◌, none, some, codes, true}
use landlock.Sys.{fresh}
use landlock.Document.Types.{Document, blank_document}
use landlock.Document.Add.{scratch, mount_bind}
use landlock.Document.Operations.{
  Operation, fs_layer, fs_rule, net, net_rule, path_rule, bind_rule, object_rule, addfd_rule,
  runtime_root, seccomp, deny_rule, apply, apply_all,
}
use landlock.Document.Spec.{extended}
use landlock.Document.Copy.{document_copy}
use landlock.Document.Reset.{document_reset}
use landlock.Document.ResetLaws.{IsReset, document_reset-IsReset}
use landlock.Document.Wellformed.{IsDocument, blank-IsDocument}
use landlock.Document.Copied.{IsCopied, document_copy-IsCopied}
use landlock.Document.Built.{Implements, apply-Implements, Built, apply_all-Built, extended_all}
use landlock.Document.Lifecycle.{AllFreed, lifecycle, lifecycle-AllFreed}
use landlock.Tests.Kernels.{granting, refusing}

abbrev calls : List Operation
calls =
    fs_layer 7
    ∷ fs_rule 0 (some (codes "/usr")) 5
    ∷ fs_rule 1 (some (codes "/tmp")) 5
    ∷ net 3
    ∷ net_rule 80 2
    ∷ path_rule scratch (some (codes "/var"))
    ∷ path_rule scratch none
    ∷ bind_rule mount_bind (some (codes "/a")) (some (codes "/b")) true
    ∷ object_rule (some (codes "t")) (some (codes "tmpfs")) (some (some (codes "/mnt") ∷ [])) 1
    ∷ addfd_rule (some (codes "open")) (some (codes "/dev")) (some [])
    ∷ runtime_root (some (codes "/r"))
    ∷ seccomp 1
    ∷ deny_rule (pos 101)
    ∷ []

-- What they build.
abbrev pub document : Document
document = record blank_document {
  fs_layers = some (
      record {
        handled_access_fs = 7;
        rules = some (record { path = some (codes "/usr"); allowed_access = 5 } ∷ []);
      }
      ∷ []);
  net_enabled = true;
  net_handled_access = 3;
  net_rules = some (record { port = 80; allowed_access = 2 } ∷ []);
  broker_scratch_rules = some (some (codes "/var") ∷ []);
  mount_bind_rules =
      some
        (record { source = some (codes "/a"); target = some (codes "/b"); read_only = true } ∷ []);
  broker_mount_object_rules = some (
      record {
        name = some (codes "t");
        fs_type = some (codes "tmpfs");
        allowed_attr_set = 1;
        attach_paths = some (some (codes "/mnt") ∷ []);
      }
      ∷ []);
  broker_addfd_rules =
      some
        (record { action = some (codes "open"); target = some (codes "/dev"); mode = none } ∷ []);
  runtime_root = some (codes "/r");
  seccomp_enabled = true;
  seccomp_errno = 1;
  seccomp_deny_rules = some (record { syscall_nr = pos 101 } ∷ []);
}

built : extended_all calls blank_document ≡ document
unfolding extended
built = refl

pub document-IsDocument : IsDocument document
document-IsDocument = record {
  layers = ((omega arith, ((omega arith, tt), tt)), tt);
  net = (omega arith, (omega arith, tt));
  opens = tt;
  writes = tt;
  scratches = (tt, tt);
  exports = tt;
  broker_tmpfs_mounts = tt;
  broker_binds = tt;
  objects = ((tt, (tt, (tt, (tt, tt)))), tt);
  addfds = ((tt, (tt, tt)), tt);
  tmpfs_mounts = tt;
  binds = ((tt, (tt, tt)), tt);
  proc_mounts = tt;
  root = tt;
  cwd = tt;
  seccomp = (omega arith, (refl, tt));
}

lifecycle-AllFreed_example : AllFreed 0 fresh (lifecycle calls granting fresh)
lifecycle-AllFreed_example = lifecycle-AllFreed calls granting fresh

document_copy-IsCopied_example :
    IsCopied document fresh (document_copy (some document) (some blank_document) granting fresh)
document_copy-IsCopied_example = document_copy-IsCopied document document-IsDocument granting fresh

apply-Implements_example :
    Implements
      (fs_rule 0 (some (codes "/etc")) 4)
      document
      fresh
      (apply (fs_rule 0 (some (codes "/etc")) 4) document refusing fresh)
apply-Implements_example =
    apply-Implements (fs_rule 0 (some (codes "/etc")) 4) document refusing fresh

apply_all-Built_example :
    Built calls blank_document fresh (apply_all calls blank_document granting fresh)
apply_all-Built_example = apply_all-Built calls blank_document granting fresh blank-IsDocument

document_reset-IsReset_example :
    IsReset document fresh (document_reset (some document) granting fresh)
document_reset-IsReset_example = document_reset-IsReset document granting fresh
