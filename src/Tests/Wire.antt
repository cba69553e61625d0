-- ===== src/Tests/Wire.antt =====
-- A policy document on its way from the helper.
use landlock.Base.{refl, arith, List, [], ◌∷◌, replicate}
use landlock.Sys.{fresh}
use landlock.Document.Types.{blank_document}
use landlock.Document.Wellformed.{IsDocument}
use landlock.Output.{WriteAnswer, wrote, interrupted, write_all, write_blocks}
use landlock.Output.Sent.{Completes, write_all-Completes}
use landlock.Wire.File.{load_buffer}
use landlock.Wire.Store.{write_ir, onto}
use landlock.Wire.RoundTrip.{IsWireDocument}
use landlock.Wire.Loaded.{Loaded, load_buffer-Loaded}
use landlock.Wire.Handed.{Handed, load_buffer-write_ir}
use landlock.Wire.Load.{action_is_known}
use landlock.Tests.Document.{document}
use landlock.Tests.Kernels.{granting}

document-IsDocument : IsDocument document
document-IsDocument = record {
  layers = omega arith;
  net = omega arith;
  opens = omega arith;
  writes = omega arith;
  scratches = omega arith;
  exports = omega arith;
  broker_tmpfs_mounts = omega arith;
  broker_binds = omega arith;
  objects = omega arith;
  addfds = omega arith;
  tmpfs_mounts = omega arith;
  binds = omega arith;
  proc_mounts = omega arith;
  root = omega arith;
  cwd = omega arith;
  seccomp = (omega arith, (refl, tt));
}

document-IsWireDocument : IsWireDocument document
unfolding action_is_known
document-IsWireDocument = record {
  layers = omega arith;
  net = omega arith;
  opens = omega arith;
  writes = omega arith;
  scratches = omega arith;
  exports = omega arith;
  broker_tmpfs_mounts = omega arith;
  broker_binds = omega arith;
  objects = omega arith;
  addfds = (omega arith, ((omega arith, omega arith, omega arith, omega arith, refl), tt));
  tmpfs_mounts = omega arith;
  binds = omega arith;
  proc_mounts = omega arith;
  root = omega arith;
  cwd = omega arith;
  seccomp = (omega arith, omega arith, ((refl, omega arith), tt));
}

-- `write` takes at most eight bytes at a time, and is interrupted once.
abbrev by_eights : List WriteAnswer
by_eights = wrote 4 ∷ interrupted ∷ replicate 90 (wrote 8)

load_buffer-write_ir_example :
    Handed document fresh
      (load_buffer 1 (onto (write_ir document) []) blank_document granting fresh)
unfolding write_blocks write_ir onto
load_buffer-write_ir_example =
    load_buffer-write_ir 1 document by_eights granting fresh document-IsDocument
      document-IsWireDocument refl

load_buffer-Loaded_example :
    Loaded 1 fresh (load_buffer 1 (68 ∷ 76 ∷ 80 ∷ []) blank_document granting fresh)
load_buffer-Loaded_example = load_buffer-Loaded 1 (68 ∷ 76 ∷ 80 ∷ []) granting fresh

write_all-Completes_example :
    Completes (1 ∷ 2 ∷ 3 ∷ []) (write_all (wrote 2 ∷ interrupted ∷ wrote 1 ∷ []) (1 ∷ 2 ∷ 3 ∷ []))
write_all-Completes_example =
    write_all-Completes (wrote 2 ∷ interrupted ∷ wrote 1 ∷ []) (1 ∷ 2 ∷ 3 ∷ []) tt (omega arith)
