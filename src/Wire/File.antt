-- ===== src/Wire/File.antt =====
-- src/landlock_policy_loader.c: the end of `landlockd_policy_load_file`, where the helper has written its
-- bytes and ended well.
use landlock.Base.{ℕ, List, some}
use landlock.Sys.{M, pure, fail, get_errno, set_errno, ◌>>=◌, ◌>>◌}
use landlock.Memory.{frees}
use landlock.Document.Types.{Document}
use landlock.Document.Reset.{document_reset}
use landlock.Wire.Reader.{Progress, got, lost}
use landlock.Wire.Whole.{load_ir_from_wire}

-- What follows `load_ir_from_wire`; `buffers` of the two are not NULL.
abbrev pub ended : ℕ → Progress (Unit {0}) → M Document
ended buffers (got u c v) k w = (frees buffers >> pure c.doc) k v
ended buffers (lost d v) k w =
    (do
      saved_errno ← get_errno
      left ← document_reset (some d)
      frees buffers
      set_errno saved_errno
      fail)
      k v

unfoldable pub load_buffer : ℕ → List ℕ → Document → M Document
unfolding load_ir_from_wire
load_buffer buffers bytes ir k w =
    ended buffers (load_ir_from_wire k (record { rest = bytes; doc = ir }) w) k w
