-- ===== src/Tests/Daemon.antt =====
-- A request to run `id -u`, and the cache that serves it.
use landlock.Base.{refl, arith, List, [], ◌∷◌, Option, none, some, codes}
use landlock.Sys.{World, Outcome, M, done, failed, ◌>>=◌, fresh}
use landlock.Sys.Types.{CString}
use landlock.Document.Types.{Document, blank_document}
use landlock.Document.Wellformed.{IsDocument, blank-IsDocument}
use landlock.Wire.File.{load_buffer}
use landlock.Wire.Loaded.{Loaded, load_buffer-Loaded}
use landlock.Wire.Store.{write_ir}
use landlock.Daemon.Cache.{Stat, DaemonState, no_stat, cache_get_policy, cache_cleanup}
use landlock.Daemon.Serves.{Loads, Serves}
use landlock.Daemon.Renewed.{cache_get_policy-Serves}
use landlock.Daemon.Cleaned.{IsFreed, served, served-IsFreed}
use landlock.Wire.Store.{onto}
use landlock.Wire.Parses.{at}
use landlock.Daemon.Requests.{hung_up, broken, is_sendable, run_blocks, receive_run}
use landlock.Daemon.Limits.{IsReceived, receive_run-IsReceived}
use landlock.Daemon.Delivered.{Arrived, receive_run-run_blocks}
use landlock.Tests.Kernels.{granting}

abbrev policy_name : CString
policy_name = codes "p.toml"

abbrev arguments : List CString
arguments = codes "id" ∷ codes "-u" ∷ []

receive_run-run_blocks_example : Arrived policy_name arguments (7 ∷ []) fresh (
    receive_run
      (broken 104)
      2
      6
      granting
      (at (onto (run_blocks policy_name arguments) (7 ∷ [])) blank_document)
      fresh)
unfolding is_sendable
receive_run-run_blocks_example =
    receive_run-run_blocks (broken 104) policy_name arguments (7 ∷ []) granting fresh refl
      (omega arith) (omega arith) (omega arith) (omega arith)

receive_run-IsReceived_example : IsReceived 1 fresh (
    receive_run hung_up 1 2 granting
      (at (b'p' ∷ b'q' ∷ 1 ∷ 0 ∷ 0 ∷ 0 ∷ b'x' ∷ []) blank_document)
      fresh)
receive_run-IsReceived_example =
    receive_run-IsReceived hung_up 1 2 (b'p' ∷ b'q' ∷ 1 ∷ 0 ∷ 0 ∷ 0 ∷ b'x' ∷ []) granting fresh

-- The file of every path holds a policy without rules; the cached entry is of an earlier state of it.
abbrev load_file : CString → M Document
load_file policy_file = load_buffer 0 (onto (write_ir blank_document) []) blank_document

abbrev Sound : CString → Stat → Document → Type 0
Sound p st d = IsDocument d

abbrev serving : DaemonState
serving = record {
  uid = 0;
  cache_entries = 1;
  cache_hits = 0;
  cache_misses = 1;
  cache = record { policy_file = some policy_name; stat = no_stat; ir = blank_document } ∷ [];
}

abbrev touched : Stat
touched = record no_stat { mtime_sec = 5 }

loaded :
    (p : CString) (st : Stat) (w : World) (o : Outcome Document)
    → Loaded 0 w o
    → Loads Sound p st w o
loaded p st w (done d v) h = (h.0, omega (arith, h.1))
loaded p st w (failed v) h = omega (arith, h)

loads : (p : CString) (st : Stat) (w : World) → Loads Sound p st w (load_file p granting w)
loads p st w =
    loaded p st w (load_file p granting w)
      (load_buffer-Loaded 0 (onto (write_ir blank_document) []) granting w)

cache_get_policy-Serves_example :
    Serves Sound policy_name touched serving fresh
      (cache_get_policy load_file policy_name (some touched) serving granting fresh)
cache_get_policy-Serves_example =
    cache_get_policy-Serves Sound load_file policy_name touched serving granting fresh
      (refl, omega arith, (blank-IsDocument, tt)) (loads policy_name touched)

abbrev starting : DaemonState
starting = record { uid = 0; cache_entries = 0; cache_hits = 0; cache_misses = 0; cache = [] }

-- A policy is loaded, served again, loaded anew after a change, and then gone.
abbrev requests : List (CString × Option Stat)
requests =
    (policy_name, some no_stat)
    ∷ (policy_name, some no_stat)
    ∷ (policy_name, some touched)
    ∷ (policy_name, none)
    ∷ []

served-IsFreed_example :
    IsFreed fresh ((served load_file requests starting >>= cache_cleanup) granting fresh)
served-IsFreed_example =
    served-IsFreed Sound load_file requests starting granting fresh loads (refl, omega arith, tt)
      refl
