-- ===== src/Daemon/Cleaned.antt =====
-- src/landlockd_daemon.c: the cache over all the requests that the daemon serves, and its end.
use landlock.Base.{◌+◌, ◌≡◌, refl, ap, arith, Option, none, some, List, [], ◌∷◌}
use landlock.Sys.{World, Outcome, M, done, failed, pure, ◌>>=◌, ◌>>◌}
use landlock.Sys.Types.{CString, Kernel}
use landlock.Memory.{frees}
use landlock.Memory.Account.{string_blocks, total}
use landlock.Memory.Blocks.{Leaves}
use landlock.Memory.Releases.{Frees, Releases, then-Releases, frees-Releases}
use landlock.Document.Types.{Document}
use landlock.Document.Wellformed.{document_blocks}
use landlock.Daemon.Cache.{
  Stat, CacheEntry, DaemonState, Served, entry_reset, cleaned, cache_get_policy, cache_cleanup,
}
use landlock.Daemon.Cached.{entry_blocks, state_blocks, entry_reset-Releases, pure-Releases}
use landlock.Daemon.Serves.{IsCache, Loads, Serves}
use landlock.Daemon.Renewed.{cache_get_policy-Serves}

cleaned-Releases : (es : List CacheEntry) → Releases (total entry_blocks es) (cleaned es)
cleaned-Releases [] = pure-Releases tt
cleaned-Releases (e ∷ es) =
    then-Releases (string_blocks e.policy_file + document_blocks e.ir) (1 + total entry_blocks es)
      (total entry_blocks (e ∷ es)) (omega arith) (entry_reset e) (frees 1 >> cleaned es)
      (entry_reset-Releases e)
      (then-Releases 1 (total entry_blocks es) (1 + total entry_blocks es) refl (frees 1)
        (cleaned es) (frees-Releases 1) (cleaned-Releases es))

-- The requests of clients, each with what `stat` says of its policy, one after the other.
unfoldable pub served :
    (CString → M Document) → List (CString × Option Stat) → DaemonState → M DaemonState
unfolding cache_get_policy
served load_file [] s = pure s
served load_file (r ∷ rs) s = cache_get_policy load_file r.0 r.1 s >>= λ o. served load_file rs o.0

-- The cache is empty, and no block is left that was taken since.
abbrev pub IsFreed : World → Outcome DaemonState → Type 0
IsFreed w (done s v) = (s.cache ≡ []) × (s.cache_entries ≡ 0) × Leaves w v 0 0
IsFreed w (failed v) = ⊥

module _ (Loaded : CString → Stat → Document → Type 0) (load_file : CString → M Document)
    (k : Kernel)
    (loads : (p : CString) (st : Stat) (v : World) → Loads Loaded p st v (load_file p k v)) where
  end-IsFreed :
      (s : DaemonState) (w v : World) (o : Outcome (Unit {0}))
      → Leaves w v 0 (state_blocks s)
      → Frees (state_blocks s) v o
      → IsFreed w (((λ _ _. o) >> pure (record s { cache = []; cache_entries = 0 })) k v)
  end-IsFreed s w v (done u x) l f = (refl, refl, omega (arith, l, f))
  end-IsFreed s w v (failed u) l f = absurd f

  -- The cache stays well formed and has all the blocks.
  abbrev Held : DaemonState → World → Outcome DaemonState → Type 0
  Held s w (done s' v) = IsCache Loaded s' × Leaves w v (state_blocks s) (state_blocks s')
  Held s w (failed v) = ⊥

  from_there :
      (s s' : DaemonState) (w v : World) (o : Outcome DaemonState)
      → Leaves w v (state_blocks s) (state_blocks s')
      → Held s' v o
      → Held s w o
  from_there s s' w v (done t u) l h = (h.0, omega (arith, l, h.1))
  from_there s s' w v (failed u) l h = h

  after_one :
      (p : CString) (st : Stat) (s : DaemonState) (w : World) (o : Outcome Served)
      (next : DaemonState → M DaemonState)
      → Serves Loaded p st s w o
      → ((t : DaemonState) (v : World) → IsCache Loaded t → Held t v (next t k v))
      → Held s w (((λ _ _. o) >>= λ r. next r.0) k w)
  after_one p st s w (done (s', some d) v) next h g =
      from_there s s' w v (next s' k v) h.2 (g s' v h.1)
  after_one p st s w (done (s', none) v) next h g =
      from_there s s' w v (next s' k v) h.1 (g s' v h.0)
  after_one p st s w (failed v) next h g = absurd h

  after_request :
      (p : CString) (o : Option Stat) (s : DaemonState) (w : World)
      (next : DaemonState → M DaemonState)
      → IsCache Loaded s
      → ((t : DaemonState) (v : World) → IsCache Loaded t → Held t v (next t k v))
      → Held s w ((cache_get_policy load_file p o s >>= λ r. next r.0) k w)
  unfolding cache_get_policy
  after_request p none s w next h g = g s w h
  after_request p (some st) s w next h g =
      after_one p st s w (cache_get_policy load_file p (some st) s k w) next
        (cache_get_policy-Serves Loaded load_file p st s k w h (loads p st)) g

  served-Held :
      (rs : List (CString × Option Stat)) (s : DaemonState) (w : World)
      → IsCache Loaded s
      → Held s w (served load_file rs s k w)
  unfolding served
  served-Held [] s w h = (h, omega arith)
  served-Held (r ∷ rs) s w h =
      after_request r.0 r.1 s w (served load_file rs) h (λ t v g. served-Held rs t v g)

  cleaned_up :
      (s : DaemonState) (w : World) (o : Outcome DaemonState)
      → state_blocks s ≡ 0
      → Held s w o
      → IsFreed w (((λ _ _. o) >>= cache_cleanup) k w)
  unfolding cache_cleanup
  cleaned_up s w (done s' v) e h =
      end-IsFreed s' w v (cleaned s'.cache k v) (omega (arith, e, h.1))
        (cleaned-Releases s'.cache k v)
  cleaned_up s w (failed v) e h = h

-- A daemon that starts with an empty cache, serves any requests, whatever `stat` says of their policies,
-- whether they are cached, renewed, evicted, broken or refused for want of memory, and then cleans its
-- cache up, has an empty cache and has given back every block that it took. It supposes that loading a
-- file leaves the blocks of the document that it gives, or none where it fails.
pub served-IsFreed :
    (Loaded : CString → Stat → Document → Type 0) (load_file : CString → M Document)
    (rs : List (CString × Option Stat)) (s : DaemonState) (k : Kernel) (w : World)
    → ((p : CString) (st : Stat) (v : World) → Loads Loaded p st v (load_file p k v))
    → IsCache Loaded s
    → s.cache ≡ []
    → IsFreed w ((served load_file rs s >>= cache_cleanup) k w)
served-IsFreed Loaded load_file rs s k w loads h e =
    cleaned_up Loaded load_file k loads s w (served load_file rs s k w) (ap (total entry_blocks) e)
      (served-Held Loaded load_file k loads rs s w h)
