-- ===== src/Daemon/Renewed.antt =====
-- src/landlockd_daemon.c, `landlockd_daemon_cache_get_policy`: a policy that is new to the cache.
use landlock.Base.{
  ◌+◌, ◌-◌, ◌<◌, ◌≡◌, refl, ap, ◌∙◌, arith, inl, inr, false, ltb, if◌then◌else◌, Bool-cases, Option,
  none, some, List, [], ◌∷◌, ◌++◌, length, length-append,
}
use landlock.Sys.{World, Outcome, M, done, failed, pure, attempt, call, answered, ◌>>=◌, ◌>>◌}
use landlock.Sys.Types.{CString, Call, Kernel, Answer, ret, fails}
use landlock.Memory.{frees}
use landlock.Memory.Account.{string_blocks, total}
use landlock.Memory.Blocks.{Leaves}
use landlock.Memory.Releases.{Frees, frees-Releases}
use landlock.Document.Types.{Document}
use landlock.Document.Wellformed.{document_blocks}
use landlock.Daemon.Cache.{
  Stat, CacheEntry, DaemonState, max_cache_entries, entry_reset, stat_matches, Place, locate,
  split_last, evicted, cache_evict_tail, Served, cache_load_entry, pushed, new_entry, looked_up,
  cache_get_policy,
}
use landlock.Daemon.Cached.{
  entry_blocks, state_blocks, entry_reset-Releases, total-append, all_parts, FoundAt,
  locate-FoundAt, split_last_lem,
}
use landlock.Daemon.Serves.{
  IsEntry, IsCache, Loads, Serves, Entered, load_entry-Entered, hit, reset_then,
}

module _ (Loaded : CString → Stat → Document → Type 0) where
  -- There is room for one entry more.
  abbrev HasRoom : DaemonState → World → Outcome DaemonState → Type 0
  HasRoom s w (done s' v) =
      IsCache Loaded s'
      × (length s'.cache < max_cache_entries)
      × Leaves w v (state_blocks s) (state_blocks s')
  HasRoom s w (failed v) = ⊥

  module _ (s : DaemonState) (w : World) (h : IsCache Loaded s) (e : CacheEntry)
      (es : List CacheEntry) (all : s.cache ≡ e ∷ es) where
    entry_freed :
        (k : Kernel) (v : World) (o : Outcome (Unit {0}))
        → Leaves w v (entry_blocks (split_last e es).1) 1
        → Frees 1 v o
        → HasRoom s w (
            ((λ _ _. o)
                >> pure
                    (record s { cache = (split_last e es).0; cache_entries = s.cache_entries - 1 }))
              k v)
    entry_freed k v (failed u) l f = f
    entry_freed k v (done u x) l f =
        let before : List CacheEntry = (split_last e es).0 in
        let last : CacheEntry = (split_last e es).1 in
        let whole : s.cache ≡ before ++ (last ∷ []) = all ∙ split_last_lem e es in
        let as_long : length s.cache ≡ length (before ++ (last ∷ [])) =
          ap (length {A = CacheEntry}) whole in
        let as_many : state_blocks s ≡ total entry_blocks (before ++ (last ∷ [])) =
          ap (total entry_blocks) whole in
        (
          (
            omega (arith, h.0, as_long, length-append before (last ∷ [])),
            omega (arith, h.1, as_long, length-append before (last ∷ [])),
            (all_parts (IsEntry Loaded) before last [] (rw whole at h.2)).0,
          ),
          omega (arith, h.1, as_long, length-append before (last ∷ [])),
          omega (arith, l, f, as_many, total-append before (last ∷ [])),
        )

    last_reset :
        (k : Kernel) (o : Outcome CacheEntry)
        → Frees
            (string_blocks (split_last e es).1.policy_file + document_blocks (split_last e es).1.ir)
            w
            o
        → HasRoom s w (
            ((λ _ _. o)
                >> (frees 1
                    >> pure (record s {
                      cache = (split_last e es).0;
                      cache_entries = s.cache_entries - 1;
                    })))
              k w)
    last_reset k (done x v) f =
        entry_freed k v (frees 1 k v) (omega (arith, f)) (frees-Releases 1 k v)
    last_reset k (failed v) f = f

  evicted-HasRoom :
      (s : DaemonState) (k : Kernel) (w : World) (es : List CacheEntry)
      → IsCache Loaded s
      → s.cache ≡ es
      → ltb s.cache_entries max_cache_entries ≡ false
      → HasRoom s w (evicted s es k w)
  evicted-HasRoom s k w [] h e f =
      let empty : length s.cache ≡ 0 = ap (length {A = CacheEntry}) e in
      absurd (ground (arith, h.0))
  evicted-HasRoom s k w (x ∷ xs) h e f =
      last_reset s w h x xs e k (entry_reset (split_last x xs).1 k w)
        (entry_reset-Releases (split_last x xs).1 k w)

  evict-HasRoom :
      (s : DaemonState) (k : Kernel) (w : World)
      → IsCache Loaded s
      → HasRoom s w (cache_evict_tail s k w)
  unfolding cache_evict_tail
  evict-HasRoom s k w h = elim (Bool-cases (ltb s.cache_entries max_cache_entries)) [
    | inl room ↦
        let less : length s.cache < max_cache_entries = ground (arith, h.0) in
        rw (room, if◌then◌else◌) (h, less, omega arith)
    | inr full ↦ rw (full, if◌then◌else◌) (evicted-HasRoom s k w s.cache h refl full)
  ]

  abbrev pushed_none : DaemonState → M Served
  pushed_none s' = pure (s', none)

  module _ (p : CString) (st : Stat) (s : DaemonState) (w : World)
      (load_file : CString → M Document) where
    block_freed :
        (s' : DaemonState) (k : Kernel) (v : World) (o : Outcome (Unit {0}))
        → IsCache Loaded s'
        → Leaves w v (state_blocks s) (state_blocks s' + 1)
        → Frees 1 v o
        → Serves Loaded p st s w (((λ _ _. o) >> pushed_none s') k v)
    block_freed s' k v (done x u) h l f = (h, omega (arith, l, f))
    block_freed s' k v (failed u) h l f = f

    pushed-Serves :
        (s' : DaemonState) (k : Kernel) (v : World) (o : Outcome CacheEntry)
        → IsCache Loaded s'
        → length s'.cache < max_cache_entries
        → Leaves w v (state_blocks s) (state_blocks s' + 1)
        → Entered Loaded p st v o
        → Serves Loaded p st s w ((attempt (λ _ _. o) >>= pushed load_file s') k v)
    pushed-Serves s' k v (done e u) h room l g =
        (g.1, (ground (arith, h.0), room, (g.0, h.2)), omega (arith, l, g.2))
    pushed-Serves s' k v (failed u) h room l g =
        block_freed s' k u (frees 1 k u) h (omega (arith, l, g)) (frees-Releases 1 k u)

    allocated :
        (s' : DaemonState) (k : Kernel) (v : World) (a : Answer)
        → ((v : World) → Loads Loaded p st v (load_file p k v))
        → IsCache Loaded s'
        → length s'.cache < max_cache_entries
        → Leaves w v (state_blocks s) (state_blocks s')
        → Serves Loaded p st s w
            ((attempt (λ _ _. answered (Call.allocate 1) v a) >>= new_entry load_file p st s') k v)
    allocated s' k v (ret n es) loads h room l =
        let u : World = record v { errno = es; trace = (Call.allocate 1, ret n es) ∷ v.trace } in
        pushed-Serves s' k u (cache_load_entry load_file p st k u) h room (omega (arith, l))
          (load_entry-Entered Loaded p st u load_file k (loads u))
    allocated s' k v (fails e) loads h room l = (h, omega (arith, l))

    room_made :
        (k : Kernel) (o : Outcome DaemonState)
        → ((v : World) → Loads Loaded p st v (load_file p k v))
        → HasRoom s w o
        → Serves Loaded p st s w (
            ((λ _ _. o) >>= λ s'. attempt (call (Call.allocate 1)) >>= new_entry load_file p st s')
              k w)
    room_made k (done s' v) loads h =
        allocated s' k v (k v.trace (Call.allocate 1)) loads h.0 h.1 h.2
    room_made k (failed v) loads h = absurd h

    chosen :
        (k : Kernel) (place : Option Place)
        → ((v : World) → Loads Loaded p st v (load_file p k v))
        → IsCache Loaded s
        → FoundAt p s.cache place
        → Serves Loaded p st s w (looked_up load_file p st s place k w)
    chosen k none loads h f = room_made k (cache_evict_tail s k w) loads (evict-HasRoom s k w h)
    chosen k (some pl) loads h f = elim (Bool-cases (stat_matches pl.entry st)) [
      | inl same ↦ rw (same, if◌then◌else◌) (hit Loaded p st s w h pl f same)
      | inr other ↦
          rw (other, if◌then◌else◌)
            (reset_then Loaded p st s w h load_file pl k (entry_reset pl.entry k w) f loads
              (entry_reset-Releases pl.entry k w))
    ]

-- A request for the policy at a path, whose file is in a given state, keeps the cache well formed: at most
-- 16 entries, as many as the daemon counts, each of which holds what loading its file in its recorded state
-- gave. Whatever document it serves is one that loading the file of this path in this very state gave, be
-- it cached or new, and every block that is added or gone is one of an entry that is added or gone, also
-- where loading fails, a block is refused or the last entry is evicted. It supposes that loading the file
-- leaves the blocks of the document that it gives, or none where it fails.
pub cache_get_policy-Serves :
    (Loaded : CString → Stat → Document → Type 0) (load_file : CString → M Document) (p : CString)
    (st : Stat) (s : DaemonState) (k : Kernel) (w : World)
    → IsCache Loaded s
    → ((v : World) → Loads Loaded p st v (load_file p k v))
    → Serves Loaded p st s w (cache_get_policy load_file p (some st) s k w)
unfolding cache_get_policy
cache_get_policy-Serves Loaded load_file p st s k w h loads =
    chosen Loaded p st s w load_file k (locate p s.cache) loads h (locate-FoundAt p s.cache)
