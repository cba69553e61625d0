-- ===== src/Daemon/Serves.antt =====
-- src/landlockd_daemon.c, `landlockd_daemon_cache_get_policy`: whom the cache serves, and with what.
use landlock.Base.{
  ℕ, ◌+◌, ◌≤◌, ◌≡◌, ap, arith, true, false, str_eq, str_eq→eq, Option, none, some, ◌∷◌, ◌++◌,
  length, length-append,
}
use landlock.Sys.{World, Outcome, M, done, failed, pure, fail, attempt, ◌>>=◌, ◌>>◌}
use landlock.Sys.Types.{CString, Kernel}
use landlock.Memory.{strdup}
use landlock.Memory.Account.{string_blocks, total, All}
use landlock.Memory.Blocks.{Leaves}
use landlock.Memory.Gains.{Gains, Is, strdup-Takes}
use landlock.Memory.Releases.{Frees}
use landlock.Document.Types.{Document, blank_document}
use landlock.Document.Wellformed.{document_blocks}
use landlock.Document.Reset.{document_reset}
use landlock.Daemon.Cache.{
  Stat, CacheEntry, DaemonState, max_cache_entries, blank_entry, entry_reset, stat_matches, Place,
  or_reset, Served, cache_load_entry, refilled,
}
use landlock.Daemon.Cached.{
  entry_blocks, state_blocks, document_reset-Releases, entry_reset-Releases, total-append,
  all_parts, all_joined, FoundAt, same_stat,
}

-- `Loaded p st d` says that loading the file at the path `p`, in the state `st`, gave the document `d`.
module _ (Loaded : CString → Stat → Document → Type 0) where
  abbrev pub EntryOf : Option CString → Stat → Document → Type 0
  EntryOf none st d = Unit
  EntryOf (some p) st d = Loaded p st d

  -- An entry without a policy is one whose reload failed.
  abbrev pub IsEntry : CacheEntry → Type 0
  IsEntry e = EntryOf e.policy_file e.stat e.ir

  abbrev pub IsCache : DaemonState → Type 0
  IsCache s =
      (s.cache_entries ≡ length s.cache)
      × (length s.cache ≤ max_cache_entries)
      × All IsEntry s.cache

  -- What `landlockd_policy_load_file` does.
  abbrev pub Loads : CString → Stat → World → Outcome Document → Type 0
  Loads p st w (done d v) = Loaded p st d × Leaves w v 0 (document_blocks d)
  Loads p st w (failed v) = Leaves w v 0 0

  -- What is served was loaded from the file of this path in this state, and the cache is well formed and
  -- has all blocks; or nothing is served, with the same for the cache.
  abbrev pub Serves : CString → Stat → DaemonState → World → Outcome Served → Type 0
  Serves p st s w (done (s', some d) v) =
      Loaded p st d × IsCache s' × Leaves w v (state_blocks s) (state_blocks s')
  Serves p st s w (done (s', none) v) = IsCache s' × Leaves w v (state_blocks s) (state_blocks s')
  Serves p st s w (failed v) = ⊥

  abbrev pub Entered : CString → Stat → World → Outcome CacheEntry → Type 0
  Entered p st w (done e v) =
      IsEntry e
      × Loaded p st e.ir
      × Leaves w v 0 (string_blocks e.policy_file + document_blocks e.ir)
  Entered p st w (failed v) = Leaves w v 0 0

  module _ (p : CString) (st : Stat) (w : World) where
    reset_failed :
        (d : Document) (k : Kernel) (v : World) (o : Outcome (Option Document))
        → Leaves w v 0 (document_blocks d)
        → Frees (document_blocks d) v o
        → Entered p st w (
            (((λ _ _. o) >> fail {A = Option CString}) >>= λ name.
            pure (record { policy_file = name; stat = st; ir = d }))
              k v)
    reset_failed d k v (done r u) l f = omega (arith, l, f)
    reset_failed d k v (failed u) l f = absurd f

    named :
        (d : Document) (k : Kernel) (v : World) (o : Outcome (Option CString))
        → Loaded p st d
        → Leaves w v 0 (document_blocks d)
        → Gains Unit 0 1 (Is (some p)) v o
        → Entered p st w (
            (or_reset d (λ _ _. o) >>= λ name.
            pure (record { policy_file = name; stat = st; ir = d }))
              k v)
    unfolding or_reset
    named d k v (done n u) q l g = rw (g.0) (q, q, omega (arith, l, g.1))
    named d k v (failed u) q l g =
        reset_failed d k u (document_reset (some d) k u) (omega (arith, l, g.0))
          (document_reset-Releases d k u)

    blank_reset :
        (k : Kernel) (v : World) (o : Outcome (Option Document))
        → Leaves w v 0 0
        → Frees (document_blocks blank_document) v o
        → Entered p st w (
            (((λ _ _. o) >> fail {A = Document}) >>= λ d. or_reset d (strdup (some p)) >>= λ name.
            pure (record { policy_file = name; stat = st; ir = d }))
              k v)
    blank_reset k v (done r u) l f = omega (arith, l, f)
    blank_reset k v (failed u) l f = absurd f

    entered :
        (k : Kernel) (o : Outcome Document)
        → Loads p st w o
        → Entered p st w (
            (or_reset blank_document (λ _ _. o) >>= λ d. or_reset d (strdup (some p)) >>= λ name.
            pure (record { policy_file = name; stat = st; ir = d }))
              k w)
    unfolding or_reset
    entered k (done d v) h =
        named d k v (strdup (some p) k v) h.0 h.1 (strdup-Takes Unit (some p) k v)
    entered k (failed v) h =
        blank_reset k v (document_reset (some blank_document) k v) h
          (document_reset-Releases blank_document k v)

    pub load_entry-Entered :
        (load_file : CString → M Document) (k : Kernel)
        → Loads p st w (load_file p k w)
        → Entered p st w (cache_load_entry load_file p st k w)
    unfolding cache_load_entry
    load_entry-Entered load_file k h = entered k (load_file p k w) h

  module _ (p : CString) (st : Stat) (s : DaemonState) (w : World) (h : IsCache s) where
    from_entry :
        (name : Option CString) (old : Stat) (ir : Document)
        → EntryOf name old ir
        → (elim name [ none ↦ false | some t ↦ str_eq t p ]) ≡ true
        → old ≡ st
        → Loaded p st ir
    from_entry none old ir l m e = cc
    from_entry (some t) old ir l m e = let same : t ≡ p = str_eq→eq t p m in rw (same, e) at l

    pub hit :
        (pl : Place)
        → FoundAt p s.cache (some pl)
        → stat_matches pl.entry st ≡ true
        → Serves p st s w (done (record s { cache_hits = s.cache_hits + 1 }, some pl.entry.ir) w)
    hit pl f m =
        let here : IsEntry pl.entry =
          (all_parts IsEntry pl.before pl.entry pl.behind (rw f.0 at h.2)).1 in
        (
          from_entry pl.entry.policy_file pl.entry.stat pl.entry.ir here f.1
              (same_stat pl.entry st m),
          h,
          omega arith,
        )

    -- The cache with another entry in a place.
    replaced :
        (pl : Place) (e : CacheEntry) (misses : ℕ) (v : World)
        → FoundAt p s.cache (some pl)
        → IsEntry e
        → Leaves w v (entry_blocks pl.entry) (entry_blocks e)
        → let s' = record s { cache = pl.before ++ (e ∷ pl.behind); cache_misses = misses } in
          IsCache s' × Leaves w v (state_blocks s) (state_blocks s')
    replaced pl e misses v f g l =
        let parts : All IsEntry pl.before × IsEntry pl.entry × All IsEntry pl.behind =
          all_parts IsEntry pl.before pl.entry pl.behind (rw f.0 at h.2) in
        let as_long : length s.cache ≡ length (pl.before ++ (pl.entry ∷ pl.behind)) =
          ap (length {A = CacheEntry}) f.0 in
        let as_many : state_blocks s ≡ total entry_blocks (pl.before ++ (pl.entry ∷ pl.behind)) =
          ap (total entry_blocks) f.0 in
        (
          (
            omega (
              arith,
              h.0,
              as_long,
              length-append pl.before (pl.entry ∷ pl.behind),
              length-append pl.before (e ∷ pl.behind),
            ),
            omega (
              arith,
              h.1,
              as_long,
              length-append pl.before (pl.entry ∷ pl.behind),
              length-append pl.before (e ∷ pl.behind),
            ),
            all_joined IsEntry pl.before e pl.behind parts.0 g parts.2,
          ),
          omega (
            arith,
            l,
            as_many,
            total-append pl.before (pl.entry ∷ pl.behind),
            total-append pl.before (e ∷ pl.behind),
          ),
        )

    left_blank :
        (pl : Place) (k : Kernel) (v : World) (o : Outcome CacheEntry)
        → FoundAt p s.cache (some pl)
        → Leaves w v (entry_blocks pl.entry) 1
        → Frees 0 v o
        → Serves p st s w (
            ((λ _ _. o)
                >> pure {A = Served}
                    (record s { cache = pl.before ++ (blank_entry ∷ pl.behind) }, none))
              k v)
    left_blank pl k v (done e u) f l g =
        replaced pl blank_entry s.cache_misses u f tt (omega (arith, l, g))
    left_blank pl k v (failed u) f l g = absurd g

    refilled-Serves :
        (load_file : CString → M Document) (pl : Place) (k : Kernel) (v : World)
        (o : Outcome CacheEntry)
        → FoundAt p s.cache (some pl)
        → Leaves w v (entry_blocks pl.entry) 1
        → Entered p st v o
        → Serves p st s w ((attempt (λ _ _. o) >>= refilled load_file s pl) k v)
    refilled-Serves load_file pl k v (done e u) f l g =
        let more : Leaves v u 1 (entry_blocks e) = omega (arith, g.2) in
        let kept = replaced pl e (s.cache_misses + 1) u f g.0 (omega (arith, l, more)) in
        (g.1, kept.0, kept.1)
    refilled-Serves load_file pl k v (failed u) f l g =
        left_blank pl k u (entry_reset blank_entry k u) f (omega (arith, l, g))
          (entry_reset-Releases blank_entry k u)

    pub reset_then :
        (load_file : CString → M Document) (pl : Place) (k : Kernel) (o : Outcome CacheEntry)
        → FoundAt p s.cache (some pl)
        → ((v : World) → Loads p st v (load_file p k v))
        → Frees (string_blocks pl.entry.policy_file + document_blocks pl.entry.ir) w o
        → Serves p st s w (
            ((λ _ _. o) >> (attempt (cache_load_entry load_file p st) >>= refilled load_file s pl))
              k w)
    reset_then load_file pl k (done e v) f l g =
        refilled-Serves load_file pl k v (cache_load_entry load_file p st k v) f (omega (arith, g))
          (load_entry-Entered p st v load_file k (l v))
    reset_then load_file pl k (failed v) f l g = absurd g
