-- ===== src/Daemon/Cache.antt =====
-- src/landlockd_daemon.c: the cache of policies. An entry is what `policy_file`, the fields of `struct stat`
-- and `ir` hold; the list is the chain from `cache_head`, and each entry is a block of its own.
use landlock.Base.{ℕ, ◌+◌, ◌-◌, Bool, false, ◌&&◌, ◌==◌, ltb, str_eq, if◌then◌else◌}
use landlock.Base.{Option, none, some, List, [], ◌∷◌, ◌++◌}
use landlock.Sys.{M, done, failed, pure, fail, attempt, call, ◌>>=◌, ◌>>◌}
use landlock.Sys.Types.{CString, Call}
use landlock.Memory.{frees, strdup}
use landlock.Memory.Account.{string_blocks}
use landlock.Document.Types.{Document, blank_document}
use landlock.Document.Reset.{document_reset}

pub record Stat : Type 0 where
  pub dev : ℕ
  pub ino : ℕ
  pub size : ℕ
  pub mtime_sec : ℕ
  pub mtime_nsec : ℕ

-- `struct landlockd_daemon_cache_entry`
pub record CacheEntry : Type 0 where
  pub policy_file : Option CString
  pub stat : Stat
  pub ir : Document

-- `struct landlockd_daemon_state`
pub record DaemonState : Type 0 where
  pub uid : ℕ
  pub cache_entries : ℕ
  pub cache_hits : ℕ
  pub cache_misses : ℕ
  pub cache : List CacheEntry

abbrev pub max_cache_entries : ℕ
max_cache_entries = 16

abbrev pub no_stat : Stat
no_stat = record { dev = 0; ino = 0; size = 0; mtime_sec = 0; mtime_nsec = 0 }

abbrev pub blank_entry : CacheEntry
blank_entry = record { policy_file = none; stat = no_stat; ir = blank_document }

-- `landlockd_daemon_cache_entry_reset`
unfoldable pub entry_reset : CacheEntry → M CacheEntry
unfolding frees document_reset
entry_reset e =
    frees (string_blocks e.policy_file) >> (document_reset (some e.ir) >> pure blank_entry)

-- `landlockd_daemon_cache_stat_matches`
unfoldable pub stat_matches : CacheEntry → Stat → Bool
stat_matches e st =
    e.stat.dev == st.dev
    && (e.stat.ino == st.ino
        && (e.stat.size == st.size
            && (e.stat.mtime_sec == st.mtime_sec && e.stat.mtime_nsec == st.mtime_nsec)))

abbrev pub is_entry_for : CString → CacheEntry → Bool
is_entry_for policy_file e = elim e.policy_file [ none ↦ false | some s ↦ str_eq s policy_file ]

-- The loop over the chain: the entries before the first one for a policy, that one, and those behind it.
pub record Place : Type 0 where
  pub before : List CacheEntry
  pub entry : CacheEntry
  pub behind : List CacheEntry

abbrev pub behind_one : CacheEntry → Option Place → Option Place
behind_one e none = none
behind_one e (some p) = some (record p { before = e ∷ p.before })

unfoldable pub locate : CString → List CacheEntry → Option Place
locate policy_file [] = none
locate policy_file (e ∷ es) =
    if is_entry_for policy_file e
    then some (record { before = []; entry = e; behind = es })
    else behind_one e (locate policy_file es)

-- The last entry, and those before it.
unfoldable pub split_last : CacheEntry → List CacheEntry → List CacheEntry × CacheEntry
split_last e [] = ([], e)
split_last e (x ∷ xs) = let rest = split_last x xs in (e ∷ rest.0, rest.1)

abbrev pub evicted : DaemonState → List CacheEntry → M DaemonState
evicted s [] = pure s
evicted s (e ∷ es) =
    let split = split_last e es in
    entry_reset split.1
    >> (frees 1 >> pure (record s { cache = split.0; cache_entries = s.cache_entries - 1 }))

-- `landlockd_daemon_cache_evict_tail`, of a state that is not NULL.
unfoldable pub cache_evict_tail : DaemonState → M DaemonState
unfolding entry_reset split_last frees
cache_evict_tail s = if ltb s.cache_entries max_cache_entries then pure s else evicted s s.cache

-- A step after which the document is released where it fails.
unfoldable pub or_reset : {A : Type 0} → Document → M A → M A
unfolding document_reset
or_reset d m k w = elim (m k w) [
  | done a v ↦ done a v
  | failed v ↦ (document_reset (some d) >> fail) k v
]

-- What the function gives back: the state, and the document that `*out_ir` points to, or -1.
abbrev pub Served : Type 0
Served = DaemonState × Option Document

-- `landlockd_policy_load_file`, of a path, is a parameter.
module _ (load_file : CString → M Document) where
  -- `landlockd_daemon_cache_load_entry`. Where loading the file fails, it leaves the document of the entry
  -- blank, as `landlockd_policy_load_file` resets it or has not touched it; it is reset once more here.
  unfoldable pub cache_load_entry : CString → Stat → M CacheEntry
  unfolding or_reset
  cache_load_entry policy_file st = do
    d ← or_reset blank_document (load_file policy_file)
    name ← or_reset d (strdup (some policy_file))
    pure (record { policy_file = name; stat = st; ir = d })

  -- The entry in its place is filled anew, or stays blank.
  abbrev pub refilled : DaemonState → Place → Option CacheEntry → M Served
  refilled s p none =
      entry_reset blank_entry
      >> pure (record s { cache = p.before ++ (blank_entry ∷ p.behind) }, none)
  refilled s p (some e) = pure (
    record s { cache = p.before ++ (e ∷ p.behind); cache_misses = s.cache_misses + 1 },
    some e.ir,
  )

  abbrev pub pushed : DaemonState → Option CacheEntry → M Served
  pushed s none = frees 1 >> pure (s, none)
  pushed s (some e) = pure (
    record s {
      cache = e ∷ s.cache;
      cache_entries = s.cache_entries + 1;
      cache_misses = s.cache_misses + 1;
    },
    some e.ir,
  )

  abbrev pub new_entry : CString → Stat → DaemonState → Option ℕ → M Served
  new_entry policy_file st s none = pure (s, none)
  new_entry policy_file st s (some block) = attempt (cache_load_entry policy_file st) >>= pushed s

  abbrev pub looked_up : CString → Stat → DaemonState → Option Place → M Served
  looked_up policy_file st s none = do
    s' ← cache_evict_tail s
    block ← attempt (call (Call.allocate 1))
    new_entry policy_file st s' block
  looked_up policy_file st s (some p) =
      if stat_matches p.entry st
      then pure (record s { cache_hits = s.cache_hits + 1 }, some p.entry.ir)
      else entry_reset p.entry >> (attempt (cache_load_entry policy_file st) >>= refilled s p)

  -- `landlockd_daemon_cache_get_policy`, where no pointer is NULL; `none` is a `stat` that fails.
  unfoldable pub cache_get_policy : CString → Option Stat → DaemonState → M Served
  unfolding locate cache_evict_tail cache_load_entry entry_reset stat_matches frees
  cache_get_policy policy_file none s = pure (s, none)
  cache_get_policy policy_file (some st) s = looked_up policy_file st s (locate policy_file s.cache)

abbrev pub cleaned : List CacheEntry → M (Unit {0})
cleaned [] = pure tt
cleaned (e ∷ es) = entry_reset e >> (frees 1 >> cleaned es)

-- `landlockd_daemon_cache_cleanup`
unfoldable pub cache_cleanup : DaemonState → M DaemonState
unfolding entry_reset frees
cache_cleanup s = cleaned s.cache >> pure (record s { cache = []; cache_entries = 0 })
