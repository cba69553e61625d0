-- ===== src/Daemon/Cached.antt =====
-- src/landlockd_daemon.c: what the cache of policies keeps, and whom it serves.
use landlock.Base.{
  ℕ, ◌+◌, ◌≡◌, refl, ap, arith, inl, inr, true, if◌then◌else◌, Bool-cases, Option, none, some, List,
  [], ◌∷◌, ◌++◌,
}
use landlock.Sys.{World, Outcome, done, failed, pure}
use landlock.Sys.Types.{CString}
use landlock.Memory.{frees}
use landlock.Memory.Account.{string_blocks, total, All}
use landlock.Memory.Releases.{Frees, Releases, then-Releases, frees-Releases}
use landlock.Document.Types.{Document}
use landlock.Document.Wellformed.{document_blocks}
use landlock.Document.Reset.{document_reset}
use landlock.Document.ResetLaws.{IsReset, document_reset-IsReset}
use landlock.Daemon.Cache.{
  Stat, CacheEntry, DaemonState, blank_entry, entry_reset, stat_matches, is_entry_for, Place,
  behind_one, locate, split_last,
}

-- The blocks of an entry, and of the cache.
abbrev pub entry_blocks : CacheEntry → ℕ
entry_blocks e = 1 + string_blocks e.policy_file + document_blocks e.ir

abbrev pub state_blocks : DaemonState → ℕ
state_blocks s = total entry_blocks s.cache

reset-Frees :
    (d : Document) (w : World) (o : Outcome (Option Document))
    → IsReset d w o
    → Frees (document_blocks d) w o
reset-Frees d w (done r v) h = h.2
reset-Frees d w (failed v) h = h

pub document_reset-Releases :
    (d : Document) → Releases (document_blocks d) (document_reset (some d))
document_reset-Releases d k w = reset-Frees d w _ (document_reset-IsReset d k w)

pub pure-Releases : {A : Type 0} (a : A) → Releases 0 (pure a)
pure-Releases a k w = (refl, omega arith, refl, refl)

pub entry_reset-Releases :
    (e : CacheEntry) → Releases (string_blocks e.policy_file + document_blocks e.ir) (entry_reset e)
unfolding entry_reset
entry_reset-Releases e =
    then-Releases (string_blocks e.policy_file) (document_blocks e.ir) _ refl
      (frees (string_blocks e.policy_file)) _ (frees-Releases (string_blocks e.policy_file))
      (then-Releases (document_blocks e.ir) 0 (document_blocks e.ir) (omega arith)
        (document_reset (some e.ir)) (pure blank_entry) (document_reset-Releases e.ir)
        (pure-Releases blank_entry))

pub total-append :
    (xs ys : List CacheEntry)
    → total entry_blocks (xs ++ ys) ≡ total entry_blocks xs + total entry_blocks ys
total-append [] ys = omega arith
total-append (x ∷ xs) ys = omega (arith, total-append xs ys)

module _ (P : CacheEntry → Type 0) where
  pub all_parts :
      (xs : List CacheEntry) (y : CacheEntry) (ys : List CacheEntry)
      → All P (xs ++ (y ∷ ys))
      → All P xs × P y × All P ys
  all_parts [] y ys h = (tt, h.0, h.1)
  all_parts (x ∷ xs) y ys h =
      let r : All P xs × P y × All P ys = all_parts xs y ys h.1 in ((h.0, r.0), r.1, r.2)

  pub all_joined :
      (xs : List CacheEntry) (y : CacheEntry) (ys : List CacheEntry)
      → All P xs
      → P y
      → All P ys
      → All P (xs ++ (y ∷ ys))
  all_joined [] y ys h p g = (p, g)
  all_joined (x ∷ xs) y ys h p g = (h.0, all_joined xs y ys h.1 p g)

-- The chain, by the place that the loop finds.
abbrev pub FoundAt : CString → List CacheEntry → Option Place → Type 0
FoundAt policy_file es none = Unit
FoundAt policy_file es (some p) =
    (es ≡ p.before ++ (p.entry ∷ p.behind)) × (is_entry_for policy_file p.entry ≡ true)

later-FoundAt :
    (policy_file : CString) (e : CacheEntry) (es : List CacheEntry) (o : Option Place)
    → FoundAt policy_file es o
    → FoundAt policy_file (e ∷ es) (behind_one e o)
later-FoundAt policy_file e es none h = tt
later-FoundAt policy_file e es (some p) h = (ap (◌∷◌ e) h.0, h.1)

pub locate-FoundAt :
    (policy_file : CString) (es : List CacheEntry) → FoundAt policy_file es (locate policy_file es)
unfolding locate
locate-FoundAt policy_file [] = tt
locate-FoundAt policy_file (e ∷ es) = elim (Bool-cases (is_entry_for policy_file e)) [
  | inl this ↦ rw (this, if◌then◌else◌) (refl, this)
  | inr other ↦
      rw (other, if◌then◌else◌)
        (later-FoundAt policy_file e es (locate policy_file es) (locate-FoundAt policy_file es))
]

pub split_last_lem :
    (e : CacheEntry) (es : List CacheEntry)
    → e ∷ es ≡ (split_last e es).0 ++ ((split_last e es).1 ∷ [])
unfolding split_last
split_last_lem e [] = refl
split_last_lem e (x ∷ xs) = ap (◌∷◌ e) (split_last_lem x xs)

pub same_stat : (e : CacheEntry) (st : Stat) → stat_matches e st ≡ true → e.stat ≡ st
unfolding stat_matches
same_stat e st h = ground arith
