-- ===== src/Memory/Blocks.antt =====
-- The blocks of the heap, counted in the history of calls.
use landlock.Base.{ℕ, zero, suc, ◌<◌, ◌+◌, ◌≡◌, List, [], ◌∷◌, true, Option, none, some}
use landlock.Sys.{World}
use landlock.Sys.Types.{Call, ret, fails, Event}

-- The calls that take a block when they succeed: a `realloc` does, of NULL.
abbrev pub takes : Call → ℕ
takes (Call.allocate n) = 1
takes (Call.duplicate s) = 1
takes (Call.reallocate true n) = 1
takes (Call.resolve path) = 1
takes _ = 0

abbrev pub taken : List Event → ℕ
taken [] = 0
taken ((c, ret v e) ∷ t) = takes c + taken t
taken ((c, fails e) ∷ t) = taken t

abbrev pub gives_back : Call → ℕ
gives_back Call.free = 1
gives_back _ = 0

abbrev pub freed : List Event → ℕ
freed [] = 0
freed ((c, a) ∷ t) = gives_back c + freed t

-- Of the blocks that were taken between `w` and `v`, and of `before` that were there, `after` are left.
abbrev pub Leaves : World → World → ℕ → ℕ → Type 0
Leaves w v before after =
    taken v.trace + freed w.trace + before ≡ taken w.trace + freed v.trace + after

-- The calls for memory that were refused.
abbrev pub asks : Call → ℕ
asks (Call.reallocate null n) = 1
asks c = takes c

abbrev pub refusals : List Event → ℕ
refusals [] = 0
refusals ((c, ret v e) ∷ t) = refusals t
refusals ((c, fails e) ∷ t) = asks c + refusals t

-- The error number of the last refusal.
abbrev refused : ℕ → ℕ → Option ℕ → Option ℕ
refused zero e before = before
refused (suc n) e before = some e

abbrev pub newest_refusal : List Event → Option ℕ
newest_refusal [] = none
newest_refusal ((c, ret v e) ∷ t) = newest_refusal t
newest_refusal ((c, fails e) ∷ t) = refused (asks c) e (newest_refusal t)

-- Between `w` and `v` a call for memory was refused, and `errno` is what the last refusal left.
abbrev pub Refused : World → World → Type 0
Refused w v = (refusals w.trace < refusals v.trace) × (newest_refusal v.trace ≡ some v.errno)
