-- ===== src/Sys/Descriptors.antt =====
-- The descriptors that a process was given and has closed, counted in its history of calls. On Linux
-- `close` releases the descriptor also where it reports an error.
use landlock.Base.{
  ℕ, pos, ◌+◌, ◌<◌, ◌^◌, ◌≡◌, List, [], ◌∷◌, Bool, false, true, ◌==◌, ◌&&◌, bit_and,
}
use landlock.Base.{if◌then◌else◌}
use landlock.Sys.Types.{Call, Answer, ret, fails, Event, Kernel}

-- The calls whose result is a new descriptor: a ruleset (not the question for the version), a filter
-- with a listener, an open file.
abbrev pub opens : Call → Bool
opens (Call.create_ruleset attr size flags) = bit_and flags 1 == 0
opens (Call.set_filter flags prog) = flags == 8
opens (Call.open_path path) = true
opens _ = false

abbrev pub opened : ℕ → List Event → ℕ
opened n [] = 0
opened n ((c, ret v e) ∷ t) = (if opens c && v == n then 1 else 0) + opened n t
opened n ((c, fails e) ∷ t) = opened n t

abbrev closes : ℕ → Call → ℕ
closes n (Call.close (pos fd)) = if fd == n then 1 else 0
closes n _ = 0

abbrev pub closed : ℕ → List Event → ℕ
closed n [] = 0
closed n ((c, a) ∷ t) = closes n c + closed n t

-- A descriptor is an `int`.
abbrev pub IsInt : Answer → Type 0
IsInt (ret v e) = v < 2 ^ 31
IsInt (fails e) = Unit

abbrev pub DescriptorsFit : Kernel → Type 0
DescriptorsFit k = (t : List Event) (c : Call) → opens c ≡ true → IsInt (k t c)
