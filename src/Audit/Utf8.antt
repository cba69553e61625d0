-- ===== src/Audit/Utf8.antt =====
-- UTF-8 (RFC 3629), against which src/landlockd_audit.c is judged, as JSON has to be in it.
use landlock.Base.{
  ℕ, ◌-◌, ◌≡◌, Bool, true, false, ◌==◌, ltb, leb, ◌&&◌, if◌then◌else◌, Option, none, some, List, [],
  ◌∷◌,
}

-- Between characters, or with `left` bytes of one still to come, of which the next is in a range.
pub data State : Type 0 where
  ready : State
  inside : (left low high : ℕ) → State

-- What the first byte of a character asks for: no overlong form, no surrogate, nothing above U+10FFFF.
unfoldable pub lead : ℕ → Option State
lead c =
    if ltb c 0x80
    then some ready
    else if ltb c 0xc2
    then none
    else if ltb c 0xe0
    then some (inside 1 0x80 0xbf)
    else if c == 0xe0
    then some (inside 2 0xa0 0xbf)
    else if c == 0xed
    then some (inside 2 0x80 0x9f)
    else if ltb c 0xf0
    then some (inside 2 0x80 0xbf)
    else if c == 0xf0
    then some (inside 3 0x90 0xbf)
    else if ltb c 0xf4
    then some (inside 3 0x80 0xbf)
    else if c == 0xf4
    then some (inside 3 0x80 0x8f)
    else none

unfoldable pub step : State → ℕ → Option State
unfolding lead
step ready c = lead c
step (inside left low high) c =
    if leb low c && leb c high
    then some (if left == 1 then ready else inside (left - 1) 0x80 0xbf)
    else none

abbrev pub onward : (State → Bool) → Option State → Bool
onward next none = false
onward next (some s) = next s

-- Whether bytes go on, from a state, as characters that are complete.
unfoldable pub is_utf8 : List ℕ → State → Bool
unfolding step
is_utf8 [] ready = true
is_utf8 [] (inside left low high) = false
is_utf8 (c ∷ cs) s = onward (is_utf8 cs) (step s c)

abbrev pub IsUtf8 : List ℕ → Type 0
IsUtf8 bytes = is_utf8 bytes ready ≡ true
