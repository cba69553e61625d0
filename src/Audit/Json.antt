-- ===== src/Audit/Json.antt =====
-- A reader of the grammar of JSON strings (RFC 8259), against which src/landlockd_audit.c is judged. It reads
-- bytes, and takes those above ASCII as they are: whether they are UTF-8 is for Utf8.antt.
use landlock.Base.{
  ℕ, ◌+◌, ◌-◌, ◌*◌, ◌==◌, ltb, leb, ◌&&◌, if◌then◌else◌, Option, none, some, List, [], ◌∷◌,
}

-- The value of a hexadecimal digit.
unfoldable pub hex_value : ℕ → Option ℕ
hex_value c =
    if leb b'0' c && leb c b'9'
    then some (c - b'0')
    else if leb b'a' c && leb c b'f'
    then some (c - 87)
    else if leb b'A' c && leb c b'F'
    then some (c - 55)
    else none

-- What a character behind a backslash stands for; `\u` is read apart.
unfoldable pub meaning : ℕ → Option ℕ
meaning c =
    if c == b'"'
    then some b'"'
    else if c == b'\\'
    then some b'\\'
    else if c == b'/'
    then some b'/'
    else if c == b'b'
    then some 8
    else if c == b'f'
    then some 12
    else if c == b'n'
    then some 10
    else if c == b'r'
    then some 13
    else if c == b't'
    then some 9
    else none

-- Between characters, behind a backslash, and in a number of hexadecimal digits, of which `left` follow.
pub data Mode : Type 0 where
  plain : Mode
  escape : Mode
  unicode : (left value : ℕ) → Mode

-- A string that was read, and what follows its closing quote.
abbrev pub Read : Type 0
Read = Option (List ℕ × List ℕ)

abbrev pub put : ℕ → Read → Read
put c none = none
put c (some p) = some (c ∷ p.0, p.1)

abbrev pub escaping : (Mode → Read) → Option ℕ → Read
escaping next none = none
escaping next (some c) = put c (next plain)

abbrev pub hexing : (Mode → Read) → ℕ → ℕ → Option ℕ → Read
hexing next left value none = none
hexing next left value (some v) =
    if left == 1
    then put (value * 16 + v) (next plain)
    else next (unicode (left - 1) (value * 16 + v))

unfoldable pub read_character : Mode → ℕ → List ℕ → (Mode → Read) → Read
unfolding hex_value meaning
read_character plain c cs next =
    if c == b'"'
    then some ([], cs)
    else if c == b'\\'
    then next escape
    else if ltb c 0x20
    then none
    else put c (next plain)
read_character escape c cs next =
    if c == b'u' then next (unicode 4 0) else escaping next (meaning c)
read_character (unicode left value) c cs next = hexing next left value (hex_value c)

unfoldable pub read_string : List ℕ → Mode → Read
unfolding read_character
read_string [] m = none
read_string (c ∷ cs) m = read_character m c cs (read_string cs)

-- From the opening quote on.
unfoldable pub read_json : List ℕ → Read
unfolding read_string
read_json [] = none
read_json (c ∷ cs) = if c == b'"' then read_string cs plain else none
