-- ===== src/Audit/Quoted.antt =====
-- src/landlockd_audit.c, `landlockd_audit_emit_escaped`: a value as a JSON string.
use landlock.Base.{
  ℕ, ◌+◌, ◌*◌, ◌/◌, ◌%◌, ◌<◌, ◌≡◌, ◌⊎◌, refl, ap, ◌∙◌, arith, inl, inr, false, ltb, ◌==◌,
  if◌then◌else◌, Bool-cases, some, List, [], ◌∷◌, ◌++◌, map,
}
use landlock.Sys.Types.{CString}
use landlock.Wire.Store.{onto}
use landlock.Audit.{hex_digit, escaped_byte, escaped}
use landlock.Audit.Json.{hex_value, plain, put, read_string, read_json}

hex_value-hex_digit : (n : ℕ) → n < 16 → hex_value (hex_digit n) ≡ some n
unfolding hex_value
hex_value-hex_digit n h = ground arith

-- A control character that has no letter of its own.
read_control :
    (c : ℕ) (rest : List ℕ)
    → c < 32
    → read_string
        (b'\\' ∷ b'u' ∷ b'0' ∷ b'0' ∷ hex_digit (c / 16) ∷ hex_digit (c % 16) ∷ rest)
        plain
      ≡ put c (read_string rest plain)
unfolding read_string
read_control c rest h =
    let high : hex_value (hex_digit (c / 16)) ≡ some (c / 16) =
      hex_value-hex_digit (c / 16) (omega arith) in
    let low : hex_value (hex_digit (c % 16)) ≡ some (c % 16) =
      hex_value-hex_digit (c % 16) (omega arith) in
    let value : (0 + c / 16) * 16 + c % 16 ≡ c = omega arith in rw (high, low, value) refl

-- A test on a byte.
is_byte : (c n : ℕ) → (c ≡ n) ⊎ ((c == n) ≡ false)
is_byte c n = ground arith

-- A character that stands for itself.
read_plain :
    (c : ℕ) (rest : List ℕ)
    → (c == b'"') ≡ false
    → (c == b'\\') ≡ false
    → ltb c 0x20 ≡ false
    → read_string (c ∷ rest) plain ≡ put c (read_string rest plain)
unfolding read_string
read_plain c rest h g l = rw (h, g, l) refl

-- The last two cases of the `switch`.
read_default :
    (c : ℕ) (rest : List ℕ)
    → (c == b'"') ≡ false
    → (c == b'\\') ≡ false
    → read_string
        ((if ltb c 0x20
            then b'\\' ∷ b'u' ∷ b'0' ∷ b'0' ∷ hex_digit (c / 16) ∷ hex_digit (c % 16) ∷ []
            else c ∷ [])
          ++ rest)
        plain
      ≡ put c (read_string rest plain)
read_default c rest h g = elim (Bool-cases (ltb c 0x20)) [
  | inl control ↦
      let low : c < 32 = ground arith in rw (control, if◌then◌else◌) (read_control c rest low)
  | inr other ↦ rw (other, if◌then◌else◌) (read_plain c rest h g other)
]

-- The cases with a letter of their own.
read_letters :
    (c : ℕ) (rest : List ℕ)
    → (c == b'"') ≡ false
    → (c == b'\\') ≡ false
    → read_string (escaped_byte c ++ rest) plain ≡ put c (read_string rest plain)
unfolding escaped_byte read_string
read_letters c rest h g = elim (is_byte c 8) [
  | inl e ↦ rw e refl
  | inr n8 ↦ elim (is_byte c 12) [
    | inl e ↦ rw e refl
    | inr n12 ↦ elim (is_byte c 10) [
      | inl e ↦ rw e refl
      | inr n10 ↦ elim (is_byte c 13) [
        | inl e ↦ rw e refl
        | inr n13 ↦ elim (is_byte c 9) [
          | inl e ↦ rw e refl
          | inr n9 ↦ rw (h, g, n8, n12, n10, n13, n9, if◌then◌else◌) (read_default c rest h g)
        ]
      ]
    ]
  ]
]

read_escaped_byte :
    (c : ℕ) (rest : List ℕ)
    → read_string (escaped_byte c ++ rest) plain ≡ put c (read_string rest plain)
unfolding read_string escaped_byte
read_escaped_byte c rest = elim (is_byte c 34) [
  | inl e ↦ rw e refl
  | inr quote ↦ elim (is_byte c 92) [
    | inl e ↦ rw e refl
    | inr backslash ↦ read_letters c rest quote backslash
  ]
]

read_bytes :
    (value : CString) (rest : List ℕ)
    → read_string (onto (map escaped_byte value ++ ((b'"' ∷ []) ∷ [])) rest) plain
      ≡ some (value, rest)
unfolding read_string onto
read_bytes [] rest = refl
read_bytes (c ∷ cs) rest =
    read_escaped_byte c (onto (map escaped_byte cs ++ ((b'"' ∷ []) ∷ [])) rest)
    ∙ ap (put c) (read_bytes cs rest)

-- What the audit log writes of a value, whatever its bytes, fits the grammar of one JSON string, encoding
-- aside: a reader gets the value back, and what follows it in the line as it is.
pub read_json-escaped :
    (value : CString) (rest : List ℕ)
    → read_json (onto (escaped (some value)) rest) ≡ some (value, rest)
unfolding read_json escaped onto
read_json-escaped value rest = read_bytes value rest
