-- ===== src/Tests/Audit.antt =====
-- A field of the audit log with a quote, an accent and a newline in it.
use landlock.Base.{◌≡◌, refl, arith, inr, [], ◌∷◌, some, true, false, codes}
use landlock.Sys.{fresh}
use landlock.Wire.Store.{onto}
use landlock.Audit.{no_buffer, doubled, escaped, field_string, field_prefix}
use landlock.Audit.Growth.{Enough, doubled-Enough}
use landlock.Audit.Utf8.{ready, lead, step, is_utf8}
use landlock.Audit.Fields.{HasField, field_string-HasField}
use landlock.Tests.Kernels.{granting}

escaped_quote : onto (escaped (some (b'a' ∷ b'"' ∷ 10 ∷ 1 ∷ []))) [] ≡ codes "\"a\\\"\\n\\u0001\""
unfolding escaped onto
escaped_quote = refl

field_string-HasField_example :
    HasField true (codes "path") (b'"' ∷ 0xc3 ∷ 0xa9 ∷ 10 ∷ []) no_buffer fresh (
      field_string
        (some (true, codes "path"))
        (some (b'"' ∷ 0xc3 ∷ 0xa9 ∷ 10 ∷ []))
        no_buffer
        granting
        fresh)
unfolding escaped field_prefix onto is_utf8 step lead
field_string-HasField_example =
    field_string-HasField true (codes "path") (b'"' ∷ 0xc3 ∷ 0xa9 ∷ 10 ∷ []) no_buffer granting
      fresh refl refl (omega arith, inr (refl, refl)) (omega arith)

doubled-Enough_example : Enough 700 (doubled 701 700 256)
doubled-Enough_example =
    doubled-Enough 701 700 256 (omega arith) (omega arith) (omega arith) (omega arith) (omega arith)

-- A lone byte above ASCII goes out as it is, and is no UTF-8.
raw_byte : is_utf8 (onto (escaped (some (0xff ∷ []))) []) ready ≡ false
unfolding escaped onto is_utf8 step lead
raw_byte = refl
