-- ===== src/Audit/Fields.antt =====
-- src/landlockd_audit.c, `landlockd_audit_field_string`: a field of the line, as a reader of JSON sees it.
use landlock.Base.{
  ℕ, ◌+◌, ◌^◌, ◌<◌, ◌≤◌, ◌≡◌, refl, ap, ◌∙◌, ◌⊎◌, inl, inr, Bool, true, false, some, List, [], ◌∷◌,
  ◌++◌, length,
}
use landlock.Sys.{World, Outcome, done, failed}
use landlock.Sys.Types.{Kernel, CString}
use landlock.Memory.{items_of}
use landlock.Memory.Blocks.{refusals}
use landlock.Wire.Store.{onto}
use landlock.Wire.Items.{onto-append}
use landlock.Audit.{Buffer, append_all, escaped, field_prefix, field_string}
use landlock.Audit.Json.{read_json}
use landlock.Audit.Utf8.{lead, step, is_utf8, IsUtf8}
use landlock.Audit.Encoded.{escaped-IsUtf8}
use landlock.Audit.Growth.{IsBuffer, Collects, append_all-Collects}
use landlock.Audit.Quoted.{read_json-escaped}

abbrev pub field_blocks : Bool → CString → CString → List (List ℕ)
field_blocks first key value = field_prefix first key ++ escaped (some value)

abbrev pub comma : Bool → List ℕ → List ℕ
comma true bytes = bytes
comma false bytes = b',' ∷ bytes

-- In UTF-8, a JSON string, a colon and a JSON string, with nothing behind them.
abbrev pub IsField : CString → CString → List ℕ → Type 0
IsField key value bytes =
    IsUtf8 bytes
    × (rest : List ℕ) × (read_json bytes ≡ some (key, b':' ∷ rest))
    × (read_json rest ≡ some (value, []))

abbrev pub HasField : Bool → CString → CString → Buffer → World → Outcome Buffer → Type 0
HasField first key value b w (done b' v) =
    IsBuffer b'
    × (((bytes : List ℕ) × (items_of b'.text ≡ items_of b.text ++ comma first bytes)
          × IsField key value bytes)
        ⊎ (refusals w.trace < refusals v.trace))
HasField first key value b w (failed v) = ⊥

field_bytes : CString → CString → List ℕ
field_bytes key value = onto (escaped (some key)) (b':' ∷ onto (escaped (some value)) [])

blocks-bytes :
    (first : Bool) (key value : CString)
    → onto (field_blocks first key value) [] ≡ comma first (field_bytes key value)
unfolding field_bytes field_prefix onto
blocks-bytes true key value =
    onto-append (escaped (some key) ++ ((b':' ∷ []) ∷ [])) (escaped (some value)) []
    ∙ onto-append (escaped (some key)) ((b':' ∷ []) ∷ []) (onto (escaped (some value)) [])
blocks-bytes false key value =
    ap (λ (t : List ℕ). b',' ∷ t)
      (onto-append (escaped (some key) ++ ((b':' ∷ []) ∷ [])) (escaped (some value)) []
        ∙ onto-append (escaped (some key)) ((b':' ∷ []) ∷ []) (onto (escaped (some value)) []))

field-IsUtf8 : (key value : CString) → IsUtf8 key → IsUtf8 value → IsUtf8 (field_bytes key value)
unfolding field_bytes is_utf8 step lead
field-IsUtf8 key value x y =
    escaped-IsUtf8 key (b':' ∷ onto (escaped (some value)) []) x (escaped-IsUtf8 value [] y refl)

collected :
    (first : Bool) (key value : CString) (b : Buffer) (w : World) (o : Outcome Buffer)
    → IsUtf8 key
    → IsUtf8 value
    → Collects (onto (field_blocks first key value) []) b w o
    → HasField first key value b w o
unfolding field_bytes
collected first key value b w (failed v) x y h = h
collected first key value b w (done b' v) x y h = (h.0, seen h.2)
  where
    seen :
        (items_of b'.text ≡ items_of b.text ++ onto (field_blocks first key value) [])
          ⊎ (refusals w.trace < refusals v.trace)
        → ((bytes : List ℕ) × (items_of b'.text ≡ items_of b.text ++ comma first bytes)
            × IsField key value bytes)
          ⊎ (refusals w.trace < refusals v.trace)
    seen (inl e) = inl (
      field_bytes key value,
      e ∙ ap (λ (t : List ℕ). items_of b.text ++ t) (blocks-bytes first key value),
      (
        field-IsUtf8 key value x y,
        onto (escaped (some value)) [],
        read_json-escaped key (b':' ∷ onto (escaped (some value)) []),
        read_json-escaped value [],
      ),
    )
    seen (inr r) = inr r

-- A field whose key and value are UTF-8, added to a line: unless a call for memory is refused, what stands
-- behind the text and the comma between fields is UTF-8, and is a JSON string with the key, a colon and a
-- JSON string with the value, whatever quotes, backslashes and control characters they hold; and the
-- buffer keeps to its capacity. The text with the field and the byte behind it has at most 2^63 bytes.
pub field_string-HasField :
    (first : Bool) (key value : CString) (b : Buffer) (k : Kernel) (w : World)
    → IsUtf8 key
    → IsUtf8 value
    → IsBuffer b
    → length (items_of b.text) + length (onto (field_blocks first key value) []) + 1 ≤ 2 ^ 63
    → HasField first key value b w (field_string (some (first, key)) (some value) b k w)
unfolding field_string
field_string-HasField first key value b k w x y h l =
    collected first key value b w (append_all (field_blocks first key value) b k w) x y
      (append_all-Collects (field_blocks first key value) b k w h l)
