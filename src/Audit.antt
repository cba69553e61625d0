-- ===== src/Audit.antt =====
-- src/landlockd_audit.c: the line of JSON that the daemon and the executor write of an event.
pub mod Json
pub mod Utf8
pub mod Encoded
pub mod Growth
pub mod Quoted
pub mod Fields
use landlock.Base.{
  ℕ, ℤ, pos, negsuc, zero, suc, ◌+◌, ◌*◌, ◌/◌, ◌%◌, ◌^◌, Bool, true, false, ◌==◌, ltb, leb,
  if◌then◌else◌, codes,
}
use landlock.Base.{Option, none, some, List, [], ◌∷◌, ◌++◌, length, map}
use landlock.Sys.{M, pure, attempt, call, ◌>>=◌, ◌>>◌}
use landlock.Sys.Types.{CString, Call}
use landlock.Memory.{Array, items_of, is_absent, frees}
use landlock.Output.{WriteAnswer, Sending, write_all}

-- `landlockd_audit_buf`, whose length is `landlockd_audit_len`, and `landlockd_audit_cap`.
pub record Buffer : Type 0 where
  pub text : Array ℕ
  pub cap : ℕ

abbrev pub no_buffer : Buffer
no_buffer = record { text = none; cap = 0 }

-- `while (landlockd_audit_len + len + 1 > new_cap) new_cap *= 2;`, on a 64-bit `size_t`.
unfoldable pub doubled : ℕ → ℕ → ℕ → Option ℕ
doubled zero need new_cap = none
doubled (suc fuel) need new_cap =
    let rest = doubled fuel need (new_cap * 2 % 2 ^ 64) in
    if ltb new_cap need then rest else some new_cap

abbrev pub extended_by : List ℕ → ℕ → Buffer → Option ℕ → Buffer
extended_by bytes new_cap b none = b
extended_by bytes new_cap b (some block) = record {
  text = some (items_of b.text ++ bytes);
  cap = new_cap;
}

-- The fuel is more than the rounds of the loop, which at least adds 1 in each.
abbrev pub reallocated : List ℕ → Buffer → Option ℕ → M Buffer
reallocated bytes b none = pure b
reallocated bytes b (some new_cap) =
    attempt (call (Call.reallocate (is_absent b.text) new_cap)) >>= λ r.
    pure (extended_by bytes new_cap b r)

-- `landlockd_audit_append`; no caller looks at its result, so that it is the buffer alone.
unfoldable pub audit_append : List ℕ → Buffer → M Buffer
unfolding doubled
audit_append bytes b =
    let need = length (items_of b.text) + length bytes + 1 in
    if length bytes == 0
    then pure b
    else if leb need b.cap
    then pure (record b { text = some (items_of b.text ++ bytes) })
    else reallocated bytes b (doubled (suc need) need (if b.cap == 0 then 256 else b.cap))

unfoldable pub append_all : List (List ℕ) → Buffer → M Buffer
unfolding audit_append
append_all [] b = pure b
append_all (c ∷ cs) b = audit_append c b >>= append_all cs

-- A digit of `%x`.
abbrev pub hex_digit : ℕ → ℕ
hex_digit n = if ltb n 10 then 48 + n else 87 + n

-- The cases of the `switch`.
unfoldable pub escaped_byte : ℕ → List ℕ
escaped_byte c =
    if c == b'"'
    then b'\\' ∷ b'"' ∷ []
    else if c == b'\\'
    then b'\\' ∷ b'\\' ∷ []
    else if c == 8
    then b'\\' ∷ b'b' ∷ []
    else if c == 12
    then b'\\' ∷ b'f' ∷ []
    else if c == 10
    then b'\\' ∷ b'n' ∷ []
    else if c == 13
    then b'\\' ∷ b'r' ∷ []
    else if c == 9
    then b'\\' ∷ b't' ∷ []
    else if ltb c 0x20
    then b'\\' ∷ b'u' ∷ b'0' ∷ b'0' ∷ hex_digit (c / 16) ∷ hex_digit (c % 16) ∷ []
    else c ∷ []

-- `landlockd_audit_emit_escaped`
unfoldable pub escaped : Option CString → List (List ℕ)
unfolding escaped_byte
escaped none = codes "null" ∷ []
escaped (some value) = (b'"' ∷ []) ∷ (map escaped_byte value ++ ((b'"' ∷ []) ∷ []))

-- `landlockd_audit_field_prefix`
unfoldable pub field_prefix : Bool → CString → List (List ℕ)
unfolding escaped
field_prefix true key = escaped (some key) ++ ((b':' ∷ []) ∷ [])
field_prefix false key = (b',' ∷ []) ∷ (escaped (some key) ++ ((b':' ∷ []) ∷ []))

-- A field, in a line that is begun: `none` stands for a NULL among `diag`, `first_field` and `key`, with
-- which the functions do nothing. The flag `*first_field` is then false.
abbrev pub add_field : Option (Bool × CString) → List (List ℕ) → Buffer → M Buffer
add_field none value b = pure b
add_field (some p) value b = append_all (field_prefix p.0 p.1 ++ value) b

-- `landlockd_audit_field_string`
unfoldable pub field_string : Option (Bool × CString) → Option CString → Buffer → M Buffer
unfolding append_all field_prefix
field_string at value = add_field at (escaped value)

-- `snprintf` of the C library: the text of a number.
module _ (printed : ℤ → List ℕ) where
  -- `landlockd_audit_field_int` and, of numbers that are not negative, `landlockd_audit_field_uint`
  unfoldable pub field_int : Option (Bool × CString) → ℤ → Buffer → M Buffer
  unfolding append_all field_prefix
  field_int at value = add_field at (printed value ∷ [])

abbrev pub job_field : Option CString → Buffer → M Buffer
job_field none b = pure b
job_field (some id) b = field_string (some (false, codes "job_id")) (some id) b

-- `landlockd_audit_begin`, of a stream and a flag that are not NULL: the buffer of a line that was not ended
-- is freed. The time and the environment's job are arguments.
unfoldable pub audit_begin : Option CString → CString → Option CString → Buffer → M Buffer
unfolding append_all field_string frees
audit_begin event timestamp job_id b = do
  freed ← frees (if is_absent b.text then 0 else 1)
  b1 ← audit_append (b'{' ∷ []) no_buffer
  b2 ← field_string (some (true, codes "component")) (some (codes "landlockd")) b1
  b3 ← field_string (some (false, codes "event")) event b2
  b4 ← field_string (some (false, codes "timestamp")) (some timestamp) b3
  job_field job_id b4

-- The line, as far as it goes out; `none` where the stream of the line is NULL or has no descriptor, so that
-- nothing is written.
abbrev pub sent_line : Option (List WriteAnswer) → List ℕ → Option Sending
sent_line none line = none
sent_line (some answers) line = some (write_all answers line)

-- `landlockd_audit_end`: the line as it goes out, and the buffer that is left.
unfoldable pub audit_end : Option (List WriteAnswer) → Buffer → M (Option Sending × Buffer)
unfolding audit_append write_all frees
audit_end answers b = do
  line ← audit_append (codes "}" ++ (10 ∷ [])) b
  freed ← frees (if is_absent line.text then 0 else 1)
  pure (sent_line answers (items_of line.text), no_buffer)
