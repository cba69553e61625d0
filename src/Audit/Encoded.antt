-- ===== src/Audit/Encoded.antt =====
-- src/landlockd_audit.c, `landlockd_audit_emit_escaped`: what it writes of UTF-8 is UTF-8.
use landlock.Base.{
  ℕ, ◌<◌, ◌≤◌, ◌≡◌, refl, ap, sym, ◌∙◌, arith, inl, inr, Bool, true, false, ltb, Bool-cases, Option,
  none, some, List, [], ◌∷◌, ◌++◌, map,
}
use landlock.Sys.Types.{CString}
use landlock.Memory.Account.{All}
use landlock.Wire.Store.{onto}
use landlock.Audit.{escaped_byte, escaped}
use landlock.Audit.Utf8.{State, ready, inside, onward, lead, step, is_utf8, IsUtf8}

lead_ascii : (c : ℕ) → c < 128 → lead c ≡ some ready
unfolding lead
lead_ascii c h = ground arith

escaped-ascii : (c : ℕ) → c < 128 → All (λ b. b < 128) (escaped_byte c)
unfolding escaped_byte
escaped-ascii c h = ground arith

after_ascii :
    (xs rest : List ℕ) → All (λ b. b < 128) xs → is_utf8 (xs ++ rest) ready ≡ is_utf8 rest ready
unfolding is_utf8 step
after_ascii [] rest h = refl
after_ascii (x ∷ xs) rest h =
    ap (onward (is_utf8 (xs ++ rest))) (lead_ascii x h.0) ∙ after_ascii xs rest h.1

escaped_high : (c : ℕ) → 128 ≤ c → escaped_byte c ≡ c ∷ []
unfolding escaped_byte
escaped_high c h = ground arith

-- A low byte inside a character is refused.
low_inside : (left low high c : ℕ) → 128 ≤ low → c < 128 → step (inside left low high) c ≡ none
unfolding step
low_inside left low high c l h = ground arith

-- The bytes that may follow are not ASCII.
abbrev IsHigh : State → Type 0
IsHigh ready = Unit
IsHigh (inside left low high) = 128 ≤ low

abbrev AllHigh : Option State → Type 0
AllHigh none = Unit
AllHigh (some s) = IsHigh s

lead-AllHigh : (c : ℕ) → AllHigh (lead c)
unfolding lead
lead-AllHigh c = ground arith

step-AllHigh : (s : State) (c : ℕ) → AllHigh (step s c)
unfolding step
step-AllHigh ready c = lead-AllHigh c
step-AllHigh (inside left low high) c = ground arith

onward-true :
    (f g : State → Bool) (o : Option State)
    → AllHigh o
    → ((s : State) → IsHigh s → f s ≡ true → g s ≡ true)
    → onward f o ≡ true
    → onward g o ≡ true
onward-true f g none h l e = absurd (ground (arith, e))
onward-true f g (some s) h l e = l s h e

abbrev quoted_rest : CString → List ℕ → List ℕ
quoted_rest value rest = onto (map escaped_byte value ++ ((b'"' ∷ []) ∷ [])) rest

ascii-utf8 :
    (c : ℕ) (cs : CString) (rest : List ℕ) (s : State)
    → IsHigh s
    → is_utf8 (c ∷ cs) s ≡ true
    → c < 128
    → (IsUtf8 cs → IsUtf8 (quoted_rest cs rest))
    → is_utf8 (quoted_rest (c ∷ cs) rest) s ≡ true
unfolding is_utf8 step onto
ascii-utf8 c cs rest ready h e l later =
    after_ascii (escaped_byte c) (quoted_rest cs rest) (escaped-ascii c l)
    ∙ later (sym (ap (onward (is_utf8 cs)) (lead_ascii c l)) ∙ e)
ascii-utf8 c cs rest (inside left low high) h e l later =
    let refused : ◌≡◌ {A = Bool} false true =
      sym (ap (onward (is_utf8 cs)) (low_inside left low high c h l)) ∙ e in
    absurd (cc refused)

rest-utf8 :
    (value : CString) (rest : List ℕ) (s : State)
    → IsHigh s
    → IsUtf8 rest
    → is_utf8 value s ≡ true
    → is_utf8 (quoted_rest value rest) s ≡ true
unfolding is_utf8 step onto
rest-utf8 [] rest ready h r e = ap (onward (is_utf8 rest)) (lead_ascii b'"' (omega arith)) ∙ r
rest-utf8 [] rest (inside left low high) h r e = cc
rest-utf8 (c ∷ cs) rest s h r e = elim (Bool-cases (ltb c 128)) [
  | inl low ↦ ascii-utf8 c cs rest s h e (ground arith) (λ f. rest-utf8 cs rest ready tt r f)
  | inr high ↦
      let whole : escaped_byte c ≡ c ∷ [] = escaped_high c (ground arith) in
      rw whole (
        onward-true (is_utf8 cs) (is_utf8 (quoted_rest cs rest)) (step s c) (step-AllHigh s c)
          (λ t g f. rest-utf8 cs rest t g r f) e)
]

-- A value in UTF-8 is written in UTF-8, before bytes in UTF-8.
pub escaped-IsUtf8 :
    (value : CString) (rest : List ℕ)
    → IsUtf8 value
    → IsUtf8 rest
    → IsUtf8 (onto (escaped (some value)) rest)
unfolding is_utf8 step onto escaped
escaped-IsUtf8 value rest v r =
    ap (onward (is_utf8 (quoted_rest value rest))) (lead_ascii b'"' (omega arith))
    ∙ rest-utf8 value rest ready tt r v
