-- ===== src/Audit/Growth.antt =====
-- src/landlockd_audit.c, `landlockd_audit_append`: the buffer has room, and the loop that finds it ends.
use landlock.Base.{
  ℕ, zero, suc, ◌+◌, ◌*◌, ◌%◌, ◌^◌, ◌<◌, ◌≤◌, ◌≡◌, refl, arith, ◌⊎◌, inl, inr, false, ltb, leb,
  ◌==◌, if◌then◌else◌, Bool-cases, Option, none, some, List, [], ◌∷◌, ◌++◌, length, length-append,
  append-nil, append_assoc, ap, ◌∙◌,
}
use landlock.Sys.{World, Outcome, done, failed, answered, attempt, ◌>>=◌, pure}
use landlock.Sys.Types.{Kernel, Call, Answer, ret, fails}
use landlock.Memory.{items_of, is_absent}
use landlock.Memory.Blocks.{refusals}
use landlock.Wire.Store.{onto}
use landlock.Audit.{Buffer, doubled, extended_by, reallocated, audit_append, append_all}

-- A capacity that is not too small, and does not wrap.
abbrev pub Enough : ℕ → Option ℕ → Type 0
Enough need none = ⊥
Enough need (some c) = (need ≤ c) × (0 < c) × (c < 2 ^ 64)

-- The loop ends, with room for the text, where that is at most half of what a `size_t` counts.
pub doubled-Enough :
    (fuel need c : ℕ)
    → 0 < c
    → c < 2 ^ 64
    → need ≤ 2 ^ 63
    → 0 < fuel
    → need < c + fuel
    → Enough need (doubled fuel need c)
unfolding doubled
doubled-Enough zero need c h g f z e = absurd (omega arith)
doubled-Enough (suc fuel) need c h g f z e = elim (Bool-cases (ltb c need)) [
  | inl small ↦
      let lt : c < need = ground arith in
      let same : c * 2 % 2 ^ 64 ≡ c * 2 = omega arith in
      rw (small, same)
        (doubled-Enough fuel need (c * 2) (omega arith) (omega arith) f (omega arith) (omega arith))
  | inr large ↦ let le : need ≤ c = ground arith in rw large (le, h, g)
]

-- The buffer is NULL with no capacity, or its text and the NUL behind it lie within the capacity.
abbrev pub IsBuffer : Buffer → Type 0
IsBuffer b =
    (b.cap < 2 ^ 64) × ((length (items_of b.text) < b.cap) ⊎ ((items_of b.text ≡ []) × (b.cap ≡ 0)))

-- The bytes are behind the text, or a call for memory was refused and the buffer is as it was; it keeps to
-- its capacity.
abbrev pub Appends : List ℕ → Buffer → World → Outcome Buffer → Type 0
Appends bytes b w (done b' v) =
    IsBuffer b'
    × (((items_of b'.text ≡ items_of b.text ++ bytes) × (refusals v.trace ≡ refusals w.trace))
        ⊎ ((b' ≡ b) × (refusals w.trace < refusals v.trace)))
Appends bytes b w (failed v) = ⊥

answered_with :
    (bytes : List ℕ) (new_cap : ℕ) (b : Buffer) (w : World) (c : Call) (a : Answer) (k : Kernel)
    → IsBuffer b
    → length (items_of b.text) + length bytes + 1 ≤ new_cap
    → new_cap < 2 ^ 64
    → c ≡ Call.reallocate (is_absent b.text) new_cap
    → Appends bytes b w
        ((attempt (λ _ v. answered c v a) >>= λ r. pure (extended_by bytes new_cap b r)) k w)
answered_with bytes new_cap b w c (ret v e) k h l g s =
    ((g, inl (omega (arith, length-append (items_of b.text) bytes))), inl (refl, refl))
answered_with bytes new_cap b w c (fails e) k h l g s = rw s (h, inr (refl, omega arith))

reallocated-Appends :
    (bytes : List ℕ) (b : Buffer) (k : Kernel) (w : World) (o : Option ℕ)
    → IsBuffer b
    → Enough (length (items_of b.text) + length bytes + 1) o
    → Appends bytes b w (reallocated bytes b o k w)
reallocated-Appends bytes b k w none h e = absurd e
reallocated-Appends bytes b k w (some new_cap) h e =
    let c : Call = Call.reallocate (is_absent b.text) new_cap in
    answered_with bytes new_cap b w c (k w.trace c) k h e.0 e.2 refl

start : ℕ → ℕ
start cap = if cap == 0 then 256 else cap

start_bounds : (cap : ℕ) → cap < 2 ^ 64 → (0 < start cap) × (start cap < 2 ^ 64)
unfolding start
start_bounds cap h = ground arith

-- A well-formed buffer takes more bytes behind its text and has room for them and the NUL, which the loop
-- finds in finitely many rounds without an overflow where they are at most 2 ^ 63 together; or it is as
-- it was, where the call for memory is refused.
pub audit_append-Appends :
    (bytes : List ℕ) (b : Buffer) (k : Kernel) (w : World)
    → IsBuffer b
    → length (items_of b.text) + length bytes + 1 ≤ 2 ^ 63
    → Appends bytes b w (audit_append bytes b k w)
unfolding audit_append start
audit_append-Appends [] b k w h l = (h, inl (rw append-nil refl, refl))
audit_append-Appends (x ∷ xs) b k w h l =
    let need : ℕ = length (items_of b.text) + length (x ∷ xs) + 1 in
    let some_byte : (length (x ∷ xs) == 0) ≡ false = ground arith in
    let bounds : (0 < start b.cap) × (start b.cap < 2 ^ 64) = start_bounds b.cap h.0 in
    rw (some_byte, if◌then◌else◌)
      (elim (Bool-cases (leb need b.cap)) [
        | inl fits ↦
            let room : need ≤ b.cap = ground arith in
            rw (fits, if◌then◌else◌)
              (
                (h.0, inl (omega (arith, length-append (items_of b.text) (x ∷ xs)))),
                inl (refl, refl),
              )
        | inr full ↦
            rw (full, if◌then◌else◌)
              (reallocated-Appends (x ∷ xs) b k w (doubled (suc need) need (start b.cap)) h (
                doubled-Enough (suc need) need (start b.cap) bounds.0 bounds.1 l (omega arith)
                  (omega arith)))
      ])

-- The blocks are behind the text, unless a call for memory was refused.
abbrev pub Collects : List ℕ → Buffer → World → Outcome Buffer → Type 0
Collects bytes b w (done b' v) =
    IsBuffer b'
    × (refusals w.trace ≤ refusals v.trace)
    × ((items_of b'.text ≡ items_of b.text ++ bytes) ⊎ (refusals w.trace < refusals v.trace))
    × (length (items_of b'.text) ≤ length (items_of b.text) + length bytes)
Collects bytes b w (failed v) = ⊥

more :
    (c rest : List ℕ) (b b' : Buffer) (w v : World) (o : Outcome Buffer)
    → refusals w.trace ≤ refusals v.trace
    → ((items_of b'.text ≡ items_of b.text ++ c) × (refusals v.trace ≡ refusals w.trace))
      ⊎ ((b' ≡ b) × (refusals w.trace < refusals v.trace))
    → Collects rest b' v o
    → Collects (c ++ rest) b w o
more c rest b b' w v (done x u) m (inl e) h = (
  h.0,
  omega (arith, m, h.1),
  followed h.2,
  omega (
    arith,
    h.3,
    ap (length {A = ℕ}) e.0,
    length-append (items_of b.text) c,
    length-append c rest,
  ),
)
  where
    followed :
        (items_of x.text ≡ items_of b'.text ++ rest) ⊎ (refusals v.trace < refusals u.trace)
        → (items_of x.text ≡ items_of b.text ++ (c ++ rest)) ⊎ (refusals w.trace < refusals u.trace)
    followed (inl f) =
        inl (f ∙ (ap (λ (t : List ℕ). t ++ rest) e.0 ∙ append_assoc (items_of b.text) c rest))
    followed (inr r) = inr (omega arith)
more c rest b b' w v (done x u) m (inr e) h = (
  h.0,
  omega (arith, m, h.1),
  inr (omega (arith, h.1, e.1)),
  omega (arith, h.3, ap (λ (t : Buffer). length (items_of t.text)) e.0, length-append c rest),
)
more c rest b b' w v (failed u) m e h = h

shorter :
    (c rest : List ℕ) (b b' : Buffer) (w v : World)
    → ((items_of b'.text ≡ items_of b.text ++ c) × (refusals v.trace ≡ refusals w.trace))
      ⊎ ((b' ≡ b) × (refusals w.trace < refusals v.trace))
    → length (items_of b.text) + length (c ++ rest) + 1 ≤ 2 ^ 63
    → (length (items_of b'.text) + length rest + 1 ≤ 2 ^ 63) × (refusals w.trace ≤ refusals v.trace)
shorter c rest b b' w v (inl e) l = (
  omega (arith, ap (length {A = ℕ}) e.0, length-append (items_of b.text) c, length-append c rest),
  omega (arith, e.1),
)
shorter c rest b b' w v (inr e) l = (
  omega (arith, ap (λ (t : Buffer). length (items_of t.text)) e.0, length-append c rest),
  omega (arith, e.1),
)

next_block :
    (c : List ℕ) (cs : List (List ℕ)) (b : Buffer) (k : Kernel) (w : World) (o : Outcome Buffer)
    → Appends c b w o
    → length (items_of b.text) + length (c ++ onto cs []) + 1 ≤ 2 ^ 63
    → ((b' : Buffer) (v : World)
        → IsBuffer b'
        → length (items_of b'.text) + length (onto cs []) + 1 ≤ 2 ^ 63
        → Collects (onto cs []) b' v (append_all cs b' k v))
    → Collects (c ++ onto cs []) b w (((λ _ _. o) >>= append_all cs) k w)
next_block c cs b k w (failed v) h l rest = h
next_block c cs b k w (done b' v) h l rest =
    let fits : (length (items_of b'.text) + length (onto cs []) + 1 ≤ 2 ^ 63)
        × (refusals w.trace ≤ refusals v.trace) =
      shorter c (onto cs []) b b' w v h.1 l in
    more c (onto cs []) b b' w v (append_all cs b' k v) fits.1 h.1 (rest b' v h.0 fits.0)

pub append_all-Collects :
    (cs : List (List ℕ)) (b : Buffer) (k : Kernel) (w : World)
    → IsBuffer b
    → length (items_of b.text) + length (onto cs []) + 1 ≤ 2 ^ 63
    → Collects (onto cs []) b w (append_all cs b k w)
unfolding append_all onto
append_all-Collects [] b k w h l = (h, omega arith, inl (rw append-nil refl), omega arith)
append_all-Collects (c ∷ cs) b k w h l =
    next_block c cs b k w (audit_append c b k w)
      (audit_append-Appends c b k w h (omega (arith, l, length-append c (onto cs [])))) l
      (λ b' v g m. append_all-Collects cs b' k v g m)
