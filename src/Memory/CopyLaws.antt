-- ===== src/Memory/CopyLaws.antt =====
-- The copying of strings, pairs, records and arrays, by their parts.
use landlock.Base.{ℕ, ◌+◌, ◌≡◌, refl, ap, ◌∙◌, arith, List, [], ◌∷◌, Option, none, some}
use landlock.Base.{zero, suc, Bool-cases, inl, inr, length, replicate, if◌then◌else◌}
use landlock.Sys.{World, Outcome, M, done, failed, call, pure, ◌>>=◌}
use landlock.Sys.Laws.{Answer-cases, attempt-done, attempt-failed}
use landlock.Sys.Types.{Kernel, CString, Call, ret, fails}
use landlock.Memory.{
  Array, Copied, Copier, plain, string, copy_string, second, ◌then_copy◌, by_fields, copy_items,
  next_items, with_block, copy_block, array,
}
use landlock.Memory.Blocks.{refusals, Refused, Leaves}
use landlock.Memory.Account.{
  string_blocks, total, array_blocks, no_blocks, All, IsArray, Copies, CopyLaw,
}

pub plain-CopyLaw : {A : Type 0} (z : A) (Ok : A → Type 0) → CopyLaw (plain z) no_blocks Ok
plain-CopyLaw z Ok = record { zero_blocks = refl; law = λ a h k w. (omega arith, (refl, refl)) }

copy_string-Copies :
    (s : Option CString) (k : Kernel) (w : World) → Copies string_blocks s w (copy_string s k w)
copy_string-Copies none k w = (omega arith, (refl, refl))
copy_string-Copies (some s) k w = ground arith

pub string-CopyLaw : (Ok : Option CString → Type 0) → CopyLaw string string_blocks Ok
string-CopyLaw Ok = record { zero_blocks = refl; law = λ s h. copy_string-Copies s }

module _ {A B : Type 0} (bA : A → ℕ) (bB : B → ℕ) where
  abbrev pub pair_blocks : A × B → ℕ
  pair_blocks p = bA p.0 + bB p.1

  second-made :
      (a e : A) (b : B) (w : World) (o : Outcome (Copied B)) (k : Kernel)
      → a ≡ e
      → (v : World) → refusals v.trace ≡ refusals w.trace
      → Leaves w v 0 (bA a)
      → Copies bB b v o
      → Copies pair_blocks
          (e, b)
          w
          (((λ _ _. o) >>= (λ s. pure (record { whole = s.whole; value = (a, s.value) }))) k v)
  second-made a e b w (done r u) k h v f l c = ground arith
  second-made a e b w (failed u) k h v f l c = c

  pub first-made :
      (cB : Copier B) (OkB : B → Type 0)
      → CopyLaw cB bB OkB
      → (a : A) (b : B) → OkB b
      → (w : World) (o : Outcome (Copied A)) (k : Kernel) → Copies bA a w o
      → Copies pair_blocks (a, b) w (((λ _ _. o) >>= second cB b) k w)
  first-made cB OkB lB a b ok w (failed v) k h = h
  first-made cB OkB lB a b ok w (done r v) k h = elim (Bool-cases r.whole) [
    | inl whole ↦
        let same : (r.value ≡ a) × (refusals v.trace ≡ refusals w.trace) = rw whole at h.1 in
        rw (whole, if◌then◌else◌)
          (second-made r.value a b w (cB.run b k v) k same.0 v same.1 h.0 (lB.law b ok k v))
    | inr cut ↦
        let refused : Refused w v = rw cut at h.1 in
        rw (cut, if◌then◌else◌) (omega (arith, lB.zero_blocks), refused)
  ]

  pub then_copy-CopyLaw :
      {ca : Copier A} {cb : Copier B} {OkA : A → Type 0} {OkB : B → Type 0}
      → CopyLaw ca bA OkA
      → CopyLaw cb bB OkB
      → CopyLaw (ca then_copy cb) pair_blocks (λ p. OkA p.0 × OkB p.1)
  then_copy-CopyLaw {ca} {cb} {OkA} {OkB} la lb = record {
    zero_blocks = omega (arith, la.zero_blocks, lb.zero_blocks);
    law = λ p ok k w. first-made cb OkB lb p.0 p.1 ok.1 w (ca.run p.0 k w) k (la.law p.0 ok.0 k w);
  }

module _ {A B : Type 0} (make : B → A) (fields : A → B) (bA : A → ℕ) (bB : B → ℕ) where
  made :
      (same : (b : B) → bA (make b) ≡ bB b) (e : B) (a : A)
      → make e ≡ a
      → (w : World) (o : Outcome (Copied B)) (k : Kernel) → Copies bB e w o
      → Copies bA a w
          (((λ _ _. o) >>= (λ r. pure (record { whole = r.whole; value = make r.value }))) k w)
  made same e a back w (failed v) k h = h
  made same e a back w (done r v) k h = elim (Bool-cases r.whole) [
    | inl whole ↦
        let value : (r.value ≡ e) × (refusals v.trace ≡ refusals w.trace) = rw whole at h.1 in
        (omega (arith, same r.value, h.0), rw whole (ap make value.0 ∙ back, value.1))
    | inr cut ↦
        let refused : Refused w v = rw cut at h.1 in
        (omega (arith, same r.value, h.0), rw cut refused)
  ]

  -- A record is copied by its fields.
  pub by_fields-CopyLaw :
      {c : Copier B} {Ok : B → Type 0}
      → ((b : B) → bA (make b) ≡ bB b)
      → ((a : A) → make (fields a) ≡ a)
      → CopyLaw c bB Ok
      → CopyLaw (by_fields make fields c) bA (λ a. Ok (fields a))
  by_fields-CopyLaw {c} same back l = record {
    zero_blocks = same c.zeroed ∙ l.zero_blocks;
    law = λ a ok k w.
        made same (fields a) a (back a) w (c.run (fields a) k w) k (l.law (fields a) ok k w);
  }

module _ {A : Type 0} (c : Copier A) (b : A → ℕ) (Ok : A → Type 0) (l : CopyLaw c b Ok) where
  total-zeroed : (n : ℕ) → total b (replicate n c.zeroed) ≡ 0
  total-zeroed zero = refl
  total-zeroed (suc n) = omega (arith, l.zero_blocks, total-zeroed n)

  rest-made :
      (x e : A) (es : List A) (w v : World) (o : Outcome (Copied (List A))) (k : Kernel)
      → x ≡ e
      → refusals v.trace ≡ refusals w.trace
      → Leaves w v 0 (b x)
      → Copies (total b) es v o
      → Copies
          (total b)
          (e ∷ es)
          w
          (((λ _ _. o) >>= (λ s. pure (record { whole = s.whole; value = x ∷ s.value }))) k v)
  rest-made x e es w v (done r u) k h f m i = ground arith
  rest-made x e es w v (failed u) k h f m i = i

  item-made :
      (e : A) (xs : List A) (w : World) (o : Outcome (Copied A)) (rest : M (Copied (List A)))
      (k : Kernel)
      → Copies b e w o
      → ((v : World) → Copies (total b) xs v (rest k v))
      → Copies (total b) (e ∷ xs) w (((λ _ _. o) >>= next_items c xs rest) k w)
  item-made e xs w (failed v) rest k h later = h
  item-made e xs w (done r v) rest k h later = elim (Bool-cases r.whole) [
    | inl whole ↦
        let same : (r.value ≡ e) × (refusals v.trace ≡ refusals w.trace) = rw whole at h.1 in
        rw (whole, if◌then◌else◌)
          (rest-made r.value e xs w v (rest k v) k same.0 same.1 h.0 (later v))
    | inr cut ↦
        let refused : Refused w v = rw cut at h.1 in
        rw (cut, if◌then◌else◌) (omega (arith, h.0, total-zeroed (length xs)), refused)
  ]

  pub copy_items-Copies :
      (xs : List A)
      → All Ok xs
      → (k : Kernel) (w : World) → Copies (total b) xs w (copy_items c xs k w)
  unfolding copy_items
  copy_items-Copies [] ok k w = (omega arith, (refl, refl))
  copy_items-Copies (x ∷ xs) ok k w =
      item-made x xs w (c.run x k w) (copy_items c xs) k (l.law x ok.0 k w)
        (λ v. copy_items-Copies xs ok.1 k v)

  block-made :
      (es : List A) (w v : World) (o : Outcome (Copied (List A))) (k : Kernel)
      → Leaves w v 0 1
      → refusals v.trace ≡ refusals w.trace
      → Copies (total b) es v o
      → Copies
          (array_blocks b)
          (some es)
          w
          (((λ _ _. o) >>= (λ r. pure (record { whole = r.whole; value = some r.value }))) k v)
  block-made es w v (done r u) k m f h = ground arith
  block-made es w v (failed u) k m f h = h

  pub copy_block-Copies :
      (xs : List A)
      → All Ok xs
      → (k : Kernel) (w : World) → Copies (array_blocks b) (some xs) w (copy_block c xs k w)
  copy_block-Copies xs ok k w =
      let c' : Call = Call.allocate (length xs) in
      elim (Answer-cases (k w.trace c')) [
        | inl (n, e, h) ↦
            let w' : World = record w { errno = e; trace = (c', ret n e) ∷ w.trace } in
            let block : call c' k w ≡ done n w' = rw h refl in
            rw (attempt-done (call c') (with_block c xs) k {w = w} {v = w'} block) (
              block-made xs w w' (copy_items c xs k w') k (omega arith) refl
                (copy_items-Copies xs ok k w'))
        | inr (e, h) ↦
            let w' : World = record w { errno = e; trace = (c', fails e) ∷ w.trace } in
            let block : call c' k w ≡ failed w' = rw h refl in
            rw (attempt-failed (call c') (with_block c xs) k {w = w} {v = w'} block)
              (omega arith, (omega arith, refl))
      ]

  copy_array-Copies :
      (xs : Array A)
      → IsArray Ok xs
      → (k : Kernel) (w : World) → Copies (array_blocks b) xs w ((array c).run xs k w)
  copy_array-Copies none ok k w = (omega arith, (refl, refl))
  copy_array-Copies (some []) ok k w = absurd ok
  copy_array-Copies (some (x ∷ xs)) ok k w = copy_block-Copies (x ∷ xs) ok k w

  pub array-CopyLaw : CopyLaw (array c) (array_blocks b) (IsArray Ok)
  array-CopyLaw = record { zero_blocks = refl; law = copy_array-Copies }
