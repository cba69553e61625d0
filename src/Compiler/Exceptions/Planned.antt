-- ===== src/Compiler/Exceptions/Planned.antt =====
-- What the plan of a valid policy holds.
use landlock.Base.{ℕ, ℤ, pos, negsuc, suc, ◌+◌, ◌≤◌, ◌<◌, ◌≡◌, refl, ◌∙◌, arith, true, false}
use landlock.Base.{if◌then◌else◌, leb, is_neg, Bool-cases, inl, inr, Option, none, some}
use landlock.Base.{
  sym, ap, append-nil, append_assoc, List, [], ◌∷◌, ◌++◌, length, All, All-append, length-set,
  take-set_end,
}
use landlock.Sys.{World, done, failed, attempt, ◌>>=◌}
use landlock.Sys.Laws.{attempt-done, attempt-failed, bind_cong, bind_assoc, bind-done, bind-failed}
use landlock.Sys.Types.{Kernel}
use landlock.Sys.Errno.{enospc}
use landlock.Ir.{
  Kind, fs, net, exception, other, ExceptionRule, Layer, Policy, items, policy_validate,
}
use landlock.Ir.Valid.{IsPolicy, IsLayer, AreLayers, IsExceptionLayer, policy_validate_iff}
use landlock.Compiler.{layers_of, non_null, same_kind}
use landlock.Compiler.Exceptions.{
  add_exceptions, add_layers, added, accepted, policy_compile_exceptions,
}
use landlock.Seccomp.Plan.{Plan, empty, max_exceptions, plan_init, plan_add, entries}
use landlock.Seccomp.Plan.Laws.{extended}

-- The exception rules of all layers, in order.
abbrev pub exception_rules : List Layer → List ExceptionRule
exception_rules [] = []
exception_rules (l ∷ ls) =
    let rest = exception_rules ls in
    if same_kind l.kind exception then items l.rule_count l.exception_rules ++ rest else rest

-- Their system call numbers; a valid rule has no negative one.
abbrev pub number : ℤ → ℕ
number (pos n) = n
number (negsuc n) = 0

abbrev pub numbers : List ExceptionRule → List ℕ
numbers [] = []
numbers (r ∷ rs) = number r.syscall_nr ∷ numbers rs

abbrev pub NonNegative : List ExceptionRule → Type 0
NonNegative rs = All (λ r. is_neg r.syscall_nr ≡ false) rs

add_exceptions-append :
    (xs ys : List ExceptionRule) (p : Plan) (k : Kernel) (w : World)
    → add_exceptions (xs ++ ys) p k w ≡ (add_exceptions xs p >>= add_exceptions ys) k w
unfolding add_exceptions
add_exceptions-append [] ys p k w = refl
add_exceptions-append (x ∷ xs) ys p k w =
    bind_cong (plan_add (some p) x.syscall_nr) (λ q. add_exceptions (xs ++ ys) q)
      (λ q. add_exceptions xs q >>= add_exceptions ys) k w
      (λ q v. add_exceptions-append xs ys q k v)
    ∙ bind_assoc (plan_add (some p) x.syscall_nr) (add_exceptions xs) (add_exceptions ys) k w

no_exceptions : (p : Plan) (k : Kernel) (w : World) → done p w ≡ add_exceptions [] p k w
unfolding add_exceptions
no_exceptions p k w = refl

-- The two loops are one loop over the rules of all layers.
add_layers-exception_rules :
    (ls : List Layer) (p : Plan) (k : Kernel) (w : World)
    → add_layers ls p k w ≡ add_exceptions (exception_rules ls) p k w
unfolding add_layers
add_layers-exception_rules [] p k w = no_exceptions p k w
add_layers-exception_rules (l ∷ ls) p k w = elim (Bool-cases (same_kind l.kind exception)) [
  | inl own ↦
      let rs : List ExceptionRule = items l.rule_count l.exception_rules in
      rw (own, if◌then◌else◌)
        (bind_cong (add_exceptions rs p) (add_layers ls) (add_exceptions (exception_rules ls)) k w
            (λ q v. add_layers-exception_rules ls q k v)
          ∙ sym (add_exceptions-append rs (exception_rules ls) p k w))
  | inr skipped ↦ rw (skipped, if◌then◌else◌) (add_layers-exception_rules ls p k w)
]

non_negative : (z : ℤ) → is_neg z ≡ false → z ≡ pos (number z)
non_negative (pos n) h = refl
non_negative (negsuc n) h = cc

-- One addition where there is room, and where there is none.
one_fits :
    (p : Plan) (z : ℤ) (k : Kernel) (w : World)
    → is_neg z ≡ false
    → p.count < max_exceptions
    → plan_add (some p) z k w ≡ done (extended p (number z)) w
unfolding plan_add
one_fits p (pos n) k w h room = ground arith
one_fits p (negsuc n) k w h room = cc

one_overflows :
    (p : Plan) (z : ℤ) (k : Kernel) (w : World)
    → is_neg z ≡ false
    → max_exceptions ≤ p.count
    → plan_add (some p) z k w ≡ failed (record w { errno = enospc })
unfolding plan_add
one_overflows p (pos n) k w h full = ground arith
one_overflows p (negsuc n) k w h full = cc

-- The loop while the array has room.
pub fits :
    (rs : List ExceptionRule) (p : Plan) (k : Kernel) (w : World)
    → length p.syscall_nrs ≡ max_exceptions
    → NonNegative rs
    → p.count + length rs ≤ max_exceptions
    → (q : Plan) × (add_exceptions rs p k w ≡ done q w) × (entries q ≡ entries p ++ numbers rs)
unfolding add_exceptions
fits [] p k w slots ok room = (p, refl, sym (append-nil (entries p)))
fits (r ∷ rs) p k w slots ok room =
    let nr : ℕ = number r.syscall_nr in
    let (q, run, held) =
      fits rs (extended p nr) k w (length-set p.syscall_nrs p.count nr ∙ slots) ok.1
        (omega arith) in
    let first : plan_add (some p) r.syscall_nr k w ≡ done (extended p nr) w =
      one_fits p r.syscall_nr k w ok.0 (omega arith) in
    (
      q,
      bind-done (plan_add (some p) r.syscall_nr) (add_exceptions rs) k first ∙ run,
      held
          ∙ ap (λ xs. xs ++ numbers rs) (take-set_end p.count p.syscall_nrs nr (omega arith))
          ∙ append_assoc (entries p) (nr ∷ []) (numbers rs),
    )

-- The loop when it runs out of room.
pub overflows :
    (rs : List ExceptionRule) (p : Plan) (k : Kernel) (w : World)
    → NonNegative rs
    → p.count ≤ max_exceptions
    → max_exceptions < p.count + length rs
    → add_exceptions rs p k w ≡ failed (record w { errno = enospc })
unfolding add_exceptions
overflows [] p k w ok most over = absurd (omega arith)
overflows (r ∷ rs) p k w ok most over = elim (Bool-cases (leb max_exceptions p.count)) [
  | inl full ↦
      bind-failed (plan_add (some p) r.syscall_nr) (add_exceptions rs) k
        (one_overflows p r.syscall_nr k w ok.0 (ground arith))
  | inr room ↦
      let nr : ℕ = number r.syscall_nr in
      bind-done (plan_add (some p) r.syscall_nr) (add_exceptions rs) k
        (one_fits p r.syscall_nr k w ok.0 (ground arith))
      ∙ overflows rs (extended p nr) k w ok.1 (ground arith) (omega arith)
]

kind_of :
    (kind : Kind) (l : Layer)
    → same_kind kind exception ≡ true
    → IsLayer kind l
    → IsExceptionLayer l
kind_of fs l h own = cc
kind_of net l h own = cc
kind_of exception l h own = own
kind_of other l h own = cc

exception_layer :
    (l : Layer) → same_kind l.kind exception ≡ true → IsLayer l.kind l → IsExceptionLayer l
exception_layer l h own = kind_of l.kind l h own

-- The exception rules of a valid policy have no negative number.
valid-NonNegative :
    (i : ℕ) (ls : List (Option Layer))
    → AreLayers i ls
    → NonNegative (exception_rules (non_null ls))
valid-NonNegative i [] v = tt
valid-NonNegative i (none ∷ ls) v = absurd v
valid-NonNegative i (some l ∷ ls) (at, own, later) =
    let rest = valid-NonNegative (suc i) ls later in
    elim (Bool-cases (same_kind l.kind exception)) [
      | inl exceptions ↦
          rw (exceptions, if◌then◌else◌)
            (All-append _ (items l.rule_count l.exception_rules) (exception_rules (non_null ls))
              (exception_layer l exceptions own).rules rest)
      | inr others ↦ rw (others, if◌then◌else◌) rest
    ]

module _ (p : Policy) (before : Plan) (k : Kernel) (w : World) (valid : IsPolicy p) where
  accepted_run :
      policy_compile_exceptions (some p) (some before) k w
      ≡ (attempt (add_exceptions (exception_rules (layers_of p)) empty) >>= added) k w
  unfolding policy_compile_exceptions plan_init
  accepted_run =
      let ls : List Layer = layers_of p in
      attempt-done (policy_validate (some p)) (accepted p before) k {w = w} {v = w}
        ((policy_validate_iff p k w).1 valid)
      ∙ ap (λ o. (attempt (λ _ _. o) >>= added) k w) (add_layers-exception_rules ls empty k w)

  -- A valid policy with at most 32 exception rules compiles, with no call made, to the plan of their
  -- numbers in the order of the layers and of the rules in each.
  pub policy_compile_exceptions-entries :
      length (exception_rules (layers_of p)) ≤ max_exceptions
      → (plan : Plan) × (policy_compile_exceptions (some p) (some before) k w
          ≡ done (record { succeeded = true; plan = some plan }) w)
        × (entries plan ≡ numbers (exception_rules (layers_of p)))
  policy_compile_exceptions-entries room =
      let rs : List ExceptionRule = exception_rules (layers_of p) in
      let (q, run, held) =
        fits rs empty k w refl (valid-NonNegative 0 _ valid.layers) (omega arith) in
      (q, accepted_run ∙ attempt-done (add_exceptions rs empty) added k run, held)

  -- The exceptions of a valid policy with more than 32 exception rules fail to compile: with
  -- `ENOSPC`, no call made, and the plan left empty.
  pub policy_compile_exceptions_too_many :
      max_exceptions < length (exception_rules (layers_of p))
      → policy_compile_exceptions (some p) (some before) k w
        ≡ done (record { succeeded = false; plan = some empty }) (record w { errno = enospc })
  unfolding plan_init
  policy_compile_exceptions_too_many over =
      let rs : List ExceptionRule = exception_rules (layers_of p) in
      let run : add_exceptions rs empty k w ≡ failed (record w { errno = enospc }) =
        overflows rs empty k w (valid-NonNegative 0 _ valid.layers) (omega arith) (omega arith) in
      accepted_run ∙ attempt-failed (add_exceptions rs empty) added k run ∙ refl
