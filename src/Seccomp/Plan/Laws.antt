-- ===== src/Seccomp/Plan/Laws.antt =====
-- A plan is a bounded list: what `plan_add` does to the numbers in use.
use landlock.Base.{ℕ, ℤ, pos, negsuc, suc, ◌<◌, ◌^◌, ◌≡◌, refl, ◌∙◌, ap, leb, if◌then◌else◌, arith}
use landlock.Base.{List, [], ◌∷◌, ◌++◌, some, length, set, All-append, Bool-cases, inl, inr}
use mathlib.Core.Path.{subst}
use landlock.Base.{length-set, length-take, take-set_end}
use landlock.Sys.{World, Outcome, done, failed}
use landlock.Sys.Laws.{done-eq-done}
use landlock.Sys.Types.{Kernel}
use landlock.Sys.Errno.{einval, enospc}
use landlock.Seccomp.Plan.{Plan, empty, max_exceptions, plan_add, entries, IsPlan}

pub empty-IsPlan : IsPlan empty
empty-IsPlan = omega arith

-- The plan after one more number.
abbrev pub extended : Plan → ℕ → Plan
extended p nr = record { syscall_nrs = set p.syscall_nrs p.count nr; count = suc p.count }

pub length-entries : (p : Plan) → IsPlan p → length (entries p) ≡ p.count
length-entries p v = length-take p.count p.syscall_nrs (omega arith)

pub entries-extended :
    (p : Plan) (nr : ℕ)
    → IsPlan p
    → p.count < max_exceptions
    → entries (extended p nr) ≡ entries p ++ (nr ∷ [])
entries-extended p nr v room = take-set_end p.count p.syscall_nrs nr (omega arith)

pub extended-IsPlan :
    (p : Plan) (nr : ℕ) → IsPlan p → p.count < max_exceptions → nr < 2 ^ 31 → IsPlan (extended p nr)
extended-IsPlan p nr v room small = record {
  slots = length-set p.syscall_nrs p.count nr ∙ v.slots;
  within = room;
  numbers =
      rw (entries-extended p nr v room) (All-append _ (entries p) (nr ∷ []) v.numbers (small, tt));
}

-- An `int` argument is at most 2^31 - 1.
abbrev pub IsInt : ℤ → Type 0
IsInt (pos n) = n < 2 ^ 31
IsInt (negsuc n) = n < 2 ^ 31

-- What a caller can see of a bounded list of numbers after an attempt to add one.
pub data Added : Type 0 where
  refused : (errno : ℕ) → Added
  kept : List ℕ → Added

-- The contract of `plan_add`: at most 32 numbers, none of them negative, in the order of arrival.
abbrev pub bounded_add : List ℕ → ℤ → Added
bounded_add xs (negsuc n) = refused einval
bounded_add xs (pos n) =
    if leb max_exceptions (length xs) then refused enospc else kept (xs ++ (n ∷ []))

abbrev pub observe : Outcome Plan → Added
observe (done q w) = kept (entries q)
observe (failed w) = refused w.errno

-- `plan_add` on a plan is `bounded_add` on its numbers: a negative number is refused with `EINVAL`,
-- a 33rd with `ENOSPC`, and any other is appended.
pub observe-plan_add :
    (p : Plan) (nr : ℤ) (k : Kernel) (w : World)
    → IsPlan p
    → observe (plan_add (some p) nr k w) ≡ bounded_add (entries p) nr
unfolding plan_add
observe-plan_add p (negsuc n) k w v = refl
observe-plan_add p (pos n) k w v = elim (Bool-cases (leb max_exceptions p.count)) [
  | inl full ↦ rw (length-entries p v, full)
  | inr room ↦ rw (length-entries p v, room) (ap kept (entries-extended p n v (ground arith)))
]

-- A plan stays a plan: what `plan_add` returns for a plan and an `int` has 32 slots, at most 32 of
-- them in use, and only numbers of an `int` that are not negative in these.
plan_add-IsPlan :
    (p : Plan) (nr : ℤ) (k : Kernel) (w : World) {q : Plan} {w' : World}
    → IsPlan p
    → IsInt nr
    → plan_add (some p) nr k w ≡ done q w'
    → IsPlan q
unfolding plan_add
plan_add-IsPlan p (negsuc n) k w v small h = cc
plan_add-IsPlan p (pos n) k w {q} v small h = elim (Bool-cases (leb max_exceptions p.count)) [
  | inl full ↦ cc (rw full at h)
  | inr room ↦
      subst IsPlan (done-eq-done (rw room at h)) (extended-IsPlan p n v (ground arith) small)
]
