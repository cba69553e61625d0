-- ===== src/Sys.antt =====
-- The setting in which the C functions run. A function that returns -1 on an error and sets `errno`
-- is an `M`: it reads the kernel, changes the process's `World` and returns a value or fails.
-- What it did before it failed stays done.
pub mod Errno
pub mod Types
pub mod Laws
pub mod Descriptors
pub mod Keeps
use landlock.Base.{ℕ, ◌+◌, ◌≡◌, Bool, false, List, [], ◌∷◌, Option, none, some}
use landlock.Sys.Types.{Call, Answer, ret, fails, Event, Kernel}

-- `errno`, the static flag `landlockd_restrict_self_e2big_warned` of src/landlock.c, and the calls
-- made so far, newest first.
pub record World : Type 0 where
  pub errno : ℕ
  pub e2big_warned : Bool
  pub trace : List Event

-- A return with a value, or `return -1`, and the world at that moment.
pub data Outcome {ℓ} (A : Type ℓ) : Type ℓ where
  done : A → World → Outcome A
  failed : World → Outcome A

abbrev pub M {ℓ} : Type ℓ → Type ℓ
M A = Kernel → World → Outcome A

abbrev pub final {ℓ} : {A : Type ℓ} → Outcome A → World
final (done a w) = w
final (failed w) = w

abbrev pub pure {ℓ} : {A : Type ℓ} → A → M A
pure a k w = done a w

-- `if (m < 0) return -1;` and then the rest.
infixl 5 ◌>>=◌ ◌>>◌
abbrev pub ◌>>=◌ {ℓ κ} : {A : Type ℓ} {B : Type κ} → M A → (A → M B) → M B
◌>>=◌ m f k w = elim (m k w) [ done a w' ↦ f a k w' | failed w' ↦ failed w' ]

abbrev pub ◌>>◌ {ℓ κ} : {A : Type ℓ} {B : Type κ} → M A → M B → M B
m >> n = m >>= λ _. n

-- The value of `m`, or `none` where it returned -1: for code that goes on after an error.
abbrev pub attempt {ℓ} : {A : Type ℓ} → M A → M (Option A)
attempt m k w = elim (m k w) [ done a w' ↦ done (some a) w' | failed w' ↦ done none w' ]

abbrev pub get_errno : M ℕ
get_errno k w = done w.errno w

abbrev pub set_errno : ℕ → M (Unit {0})
set_errno e k w = done tt (record w { errno = e })

-- `return -1;`
abbrev pub fail {ℓ} : {A : Type ℓ} → M A
fail k w = failed w

-- `errno = e; return -1;`
abbrev pub fail_with {ℓ} : {A : Type ℓ} → ℕ → M A
fail_with e k w = failed (record w { errno = e })

-- One call: the kernel answers, and the call is recorded.
abbrev pub answered : Call → World → Answer → Outcome ℕ
answered c w (ret n e) = done n (record w { errno = e; trace = (c, ret n e) ∷ w.trace })
answered c w (fails e) = failed (record w { errno = e; trace = (c, fails e) ∷ w.trace })

abbrev pub call : Call → M ℕ
call c k w = answered c w (k w.trace c)

-- A process that has made no call yet.
abbrev pub fresh : World
fresh = record { errno = 0; e2big_warned = false; trace = [] }

-- The function returned -1 with this `errno`.
abbrev pub FailsWith {ℓ} : {A : Type ℓ} → ℕ → Outcome A → Type 0
FailsWith e (done a w) = ⊥
FailsWith e (failed w) = w.errno ≡ e

-- The call made last.
abbrev pub newest : World → Option Call
newest w = elim w.trace [ [] ↦ none | e ∷ t ↦ some e.0 ]
