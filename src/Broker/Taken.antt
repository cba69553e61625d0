-- ===== src/Broker/Taken.antt =====
-- src/landlockd_exec.c: what is left when a lease is taken.
use landlock.Base.{
  ℕ, ℤ, pos, negsuc, ◌+◌, ◌≡◌, ◌≢◌, refl, ap, arith, true, if◌then◌else◌, Bool-cases, inl, inr,
}
use landlock.Base.{Option, none, some, List, [], ◌∷◌, ◌++◌}
use landlock.Sys.{World, Outcome, done, failed, pure, ◌>>◌}
use landlock.Sys.Types.{Kernel}
use landlock.Sys.Errno.{enoent}
use landlock.Memory.{Array, items_of, frees}
use landlock.Memory.Blocks.{Leaves}
use landlock.Memory.Account.{string_blocks, array_blocks, array_of, total, All}
use landlock.Memory.Releases.{Frees, frees-Releases}
use landlock.Broker.Leases.{
  MountFdLease, FsopenLease, same_int, without_first, shrunk, mount_fd_lease_take,
  fsopen_lease_take,
}

same_int→eq : (a b : ℤ) → same_int a b ≡ true → a ≡ b
same_int→eq (pos m) (pos n) h = ground arith
same_int→eq (pos m) (negsuc n) h = cc
same_int→eq (negsuc m) (pos n) h = cc
same_int→eq (negsuc m) (negsuc n) h = ground arith

same_int_refl : (a : ℤ) → same_int a a ≡ true
same_int_refl (pos m) = ground arith
same_int_refl (negsuc m) = ground arith

module _ {A : Type 0} (fd_of : A → ℤ) (blocks : A → ℕ) where
  -- No lease is for the descriptor.
  abbrev pub NoneFor : ℤ → List A → Type 0
  NoneFor fd xs = All (λ x. fd_of x ≢ fd) xs

  -- The lease `x` is the first for the descriptor, and `rest` are the others in their order.
  abbrev pub FirstFor : ℤ → List A → A → List A → Type 0
  FirstFor fd xs x rest =
      (before : List A) × (after : List A) × (xs ≡ before ++ (x ∷ after))
      × (rest ≡ before ++ after)
      × (fd_of x ≡ fd)
      × NoneFor fd before

  abbrev pub Splits : ℤ → List A → Option (A × List A) → Type 0
  Splits fd xs none = NoneFor fd xs
  Splits fd xs (some p) = FirstFor fd xs p.0 p.1

  later :
      (fd : ℤ) (y : A) (xs : List A) (o : Option (A × List A))
      → fd_of y ≢ fd
      → Splits fd xs o
      → Splits fd (y ∷ xs) (elim o [ none ↦ none | some p ↦ some (p.0, y ∷ p.1) ])
  later fd y xs none n h = (n, h)
  later fd y xs (some (x, rest)) n (before, after, e, r, s, b) =
      (y ∷ before, after, ap (λ (zs : List A). y ∷ zs) e, ap (λ (zs : List A). y ∷ zs) r, s, (n, b))

  without_first-Splits :
      (fd : ℤ) (xs : List A) → Splits fd xs (without_first (λ x. same_int (fd_of x) fd) xs)
  unfolding without_first
  without_first-Splits fd [] = tt
  without_first-Splits fd (x ∷ xs) = elim (Bool-cases (same_int (fd_of x) fd)) [
    | inl same ↦ rw (same, if◌then◌else◌) ([], xs, refl, refl, same_int→eq (fd_of x) fd same, tt)
    | inr other ↦
        let n : fd_of x ≢ fd = λ e. cc (other, ap (λ (i : ℤ). same_int i fd) e, same_int_refl fd) in
        rw (other, if◌then◌else◌)
          (later fd x xs (without_first (λ x. same_int (fd_of x) fd) xs) n
            (without_first-Splits fd xs))
  ]

  -- The outcome of a `take`: the first lease for the descriptor, with its blocks, and the others in
  -- their order, with theirs; or `ENOENT`, no call made, where there is none.
  abbrev pub IsTaken : ℤ → Array A → World → Outcome (A × Array A) → Type 0
  IsTaken fd xs w (done p v) =
      (rest : List A) × FirstFor fd (items_of xs) p.0 rest
      × (p.1 ≡ array_of rest)
      × Leaves w v (array_blocks blocks xs) (array_blocks blocks p.1 + blocks p.0)
  IsTaken fd xs w (failed v) = NoneFor fd (items_of xs) × (v.errno ≡ enoent) × (v.trace ≡ w.trace)

  total-append : (xs ys : List A) → total blocks (xs ++ ys) ≡ total blocks xs + total blocks ys
  total-append [] ys = omega arith
  total-append (x ∷ xs) ys = omega (arith, total-append xs ys)

  first_total :
      (fd : ℤ) (xs : List A) (x : A) (rest : List A)
      → FirstFor fd xs x rest
      → total blocks xs ≡ total blocks rest + blocks x
  first_total fd xs x rest (before, after, e, r, s, n) = omega (
    arith,
    ap (total blocks) e,
    ap (total blocks) r,
    total-append before (x ∷ after),
    total-append before after,
  )

  not_nil : (before : List A) (x : A) (after : List A) → [] ≢ before ++ (x ∷ after)
  not_nil [] x after h = cc
  not_nil (y ∷ ys) x after h = cc

  last_freed :
      (fd : ℤ) (xs : Array A) (x : A) (k : Kernel) (w : World) (o : Outcome (Unit {0}))
      → FirstFor fd (items_of xs) x []
      → array_blocks blocks xs ≡ 1 + blocks x
      → Frees 1 w o
      → IsTaken fd xs w (((λ _ _. o) >> pure (x, none)) k w)
  last_freed fd xs x k w (done u v) h t f = ([], h, refl, omega (arith, t, f.0, f.1))
  last_freed fd xs x k w (failed v) h t f = absurd f

  first_array :
      (fd : ℤ) (xs : Array A) (x : A) (rest : List A)
      → FirstFor fd (items_of xs) x rest
      → array_blocks blocks xs ≡ 1 + (total blocks rest + blocks x)
  first_array fd none x rest (before, after, e, r, s, n) = absurd (not_nil before x after e)
  first_array fd (some xs) x rest h = omega (arith, first_total fd xs x rest h)

  shrunk-IsTaken :
      (fd : ℤ) (xs : Array A) (o : Option (A × List A)) (k : Kernel) (w : World)
      → Splits fd (items_of xs) o
      → IsTaken fd xs w (shrunk o k w)
  shrunk-IsTaken fd xs none k w h = (h, refl, refl)
  shrunk-IsTaken fd xs (some (x, [])) k w h =
      last_freed fd xs x k w (frees 1 k w) h (omega (arith, first_array fd xs x [] h))
        (frees-Releases 1 k w)
  shrunk-IsTaken fd xs (some (x, y ∷ ys)) k w h =
      (y ∷ ys, h, refl, omega (arith, first_array fd xs x (y ∷ ys) h))

-- Taking the lease for a descriptor from an array of leases yields the first one for it, with its
-- value, and leaves the others in their order, in an array that is NULL if there are none and is not
-- otherwise; and each block that was held is freed, in the array that is left, or the value that the
-- caller now has, so that the array itself is freed with its last entry. Where there
-- is no lease for the descriptor it fails with `ENOENT`, with no call made.
pub mount_fd_lease_take-IsTaken :
    (leases : Array MountFdLease) (fd : ℤ) (k : Kernel) (w : World)
    → IsTaken
        (λ l. l.remote_fd)
        (λ l. string_blocks l.value)
        fd
        leases
        w
        (mount_fd_lease_take (some leases) fd k w)
unfolding mount_fd_lease_take
mount_fd_lease_take-IsTaken leases fd k w =
    shrunk-IsTaken (λ l. l.remote_fd) (λ l. string_blocks l.value) fd leases _ k w
      (without_first-Splits (λ l. l.remote_fd) (λ l. string_blocks l.value) fd (items_of leases))

-- The same of the leases for `fsopen`.
pub fsopen_lease_take-IsTaken :
    (leases : Array FsopenLease) (fd : ℤ) (k : Kernel) (w : World)
    → IsTaken
        (λ l. l.remote_fd)
        (λ l. string_blocks l.object_name)
        fd
        leases
        w
        (fsopen_lease_take (some leases) fd k w)
unfolding fsopen_lease_take
fsopen_lease_take-IsTaken leases fd k w =
    shrunk-IsTaken (λ l. l.remote_fd) (λ l. string_blocks l.object_name) fd leases _ k w
      (without_first-Splits (λ l. l.remote_fd) (λ l. string_blocks l.object_name) fd
        (items_of leases))
