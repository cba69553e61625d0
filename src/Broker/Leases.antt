-- ===== src/Broker/Leases.antt =====
-- src/landlockd_exec.c: the leases of a broker on descriptors of its tracee, for mounts and for `fsopen`. The
-- pointer to the leases may be NULL; those for the results are not, since every caller passes locals.
use landlock.Base.{ℕ, ℤ, pos, negsuc, Bool, false, not, ◌&&◌, ◌||◌, ◌==◌, is_neg, if◌then◌else◌}
use landlock.Base.{Option, none, some, List, [], ◌∷◌}
use landlock.Sys.{M, pure, fail_with, ◌>>=◌, ◌>>◌}
use landlock.Sys.Types.{CString}
use landlock.Sys.Errno.{einval, enoent}
use landlock.Memory.{Array, items_of, is_blank, frees, or_free, strdup, grown}
use landlock.Document.Reset.{free_array, free_string}

-- `enum landlockd_broker_mount_fd_lease_kind`
abbrev pub lease_source : ℕ
lease_source = 1

abbrev pub lease_object : ℕ
lease_object = 2

pub record MountFdLease : Type 0 where
  pub remote_fd : ℤ
  pub kind : ℕ
  pub value : Option CString

pub record FsopenLease : Type 0 where
  pub remote_fd : ℤ
  pub created : Bool
  pub object_name : Option CString

abbrev pub same_int : ℤ → ℤ → Bool
same_int (pos m) (pos n) = m == n
same_int (pos m) (negsuc n) = false
same_int (negsuc m) (pos n) = false
same_int (negsuc m) (negsuc n) = m == n

-- The first item that fits, and the others in their order: the loop with the `memmove`.
unfoldable pub without_first : {A : Type 0} → (A → Bool) → List A → Option (A × List A)
without_first test [] = none
without_first test (x ∷ xs) =
    if test x
    then some (x, xs)
    else elim (without_first test xs) [ none ↦ none | some p ↦ some (p.0, x ∷ p.1) ]

-- What a `take` leaves: an array without entries is freed.
abbrev pub shrunk : {A : Type 0} → Option (A × List A) → M (A × Array A)
shrunk none = fail_with enoent
shrunk (some (x, [])) = frees 1 >> pure (x, none)
shrunk (some (x, y ∷ ys)) = pure (x, some (y ∷ ys))

-- `landlockd_broker_mount_fd_lease_add`
unfoldable pub mount_fd_lease_add :
    Option (Array MountFdLease) → ℤ → ℕ → Option CString → M (Array MountFdLease)
unfolding or_free frees
mount_fd_lease_add none remote_fd kind value = fail_with einval
mount_fd_lease_add (some leases) remote_fd kind value =
    if is_neg remote_fd
      || is_blank value
      || (not (kind == lease_source) && not (kind == lease_object))
    then fail_with einval
    else (do
      value_copy ← strdup value
      or_free 1 (grown leases (record { remote_fd = remote_fd; kind = kind; value = value_copy })))

-- `landlockd_broker_mount_fd_lease_take`: the lease, whose value the caller has then, and the others.
unfoldable pub mount_fd_lease_take :
    Option (Array MountFdLease) → ℤ → M (MountFdLease × Array MountFdLease)
unfolding without_first frees
mount_fd_lease_take none remote_fd = fail_with einval
mount_fd_lease_take (some leases) remote_fd =
    shrunk (without_first (λ l. same_int l.remote_fd remote_fd) (items_of leases))

-- `landlockd_broker_mount_fd_leases_cleanup`
unfoldable pub mount_fd_leases_cleanup :
    Option (Array MountFdLease) → M (Option (Array MountFdLease))
mount_fd_leases_cleanup none = pure none
mount_fd_leases_cleanup (some leases) =
    free_array (λ l. free_string l.value) leases >> pure (some none)

-- `landlockd_broker_fsopen_lease_add`
unfoldable pub fsopen_lease_add :
    Option (Array FsopenLease) → ℤ → Option CString → M (Array FsopenLease)
unfolding or_free frees
fsopen_lease_add none remote_fd object_name = fail_with einval
fsopen_lease_add (some leases) remote_fd object_name =
    if is_neg remote_fd || is_blank object_name then fail_with einval else (do
      name_copy ← strdup object_name
      or_free 1 (
          grown leases
            (record { remote_fd = remote_fd; created = false; object_name = name_copy })))

-- `landlockd_broker_fsopen_lease_find`
unfoldable pub fsopen_lease_find : Option (Array FsopenLease) → ℤ → M FsopenLease
unfolding without_first
fsopen_lease_find none remote_fd = fail_with einval
fsopen_lease_find (some leases) remote_fd =
    elim (without_first (λ l. same_int l.remote_fd remote_fd) (items_of leases)) [
      | none ↦ fail_with enoent
      | some p ↦ pure p.0
    ]

-- `landlockd_broker_fsopen_lease_take`
unfoldable pub fsopen_lease_take :
    Option (Array FsopenLease) → ℤ → M (FsopenLease × Array FsopenLease)
unfolding without_first frees
fsopen_lease_take none remote_fd = fail_with einval
fsopen_lease_take (some leases) remote_fd =
    shrunk (without_first (λ l. same_int l.remote_fd remote_fd) (items_of leases))

-- `landlockd_broker_fsopen_leases_cleanup`
unfoldable pub fsopen_leases_cleanup : Option (Array FsopenLease) → M (Option (Array FsopenLease))
fsopen_leases_cleanup none = pure none
fsopen_leases_cleanup (some leases) =
    free_array (λ l. free_string l.object_name) leases >> pure (some none)
