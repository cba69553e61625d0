-- ===== src/Tests/Broker.antt =====
-- A broker's allowlist, decisions and leases.
use landlock.Base.{pos, ◌≡◌, refl, [], ◌∷◌, ◌++◌, none, some, codes, true, false}
use landlock.Sys.{fresh}
use landlock.Sys.Types.{CString}
use landlock.Memory.{Array}
use landlock.Memory.Account.{string_blocks}
use landlock.Broker.Decisions.{path_is_under, addfd_allowed}
use landlock.Broker.Components.{begins, components, path_is_under-begins}
use landlock.Broker.Allowlist.{allowlist_init}
use landlock.Broker.Initialised.{Initialised, canonical, allowlist_init-Initialised}
use landlock.Broker.Leases.{MountFdLease, mount_fd_lease_take}
use landlock.Broker.Taken.{IsTaken, mount_fd_lease_take-IsTaken}
use landlock.Tests.Document.{document, document-IsDocument}
use landlock.Tests.Kernels.{granting}

-- A file system in which every path is a link into `/real`.
abbrev real : CString → CString
real path = codes "/real" ++ path

-- `/usr/lib` is under `/usr`, `/usrlib` is not, and `/usr` is not under `/`.
usr_lib : path_is_under (codes "/usr") (codes "/usr/lib") ≡ true
unfolding path_is_under
usr_lib = refl

usrlib : path_is_under (codes "/usr") (codes "/usrlib") ≡ false
unfolding path_is_under
usrlib = refl

below_root : path_is_under (codes "/") (codes "/usr") ≡ false
unfolding path_is_under
below_root = refl

allowed :
    addfd_allowed
      (some (canonical real document))
      (some (codes "open"))
      (some (codes "/real/dev/null"))
      none
    ≡ true
unfolding addfd_allowed
allowed = refl

path_is_under-begins_example :
    path_is_under (codes "/usr") (codes "/usr/lib")
    ≡ begins (components (codes "/usr")) (components (codes "/usr/lib"))
path_is_under-begins_example = path_is_under-begins (codes "/usr") (codes "/usr/lib")

allowlist_init-Initialised_example :
    Initialised real document fresh (allowlist_init real document granting fresh)
allowlist_init-Initialised_example =
    allowlist_init-Initialised real document document-IsDocument granting fresh

abbrev leases : Array MountFdLease
leases = some (
    record { remote_fd = pos 3; kind = 1; value = some (codes "/a") }
    ∷ record { remote_fd = pos 5; kind = 2; value = some (codes "t") }
    ∷ [])

mount_fd_lease_take-IsTaken_example :
    IsTaken
      (λ (l : MountFdLease). l.remote_fd)
      (λ (l : MountFdLease). string_blocks l.value)
      (pos 5)
      leases
      fresh
      (mount_fd_lease_take (some leases) (pos 5) granting fresh)
mount_fd_lease_take-IsTaken_example = mount_fd_lease_take-IsTaken leases (pos 5) granting fresh
