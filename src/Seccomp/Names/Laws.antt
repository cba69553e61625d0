-- ===== src/Seccomp/Names/Laws.antt =====
-- The table of names can be searched by every name that is in it.
use landlock.Base.{ℕ, ◌≡◌, ◌≢◌, refl, false, arith, List, [], ◌∷◌, Option, none, some, true, str_eq}
use landlock.Base.{if◌then◌else◌}
use landlock.Sys.{World, done, failed}
use landlock.Sys.Types.{CString, Kernel}
use landlock.Sys.Errno.{enoent}
use landlock.Seccomp.Names.{Name, getpid, Numbers, spelling, name_map, find_number, syscall_by_name}

-- The entry of the whole table that is spelled so.
find_name : CString → List Name → Option Name
find_name name [] = none
find_name name (n ∷ ns) = if str_eq name (spelling n) then some n else find_name name ns

find_name-spelling : (n : Name) → find_name (spelling n) name_map ≡ some n
unfolding find_name spelling
find_name-spelling getpid = refl
find_name-spelling _ = refl

find_number_of_find_name :
    (num : Numbers) (name : CString) (ns : List Name) (n : Name) (nr : ℕ)
    → find_name name ns ≡ some n
    → num n ≡ some nr
    → find_number num name ns ≡ some nr
unfolding find_name find_number
find_number_of_find_name num name [] n nr h d = cc
find_number_of_find_name num name (m ∷ ns) n nr h d =
    ground (arith, find_number_of_find_name num name ns n nr)

find_number_of_unknown :
    (num : Numbers) (name : CString) (ns : List Name)
    → find_name name ns ≡ none
    → find_number num name ns ≡ none
unfolding find_name find_number
find_number_of_unknown num name [] h = refl
find_number_of_unknown num name (m ∷ ns) h = ground (arith, find_number_of_unknown num name ns)

spelling-ne-nil : (n : Name) → spelling n ≢ []
unfolding spelling
spelling-ne-nil getpid = λ e. cc
spelling-ne-nil _ = λ e. cc

module _ (num : Numbers) (k : Kernel) (w : World) where
  found :
      (name : CString) (nr : ℕ)
      → name ≢ []
      → find_number num name name_map ≡ some nr
      → syscall_by_name num (some name) true k w ≡ done nr w
  unfolding syscall_by_name
  found [] nr nonempty e = absurd (nonempty refl)
  found (c ∷ cs) nr nonempty e = rw e

  missed :
      (name : CString)
      → name ≢ []
      → find_number num name name_map ≡ none
      → syscall_by_name num (some name) true k w ≡ failed (record w { errno = enoent })
  unfolding syscall_by_name
  missed [] nonempty e = absurd (nonempty refl)
  missed (c ∷ cs) nonempty e = rw e

  -- On every architecture that defines the call `n`, as number `nr`, looking up the spelling of `n`
  -- yields `nr` and changes nothing.
  pub syscall_by_name-spelling :
      (n : Name) (nr : ℕ)
      → num n ≡ some nr
      → syscall_by_name num (some (spelling n)) true k w ≡ done nr w
  syscall_by_name-spelling n nr d =
      found (spelling n) nr (spelling-ne-nil n)
        (find_number_of_find_name num (spelling n) name_map n nr (find_name-spelling n) d)

  find_name-eq-none :
      (name : CString) (ns : List Name)
      → ((n : Name) → str_eq name (spelling n) ≡ false)
      → find_name name ns ≡ none
  unfolding find_name
  find_name-eq-none name [] h = refl
  find_name-eq-none name (n ∷ ns) h = rw (h n) (find_name-eq-none name ns h)

  -- A text that is not empty and not a spelling in the table fails with `ENOENT`.
  pub syscall_by_name_unknown :
      (name : CString)
      → name ≢ []
      → ((n : Name) → str_eq name (spelling n) ≡ false)
      → syscall_by_name num (some name) true k w ≡ failed (record w { errno = enoent })
  syscall_by_name_unknown name nonempty h =
      missed name nonempty
        (find_number_of_unknown num name name_map (find_name-eq-none name name_map h))
