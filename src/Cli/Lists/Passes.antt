-- ===== src/Cli/Lists/Passes.antt =====
-- The two passes over the arguments agree.
use landlock.Base.{
  ℕ, suc, ◌+◌, ◌≤◌, ◌≡◌, ◌⊎◌, inl, inr, refl, sym, ap, ◌∙◌, arith, Bool-cases, Option-cases,
}
use landlock.Base.{
  if◌then◌else◌, Option, none, some, List, [], ◌∷◌, ◌++◌, append-nil, append_assoc, length, take,
  set,
}
use landlock.Base.{length-set, take-set_end, codes, str_eq}
use landlock.Sys.{World, M, done, failed, fail_with, attempt, ◌>>=◌}
use landlock.Sys.Laws.{attempt-done, attempt-failed}
use landlock.Sys.Types.{CString, Kernel}
use landlock.Sys.Errno.{einval, erange}
use landlock.Cli.Numbers.{parse_syscall_nr, strtol, number_of}
use landlock.Cli.Lists.{
  Counted, Arrays, count_options, counted, fill_arrays, with_path, with_number,
}

-- The values of `--ro` up to the first `--` in the place of an option.
abbrev pub paths_of : List CString → List (Option CString)
paths_of [] = []
paths_of (a ∷ []) = []
paths_of (a ∷ b ∷ more) =
    let rest = paths_of more in
    if str_eq a (codes "--") then [] else if str_eq a (codes "--ro") then some b ∷ rest else rest

-- The values of the other options, as numbers.
abbrev value_or_zero : Option ℕ → ℕ
value_or_zero none = 0
value_or_zero (some n) = n

abbrev pub numbers_of : List CString → List ℕ
numbers_of [] = []
numbers_of (a ∷ []) = []
numbers_of (a ∷ b ∷ more) =
    let rest = numbers_of more in
    if str_eq a (codes "--")
    then []
    else if str_eq a (codes "--ro")
    then rest
    else value_or_zero (number_of (strtol b)) ∷ rest

-- An array with `items` more at its end than before.
abbrev pub Grown : ℕ → {A : Type 0} → List A → ℕ → List A → List A → Type 0
Grown i {A} before j after items =
    (j ≡ i + length items)
    × (take j after ≡ take i before ++ items)
    × (length after ≡ length before)

-- The second pass from arrays `f` on.
abbrev pub Fills : List CString → Arrays → Kernel → World → List CString → Type 0
Fills args f k u rest =
    (f' : Arrays) × (u' : World) × (fill_arrays args f k u ≡ done (f', rest) u')
    × Grown f.ro_path_count f.ro_paths f'.ro_path_count f'.ro_paths (paths_of args)
    × Grown f.notify_count f.notify_syscalls f'.notify_count f'.notify_syscalls (numbers_of args)

abbrev pub HasRoom : List CString → Arrays → Type 0
HasRoom args f =
    (f.ro_path_count + length (paths_of args) ≤ length f.ro_paths)
    × (f.notify_count + length (numbers_of args) ≤ length f.notify_syscalls)

Grown-nothing : {A : Type 0} (i : ℕ) (xs : List A) → Grown i xs i xs []
Grown-nothing i xs = (omega arith, sym (append-nil (take i xs)), refl)

Grown-set :
    {A : Type 0} (i j : ℕ) (xs ys items : List A) (x : A)
    → i + length (x ∷ items) ≤ length xs
    → Grown (suc i) (set xs i x) j ys items
    → Grown i xs j ys (x ∷ items)
Grown-set i j xs ys items x room (count, held, same) = (
  omega arith,
  held
      ∙ ap (λ front. front ++ items) (take-set_end i xs x (omega arith))
      ∙ append_assoc (take i xs) (x ∷ []) items,
  same ∙ length-set xs i x,
)

parse-cases :
    (s : CString) (k : Kernel) (w : World)
    → ((nr : ℕ) × (v : World) × (parse_syscall_nr s k w ≡ done nr v)
        × (number_of (strtol s) ≡ some nr))
      ⊎ ((v : World) × (parse_syscall_nr s k w ≡ failed v) × (number_of (strtol s) ≡ none))
unfolding parse_syscall_nr
parse-cases s k w = elim (Option-cases (number_of (strtol s))) [
  | inl refused ↦
      inr (record w { errno = if (strtol s).cut then erange else 0 }, rw refused refl, refused)
  | inr (nr, taken) ↦
      inl (nr, record w { errno = if (strtol s).cut then erange else 0 }, rw taken refl, taken)
]

-- What one run of the first pass says of any run of the second.
abbrev pub Agrees : List CString → ℕ → ℕ → Kernel → Counted → Type 0
Agrees args r n k c =
    (c.ro_count ≡ r + length (paths_of args))
    × (c.notify_count ≡ n + length (numbers_of args))
    × ((f : Arrays) (u : World) → HasRoom args f → Fills args f k u c.rest)

module _ (k : Kernel) where
  ended :
      (args : List CString) (r n : ℕ) (c : Counted) (w v : World)
      → done (record { ro_count = r; notify_count = n; rest = args }) w ≡ done c v
      → (c.ro_count ≡ r) × (c.notify_count ≡ n) × (c.rest ≡ args)
  ended args r n c w v e = (cc, cc, cc)

  -- A `--notify` that the first pass takes has a number.
  notified :
      (a b : CString) (more : List CString) (r n : ℕ) (c : Counted) (w v : World)
      → (if str_eq a (codes "--notify")
            then attempt (parse_syscall_nr b) >>= (λ nr. counted nr (count_options more r (suc n)))
            else fail_with einval)
          k w
        ≡ done c v
      → (v' : World) × (nr : ℕ) × (number_of (strtol b) ≡ some nr)
        × (count_options more r (suc n) k v' ≡ done c v)
  notified a b more r n c w v e =
      let next : Option ℕ → M Counted = λ nr. counted nr (count_options more r (suc n)) in
      elim (Bool-cases (str_eq a (codes "--notify"))) [
        | inr other ↦ cc (rw (other, if◌then◌else◌) at e)
        | inl notify ↦ elim (parse-cases b k w) [
          | inl (nr, v', run, taken) ↦ (
            v',
            nr,
            taken,
            sym (attempt-done (parse_syscall_nr b) next k run) ∙ (rw (notify, if◌then◌else◌) at e),
          )
          | inr (v', run, refused) ↦ cc (
              sym (attempt-failed (parse_syscall_nr b) next k run)
              ∙ (rw (notify, if◌then◌else◌) at e))
        ]
      ]

  -- The second pass takes the same number.
  fill_number :
      (b : CString) (more rest : List CString) (nr : ℕ) (f : Arrays) (u : World)
      → number_of (strtol b) ≡ some nr
      → ((f : Arrays) (u : World) → HasRoom more f → Fills more f k u rest)
      → (f.ro_path_count + length (paths_of more) ≤ length f.ro_paths)
        × (f.notify_count + length (value_or_zero (number_of (strtol b)) ∷ numbers_of more)
            ≤ length f.notify_syscalls)
      → (f' : Arrays) × (u' : World) × ((attempt (parse_syscall_nr b) >>= λ nr.
              fill_arrays more (with_number nr f))
            k u
          ≡ done (f', rest) u')
        × Grown f.ro_path_count f.ro_paths f'.ro_path_count f'.ro_paths (paths_of more)
        × Grown f.notify_count f.notify_syscalls f'.notify_count f'.notify_syscalls
            (value_or_zero (number_of (strtol b)) ∷ numbers_of more)
  fill_number b more rest nr f u taken fills room =
      let next : Option ℕ → M (Arrays × List CString) = λ nr. fill_arrays more (with_number nr f) in
      elim (parse-cases b k u) [
        | inr (v, run, refused) ↦ cc (sym taken ∙ refused)
        | inl (nr', v, run, again) ↦
            let (f', u', filled, paths, nums) =
              fills (with_number (some nr') f) v
                (room.0, omega (arith, length-set f.notify_syscalls f.notify_count nr')) in
            (
              f',
              u',
              attempt-done (parse_syscall_nr b) next k run ∙ filled,
              paths,
              rw again (
                  Grown-set f.notify_count _ f.notify_syscalls _ (numbers_of more) nr' (omega arith)
                    nums),
            )
      ]

  pub passes-agree :
      (args : List CString) (r n : ℕ) (c : Counted) (w v : World)
      → count_options args r n k w ≡ done c v
      → Agrees args r n k c
  unfolding count_options fill_arrays
  passes-agree [] r n c w v e =
      let (cr, cn, rest) = ended [] r n c w v e in
      (
        omega arith,
        omega arith,
        λ f u room. rw rest (f, u, refl, Grown-nothing _ _, Grown-nothing _ _),
      )
  passes-agree (a ∷ []) r n c w v e = elim (Bool-cases (str_eq a (codes "--"))) [
    | inl dashes ↦
        let (cr, cn, rest) = ended (a ∷ []) r n c w v (rw (dashes, if◌then◌else◌) at e) in
        (
          omega arith,
          omega arith,
          λ f u room. rw rest (f, u, refl, Grown-nothing _ _, Grown-nothing _ _),
        )
    | inr other ↦ cc (rw (other, if◌then◌else◌) at e)
  ]
  passes-agree (a ∷ b ∷ more) r n c w v e = elim (Bool-cases (str_eq a (codes "--"))) [
    | inl dashes ↦
        let (cr, cn, rest) = ended (a ∷ b ∷ more) r n c w v (rw (dashes, if◌then◌else◌) at e) in
        rw (dashes, if◌then◌else◌)
          (
            omega arith,
            omega arith,
            λ f u room. rw rest (f, u, refl, Grown-nothing _ _, Grown-nothing _ _),
          )
    | inr option ↦ elim (Bool-cases (str_eq b (codes "--"))) [
      | inl bad ↦ cc (rw (option, bad, if◌then◌else◌) at e)
      | inr value ↦ elim (Bool-cases (str_eq a (codes "--ro"))) [
        | inl ro ↦
            let e' : count_options more (suc r) n k w ≡ done c v =
              rw (option, value, ro, if◌then◌else◌) at e in
            let (cr, cn, fills) = passes-agree more (suc r) n c w v e' in
            rw (option, ro, if◌then◌else◌)
              (
                omega arith,
                omega arith,
                λ f u room.
                    let (f', u', run, paths, nums) =
                      fills (with_path b f) u
                        (omega (arith, length-set f.ro_paths f.ro_path_count (some b)), room.1) in
                    (
                      f',
                      u',
                      run,
                      Grown-set f.ro_path_count _ f.ro_paths _ (paths_of more) (some b) room.0
                          paths,
                      nums,
                    ),
              )
        | inr not_ro ↦
            let (v', nr, taken, e') =
              notified a b more r n c w v (rw (option, value, not_ro, if◌then◌else◌) at e) in
            let (cr, cn, fills) = passes-agree more r (suc n) c v' v e' in
            rw (option, not_ro, if◌then◌else◌)
              (
                omega arith,
                omega arith,
                λ f u room. fill_number b more c.rest nr f u taken fills room,
              )
      ]
    ]
  ]
