-- ===== src/Broker/Components.antt =====
-- src/landlockd_exec.c: the tests on paths, as a path's components see them.
use landlock.Base.{
  ℕ, ◌≡◌, refl, ◌∙◌, arith, Bool, true, false, ◌&&◌, ◌==◌, if◌then◌else◌, str_eq, inl, inr,
  Bool-cases,
}
use landlock.Base.{List, [], ◌∷◌}
use landlock.Sys.Types.{CString}
use landlock.Broker.Decisions.{path_is_under}

-- The components of a path, which the slashes separate: of an absolute one the first is empty.
abbrev pub before : ℕ → List CString → List CString
before c [] = (c ∷ []) ∷ []
before c (w ∷ ws) = (c ∷ w) ∷ ws

abbrev pub components : CString → List CString
components [] = [] ∷ []
components (c ∷ cs) = if c == b'/' then [] ∷ components cs else before c (components cs)

-- Whether a list of components begins with another.
abbrev pub begins : List CString → List CString → Bool
begins [] vs = true
begins (w ∷ ws) [] = false
begins (w ∷ ws) (v ∷ vs) = str_eq w v && begins ws vs

components-cases : (s : CString) → (w : CString) × (ws : List CString) × (components s ≡ w ∷ ws)
components-cases [] = ([], [], refl)
components-cases (c ∷ cs) = elim (Bool-cases (c == b'/')) [
  | inl slash ↦ ([], components cs, rw slash refl)
  | inr other ↦
      let h : (w : CString) × (ws : List CString) × (components cs ≡ w ∷ ws) =
        components-cases cs in
      (c ∷ h.0, h.1, rw (other, h.2) refl)
]

abbrev longer : ℕ → CString → List CString → List CString
longer c w ws = if c == b'/' then [] ∷ w ∷ ws else (c ∷ w) ∷ ws

-- One character more in front of both, of one, and of the other.
begins-longer :
    (c d : ℕ) (w v : CString) (ws vs : List CString) (b : Bool)
    → b ≡ begins (w ∷ ws) (v ∷ vs)
    → (c == d && b) ≡ begins (longer c w ws) (longer d v vs)
begins-longer c d w v ws vs b h = ground arith

nothing-begins :
    (d : ℕ) (v : CString) (vs : List CString) → (d == b'/') ≡ begins ([] ∷ []) (longer d v vs)
nothing-begins d v vs = ground arith

begins-nothing :
    (c : ℕ) (w : CString) (ws : List CString) → false ≡ begins (longer c w ws) ([] ∷ [])
begins-nothing c w ws = ground arith

-- A path lies under another, by the test of the code, exactly if its components begin with the
-- components of the other, where a slash separates components and an absolute path has an empty first.
pub path_is_under-begins :
    (root path : CString) → path_is_under root path ≡ begins (components root) (components path)
unfolding path_is_under
path_is_under-begins [] [] = refl
path_is_under-begins [] (d ∷ path) =
    let h : (v : CString) × (vs : List CString) × (components path ≡ v ∷ vs) =
      components-cases path in
    rw h.2 (nothing-begins d h.0 h.1)
path_is_under-begins (c ∷ root) [] =
    let h : (w : CString) × (ws : List CString) × (components root ≡ w ∷ ws) =
      components-cases root in
    rw h.2 (begins-nothing c h.0 h.1)
path_is_under-begins (c ∷ root) (d ∷ path) =
    let h : (w : CString) × (ws : List CString) × (components root ≡ w ∷ ws) =
      components-cases root in
    let g : (v : CString) × (vs : List CString) × (components path ≡ v ∷ vs) =
      components-cases path in
    let ih : path_is_under root path ≡ begins (h.0 ∷ h.1) (g.0 ∷ g.1) =
      path_is_under-begins root path ∙ (λ i. begins (h.2 i) (g.2 i)) in
    rw (h.2, g.2) (begins-longer c d h.0 g.0 h.1 g.1 (path_is_under root path) ih)
