-- ===== src/Compiler/Slots.antt =====
-- The descriptors in an array whose free slots hold -1.
use landlock.Base.{ℕ, ℤ, pos, negsuc, zero, suc, ◌+◌, ◌≡◌, refl, arith, List, [], ◌∷◌, ◌==◌}
use landlock.Base.{if◌then◌else◌, replicate, set, drop, Option, none, some}

-- How many slots hold the descriptor `n`.
abbrev pub holds : ℕ → List ℤ → ℕ
holds n [] = 0
holds n (pos fd ∷ fds) = (if fd == n then 1 else 0) + holds n fds
holds n (negsuc m ∷ fds) = holds n fds

abbrev pub holds_all : ℕ → Option (List ℤ) → ℕ
holds_all n none = 0
holds_all n (some fds) = holds n fds

pub holds-free : (n count : ℕ) → holds n (replicate count (negsuc 0)) ≡ 0
holds-free n zero = refl
holds-free n (suc count) = holds-free n count

-- Filling the first free slot adds its descriptor.
pub holds-set :
    (n i fd : ℕ) (fds free : List ℤ)
    → drop i fds ≡ negsuc 0 ∷ free
    → holds n (set fds i (pos fd)) ≡ (if fd == n then 1 else 0) + holds n fds
holds-set n zero fd [] free h = cc
holds-set n (suc i) fd [] free h = cc
holds-set n zero fd (negsuc m ∷ fds) free h = refl
holds-set n zero fd (pos m ∷ fds) free h = ground arith
holds-set n (suc i) fd (negsuc m ∷ fds) free h = holds-set n i fd fds free h
holds-set n (suc i) fd (pos m ∷ fds) free h = omega (arith, holds-set n i fd fds free h)

pub drop-set :
    (i : ℕ) (v : ℤ) (fds free : List ℤ)
    → drop i fds ≡ negsuc 0 ∷ free
    → drop (suc i) (set fds i v) ≡ free
drop-set zero v [] free h = cc
drop-set (suc i) v [] free h = cc
drop-set zero v (x ∷ fds) free h = cc
drop-set (suc i) v (x ∷ fds) free h = drop-set i v fds free h
