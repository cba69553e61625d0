-- ===== src/Compiler/Leaks.antt =====
-- No descriptor is lost by a compilation, whether it succeeds or fails at any point.
use landlock.Base.{ℕ, ℤ, pos, negsuc, suc, ◌+◌, ◌≡◌, arith, List, [], ◌∷◌}
use landlock.Base.{some, if◌then◌else◌, replicate, set, drop, Bool-cases, inl, inr}
use landlock.Sys.{World, Outcome, M, done, failed, final, attempt, ◌>>=◌}
use landlock.Sys.Types.{Kernel, NetPort}
use landlock.Sys.Descriptors.{opened, closed, DescriptorsFit}
use landlock.Ir.{FsRule, NetRule, items}
use landlock.Compiler.{
  Filled, Maker, fill, after_rules, after_create, count_wanted, add_path_rule, add_path_rules,
  add_port_rules, fs_maker, net_maker,
}
use landlock.Compiler.Slots.{holds, holds-set, drop-set}
use landlock.Compiler.Calls.{
  Balanced, Created, create_fs_ruleset-Created, create_net_ruleset-Created, add_path_rule-Balanced,
  add_port_rule-Balanced,
}
use landlock.Ruleset.{add_net_rule}

module _ (n : ℕ) where
  bind-Balanced {ℓ κ} :
      {A : Type ℓ} {B : Type κ} (w : World) (o : Outcome A) (f : A → M B) (k : Kernel)
      → Balanced n w (final o)
      → ((a : A) (v : World) → Balanced n v (final (f a k v)))
      → Balanced n w (final {A = B} (elim o [ done a v ↦ f a k v | failed v ↦ failed v ]))
  bind-Balanced w (done a v) f k h later = omega (arith, later a v)
  bind-Balanced w (failed v) f k h later = h

  pub add_path_rules-Balanced :
      (k : Kernel) (rs : List FsRule) (w : World) (fd : ℤ)
      → Balanced n w (final (add_path_rules fd rs k w))
  unfolding add_path_rules
  add_path_rules-Balanced k [] w fd = omega arith
  add_path_rules-Balanced k (r ∷ rs) w fd =
      bind-Balanced w (add_path_rule fd r.path r.allowed_access k w) (λ _. add_path_rules fd rs) k
        (add_path_rule-Balanced n k w fd r.path r.allowed_access)
        (λ _ v. add_path_rules-Balanced k rs v fd)

  pub add_port_rules-Balanced :
      (k : Kernel) (rs : List NetRule) (w : World) (fd : ℤ)
      → Balanced n w (final (add_port_rules fd rs k w))
  unfolding add_port_rules
  add_port_rules-Balanced k [] w fd = omega arith
  add_port_rules-Balanced k (r ∷ rs) w fd =
      let a : NetPort = record { allowed_access = r.allowed_access; port = r.port } in
      bind-Balanced w (add_net_rule fd (some a) 0 k w) (λ _. add_port_rules fd rs) k
        (add_port_rule-Balanced n k w fd a) (λ _ v. add_port_rules-Balanced k rs v fd)

-- What the loop over the layers needs of the two steps that it makes for a layer.
pub record IsAccounted {L : Type 0} (m : Maker L) (n : ℕ) (k : Kernel) : Type 0 where
  pub created : (w : World) (handled : ℕ) → Created n w (m.create handled k w)
  pub ruled : (w : World) (fd : ℤ) (l : L) → Balanced n w (final (m.add_rules fd l k w))

-- The descriptors that the loop opened are closed or in the array, `before` of them beforehand.
abbrev pub FillAccount : ℕ → World → ℕ → Outcome Filled → Type 0
FillAccount n w before (done f v) =
    opened n v.trace + closed n w.trace + before
    ≡ closed n v.trace + opened n w.trace + holds n f.fds
FillAccount n w before (failed v) = ⊥

module _ {L : Type 0} (m : Maker L) (n : ℕ) (k : Kernel) where
  -- An account moved back over the calls between `w` and `v`.
  pub FillAccount-from :
      (w v : World) (before between : ℕ) (o : Outcome Filled)
      → opened n v.trace + closed n w.trace + before ≡ closed n v.trace + opened n w.trace + between
      → FillAccount n v between o
      → FillAccount n w before o
  FillAccount-from w v before between (done f u) e h = omega arith
  FillAccount-from w v before between (failed u) e h = h

  after_rules_account :
      (rest : List ℤ → M Filled) (fds : List ℤ) (w : World) (o : Outcome (Unit {0}))
      → Balanced n w (final o)
      → ((v : World) → FillAccount n v (holds n fds) (rest fds k v))
      → FillAccount n w (holds n fds) ((attempt (λ _ _. o) >>= after_rules m rest fds) k w)
  after_rules_account rest fds w (failed v) h later = omega arith
  after_rules_account rest fds w (done a v) h later =
      FillAccount-from w v (holds n fds) (holds n fds) (rest fds k v) (omega arith) (later v)

  module _ (law : IsAccounted m n k) where
    after_create_account :
        (rest : List ℤ → M Filled) (l : L) (next : ℕ) (fds free : List ℤ) (w : World)
        (o : Outcome (ℤ × ℕ))
        → drop next fds ≡ negsuc 0 ∷ free
        → Created n w o
        → ((fd : ℕ) (v : World)
            → let fds' = set fds next (pos fd) in FillAccount n v (holds n fds') (rest fds' k v))
        → FillAccount n w
            (holds n fds)
            ((attempt (λ _ _. o) >>= after_create m rest l next fds) k w)
    after_create_account rest l next fds free w (failed v) e h later = omega arith
    after_create_account rest l next fds free w (done (negsuc i, granted) v) e h later = absurd h
    after_create_account rest l next fds free w (done (pos fd, granted) v) e h later =
        let fds' : List ℤ = set fds next (pos fd) in
        FillAccount-from w v (holds n fds) (holds n fds') _
          (omega (arith, holds-set n next fd fds free e))
          (after_rules_account rest fds' v (m.add_rules (pos fd) l k v) (law.ruled v (pos fd) l)
            (later fd))

    pub fill_account :
        (ls : List L) (next : ℕ) (fds : List ℤ) (w : World)
        → drop next fds ≡ replicate (count_wanted m.wanted ls) (negsuc 0)
        → FillAccount n w (holds n fds) (fill m ls next fds k w)
    unfolding fill
    fill_account [] next fds w e = omega arith
    fill_account (l ∷ ls) next fds w e = elim (Bool-cases (m.wanted l)) [
      | inl own ↦
          let free : List ℤ = replicate (count_wanted m.wanted ls) (negsuc 0) in
          let e' : drop next fds ≡ negsuc 0 ∷ free = rw (own, if◌then◌else◌) at e in
          rw (own, if◌then◌else◌)
            (after_create_account (λ fds'. fill m ls (suc next) fds') l next fds free w
              (m.create (m.handled l) k w) e' (law.created w (m.handled l))
              (λ fd v.
                fill_account ls (suc next) (set fds next (pos fd)) v
                  (drop-set next (pos fd) fds free e')))
      | inr skipped ↦
          rw (skipped, if◌then◌else◌)
            (fill_account ls next fds w (rw (skipped, if◌then◌else◌) at e))
    ]

pub fs-IsAccounted : (n : ℕ) (k : Kernel) → DescriptorsFit k → IsAccounted fs_maker n k
fs-IsAccounted n k fit = record {
  created = λ w handled. create_fs_ruleset-Created n k w handled fit;
  ruled = λ w fd l. add_path_rules-Balanced n k (items l.rule_count l.fs_rules) w fd;
}

pub net-IsAccounted : (n : ℕ) (k : Kernel) → DescriptorsFit k → IsAccounted net_maker n k
net-IsAccounted n k fit = record {
  created = λ w handled. create_net_ruleset-Created n k w handled fit;
  ruled = λ w fd l. add_port_rules-Balanced n k (items l.rule_count l.net_rules) w fd;
}
