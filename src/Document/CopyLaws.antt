-- ===== src/Document/CopyLaws.antt =====
-- src/landlock_policy_ir.c, `landlockd_policy_ir_copy`: each part of a document, copied.
use landlock.Base.{
  ℕ, pos, ◌<◌, ◌≡◌, refl, sym, arith, [], ◌∷◌, Bool, true, false, ◌==◌, Option, none, some, inl,
  inr, Bool-cases, if◌then◌else◌,
}
use landlock.Sys.{World}
use landlock.Sys.Types.{CString, Kernel}
use landlock.Memory.{Array, Copier, ◌then_copy◌, array, string, plain}
use landlock.Memory.Account.{
  string_blocks, array_blocks, no_blocks, IsArray, IsFilled, Anything, Copies, CopyLaw,
}
use landlock.Memory.CopyLaws.{
  plain-CopyLaw, string-CopyLaw, pair_blocks, then_copy-CopyLaw, by_fields-CopyLaw,
  copy_block-Copies, array-CopyLaw,
}
use landlock.Document.Parts.{
  fs_rule_copier, layer_copier, bind_copier, attach_copier, object_copier, addfd_copier, where_set,
  refused_where, net_copier, seccomp_copier, paths_copier,
}
use landlock.Document.Wellformed.{
  IsNamed, IsString, IsMode, IsFsRule, IsDocumentLayer, IsNetRule, IsBind, IsObject, IsAddfd,
  IsDeny, IsPart, fs_rule_blocks, layer_blocks, bind_blocks, object_blocks, addfd_blocks,
  paths_blocks,
}

fs_rule_copier-CopyLaw : CopyLaw fs_rule_copier fs_rule_blocks IsFsRule
fs_rule_copier-CopyLaw =
    by_fields-CopyLaw _ _ fs_rule_blocks _ (λ b. omega arith) (λ a. refl)
      (then_copy-CopyLaw no_blocks string_blocks (plain-CopyLaw 0 (λ n. 0 < n))
        (string-CopyLaw IsString))

pub layer_copier-CopyLaw : CopyLaw layer_copier layer_blocks IsDocumentLayer
layer_copier-CopyLaw =
    by_fields-CopyLaw _ _ layer_blocks _ (λ b. omega arith) (λ a. refl)
      (then_copy-CopyLaw no_blocks (array_blocks fs_rule_blocks) (plain-CopyLaw 0 (λ n. 0 < n))
        (array-CopyLaw fs_rule_copier fs_rule_blocks IsFsRule fs_rule_copier-CopyLaw))

pub bind_copier-CopyLaw : CopyLaw bind_copier bind_blocks IsBind
bind_copier-CopyLaw =
    by_fields-CopyLaw _ _ bind_blocks _ (λ b. omega arith) (λ a. refl)
      (then_copy-CopyLaw string_blocks _ (string-CopyLaw IsNamed) (
        then_copy-CopyLaw string_blocks no_blocks (string-CopyLaw IsNamed)
          (plain-CopyLaw false Anything)))

attach_copier-Copies :
    (paths : Array (Option CString))
    → IsFilled IsNamed paths
    → (k : Kernel) (w : World) → Copies paths_blocks paths w (attach_copier.run paths k w)
attach_copier-Copies none h k w = absurd h
attach_copier-Copies (some []) h k w = absurd h
attach_copier-Copies (some (p ∷ ps)) h k w =
    copy_block-Copies string string_blocks IsNamed (string-CopyLaw IsNamed) (p ∷ ps) h k w

attach_copier-CopyLaw : CopyLaw attach_copier paths_blocks (IsFilled IsNamed)
attach_copier-CopyLaw = record { zero_blocks = refl; law = attach_copier-Copies }

pub object_copier-CopyLaw : CopyLaw object_copier object_blocks IsObject
object_copier-CopyLaw =
    by_fields-CopyLaw _ _ object_blocks _ (λ b. omega arith) (λ a. refl)
      (then_copy-CopyLaw string_blocks _ (string-CopyLaw IsNamed) (
        then_copy-CopyLaw string_blocks _ (string-CopyLaw IsNamed) (
          then_copy-CopyLaw no_blocks paths_blocks (plain-CopyLaw 0 Anything)
            attach_copier-CopyLaw)))

pub addfd_copier-CopyLaw : CopyLaw addfd_copier addfd_blocks IsAddfd
addfd_copier-CopyLaw =
    by_fields-CopyLaw _ _ addfd_blocks _ (λ b. omega arith) (λ a. refl)
      (then_copy-CopyLaw string_blocks _ (string-CopyLaw IsNamed) (
        then_copy-CopyLaw string_blocks string_blocks (string-CopyLaw IsNamed)
          (string-CopyLaw IsMode)))

pub paths_copier-CopyLaw : CopyLaw paths_copier paths_blocks (IsArray IsNamed)
paths_copier-CopyLaw = array-CopyLaw string string_blocks IsNamed (string-CopyLaw IsNamed)

abbrev Cases : Bool → Type 0 → Type 0 → Type 0
Cases true P Q = P
Cases false P Q = Q

-- A part that is copied if its flag is set.
module _ {A : Type 0} (c : Copier A) (b : A → ℕ) (Ok Set : A → Type 0) (test : A → Bool) where
  where_set-CopyLaw :
      CopyLaw c b Ok
      → ((a : A) → Set a → Cases (test a) (Ok a) (a ≡ c.zeroed))
      → CopyLaw (where_set test c) b Set
  where_set-CopyLaw l h = record {
    zero_blocks = l.zero_blocks;
    law = λ a set k w. elim (Bool-cases (test a)) [
      | inl on ↦ let ok : Ok a = rw on at (h a set) in rw (on, if◌then◌else◌) (l.law a ok k w)
      | inr off ↦
          let zero : a ≡ c.zeroed = rw off at (h a set) in
          rw (off, if◌then◌else◌) (omega (arith, l.zero_blocks), (sym zero, refl))
    ];
  }

  refused_where-CopyLaw :
      CopyLaw c b Ok
      → ((a : A) → Set a → (test a ≡ false) × Ok a)
      → CopyLaw (refused_where test c) b Set
  refused_where-CopyLaw l h = record {
    zero_blocks = l.zero_blocks;
    law = λ a set k w. rw ((h a set).0, if◌then◌else◌) (l.law a (h a set).1 k w);
  }

abbrev PartOk : {A : Type 0} → (A → Type 0) → Bool × (ℕ × Array A) → Type 0
PartOk P p = Anything p.0 × ((0 < p.1.0) × IsArray P p.1.1)

abbrev pub IsWhole : {A : Type 0} → (A → Type 0) → Bool × (ℕ × Array A) → Type 0
IsWhole P p = IsPart P p.0 p.1.0 p.1.1

IsPart-Cases :
    {A : Type 0} (P : A → Type 0) (p : Bool × (ℕ × Array A))
    → IsWhole P p
    → Cases p.0 (PartOk P p) (p ≡ (false, (0, none)))
IsPart-Cases P (true, (n, rules)) h = (tt, h)
IsPart-Cases P (false, (n, rules)) h = λ i. (false, (h.0 i, h.1 i))

abbrev pub part_blocks : {A : Type 0} → Bool × (ℕ × Array A) → ℕ
part_blocks = pair_blocks no_blocks (pair_blocks no_blocks (array_blocks no_blocks))

part-CopyLaw :
    {A : Type 0} (z : A) (P : A → Type 0)
    → CopyLaw (plain false then_copy plain 0 then_copy array (plain z)) part_blocks (PartOk P)
part-CopyLaw z P = then_copy-CopyLaw no_blocks _ (plain-CopyLaw false Anything) (
    then_copy-CopyLaw no_blocks (array_blocks no_blocks) (plain-CopyLaw 0 (λ n. 0 < n))
      (array-CopyLaw (plain z) no_blocks P (plain-CopyLaw z P)))

pub net_copier-CopyLaw : CopyLaw net_copier part_blocks (IsWhole IsNetRule)
net_copier-CopyLaw =
    where_set-CopyLaw _ part_blocks (PartOk IsNetRule) (IsWhole IsNetRule) (λ p. p.0)
      (part-CopyLaw (record { port = 0; allowed_access = 0 }) IsNetRule) (IsPart-Cases IsNetRule)

-- An error number that is not 0 is not refused.
PartOk-not_zero :
    {A : Type 0} (P : A → Type 0) (p : Bool × (ℕ × Array A))
    → PartOk P p
    → ((p.1.0 == 0) ≡ false) × PartOk P p
PartOk-not_zero P p h = (ground arith, h)

pub seccomp_copier-CopyLaw : CopyLaw seccomp_copier part_blocks (IsWhole IsDeny)
seccomp_copier-CopyLaw =
    where_set-CopyLaw _ part_blocks (PartOk IsDeny) (IsWhole IsDeny) (λ p. p.0)
      (refused_where-CopyLaw _ part_blocks (PartOk IsDeny) (PartOk IsDeny) (λ p. p.1.0 == 0)
        (part-CopyLaw (record { syscall_nr = pos 0 }) IsDeny) (PartOk-not_zero IsDeny))
      (IsPart-Cases IsDeny)
