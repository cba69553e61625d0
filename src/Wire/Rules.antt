-- ===== src/Wire/Rules.antt =====
-- src/landlock_policy_loader.c: the loops of `load_ir_from_wire` for layers, ports, bind mounts and system
-- calls, on what `write_ir` writes of them.
use landlock.Base.{
  ℕ, ◌%◌, ◌^◌, ◌<◌, ◌-◌, ◌≡◌, refl, ap, arith, true, false, ltb, ◌==◌, ℤ, pos, negsuc,
}
use landlock.Base.{Option, none, some, List, [], ◌∷◌, ◌++◌, length, drop, set}
use landlock.Memory.{Array, items_of}
use landlock.Memory.Account.{All, IsArray}
use landlock.Memory.Gains.{appended}
use landlock.Ir.{FsRule, NetRule, ExceptionRule}
use landlock.Document.Types.{Document, DocumentLayer}
use landlock.Document.Operations.{fs_layer, fs_rule, net_rule, deny_rule}
use landlock.Document.Spec.{extended}
use landlock.Document.Wellformed.{IsString, IsFsRule, IsDocumentLayer, IsNetRule, IsDeny}
use landlock.Wire.Reader.{Cursor, ◌>>◌, give_up, adds, rounds}
use landlock.Wire.Load.{load_fs_rule, count_layers, load_layer, load_net_rule}
use landlock.Wire.Whole.{load_deny}
use landlock.Wire.Store.{
  each, fs_rule_chunks, count_of, layer_chunks, net_rule_chunks, number_of, deny_chunks, onto,
}
use landlock.Wire.Parses.{
  at, Parses, bind-Parses, unless_bad-Parses, adds-Parses, read_number-Parses, IsWireText,
  read_bytes-Parses,
}
use landlock.Wire.Items.{Round, array-Parses, added-Parses, string-Parses}

drop-length : {A : Type 0} (xs ys : List A) → drop (length xs) (xs ++ ys) ≡ ys
drop-length [] ys = refl
drop-length (x ∷ xs) ys = drop-length xs ys

set-length :
    {A : Type 0} (xs : List A) (y z : A) → set (xs ++ (y ∷ [])) (length xs) z ≡ xs ++ (z ∷ [])
set-length [] y z = refl
set-length (x ∷ xs) y z = ap (◌∷◌ x) (set-length xs y z)

-- A layer behind others, with the rules that it has so far.
abbrev last_layer : Document → List DocumentLayer → ℕ → Array FsRule → Document
last_layer e before handled rules = record e {
  fs_layers = some (before ++ (record { handled_access_fs = handled; rules = rules } ∷ []));
}

fs_rule_added :
    (e : Document) (before : List DocumentLayer) (handled : ℕ) (acc : Array FsRule) (r : FsRule)
    → IsFsRule r
    → extended (fs_rule (length before) r.path r.allowed_access) (last_layer e before handled acc)
      ≡ some (last_layer e before handled (appended acc r))
unfolding extended
fs_rule_added e before handled acc r h = accepted r.path r.allowed_access h.0 h.1
  where
    accepted :
        (path : Option _) (allowed : ℕ)
        → 0 < allowed
        → IsString path
        → extended (fs_rule (length before) path allowed) (last_layer e before handled acc)
          ≡ some (
              last_layer e before handled
                (appended acc (record { path = path; allowed_access = allowed })))
    accepted none allowed h p = absurd p
    accepted (some s) allowed h p =
        let positive : (allowed == 0) ≡ false = ground arith in
        rw (positive, drop-length, set-length) refl

abbrev pub IsWireRule : FsRule → Type 0
IsWireRule r = IsFsRule r × IsWireText r.path × (r.allowed_access < 2 ^ 64)

load_fs_rule-Parses :
    (e : Document) (before : List DocumentLayer) (handled : ℕ)
    → Round fs_rule_chunks (load_fs_rule (length before)) IsWireRule (last_layer e before handled)
unfolding load_fs_rule fs_rule_chunks onto
load_fs_rule-Parses e before handled r acc rest h =
    bind-Parses _ (read_number-Parses 8 r.allowed_access h.2) (
      bind-Parses _ (read_bytes-Parses r.path h.1) (
        bind-Parses _ (string-Parses r.path h.0.1 h.1) (
          added-Parses 1 (fs_rule (length before) r.path r.allowed_access)
            (fs_rule_added e before handled acc r h.0))))

abbrev pub IsWireLayer : DocumentLayer → Type 0
IsWireLayer l =
    IsDocumentLayer l
    × (l.handled_access_fs < 2 ^ 64)
    × (count_of l.rules < 2 ^ 32)
    × All IsWireRule (items_of l.rules)

count_layers-Parses : {c : Cursor} → Parses 0 0 c (length (items_of c.doc.fs_layers)) c count_layers
count_layers-Parses = record { law = λ h k w. ((refl, refl, h), omega arith, refl) }

layer_added :
    (e : Document) (acc : Array DocumentLayer) (handled : ℕ)
    → 0 < handled
    → extended (fs_layer handled) (record e { fs_layers = acc })
      ≡ some (last_layer e (items_of acc) handled none)
unfolding extended
layer_added e acc handled h =
    let positive : (handled == 0) ≡ false = ground arith in rw positive refl

load_layer-Parses :
    (e : Document) → Round layer_chunks load_layer IsWireLayer (λ acc. record e { fs_layers = acc })
unfolding load_layer layer_chunks onto
load_layer-Parses e l acc rest h = bind-Parses _ (read_number-Parses 8 l.handled_access_fs h.1) (
    bind-Parses _ (read_number-Parses 4 (count_of l.rules) h.2) (
      bind-Parses
        (λ i. adds (fs_layer l.handled_access_fs) >> rounds (count_of l.rules) (load_fs_rule i))
        count_layers-Parses
        (bind-Parses (λ u. rounds (count_of l.rules) (load_fs_rule (length (items_of acc))))
          (adds-Parses (fs_layer l.handled_access_fs) (layer_added e acc l.handled_access_fs h.0.0))
          (array-Parses fs_rule_chunks (load_fs_rule (length (items_of acc))) IsWireRule
            (last_layer e (items_of acc) l.handled_access_fs) IsFsRule
            (load_fs_rule-Parses e (items_of acc) l.handled_access_fs) l.rules rest h.0.1 h.3))))

pub layers-Parses :
    (e : Document) (xs : Array DocumentLayer) (rest : List ℕ)
    → IsArray IsDocumentLayer xs
    → All IsWireLayer (items_of xs)
    → Parses 0 0
        (at (onto (each layer_chunks (items_of xs)) rest) (record e { fs_layers = none }))
        tt
        (at rest (record e { fs_layers = xs }))
        (rounds (length (items_of xs)) load_layer)
layers-Parses e xs rest q p =
    array-Parses layer_chunks load_layer IsWireLayer (λ acc. record e { fs_layers = acc })
      IsDocumentLayer (load_layer-Parses e) xs rest q p

-- A port is a `uint16_t`.
abbrev pub IsWirePort : NetRule → Type 0
IsWirePort r = IsNetRule r × (r.port < 2 ^ 16) × (r.allowed_access < 2 ^ 64)

net_rule_added :
    (e : Document) (acc : Array NetRule) (r : NetRule)
    → IsWirePort r
    → extended
        (net_rule (r.port % 2 ^ 16) r.allowed_access)
        (record e { net_enabled = true; net_rules = acc })
      ≡ some (record e { net_enabled = true; net_rules = appended acc r })
unfolding extended
net_rule_added e acc r h =
    let positive : (r.allowed_access == 0) ≡ false = ground arith in
    let small : r.port % 2 ^ 16 ≡ r.port = omega arith in rw (positive, small) refl

pub load_net_rule-Parses :
    (e : Document)
    → Round net_rule_chunks load_net_rule IsWirePort
        (λ acc. record e { net_enabled = true; net_rules = acc })
unfolding load_net_rule net_rule_chunks onto
load_net_rule-Parses e r acc rest h = bind-Parses _ (read_number-Parses 4 r.port (omega arith)) (
    bind-Parses _ (read_number-Parses 8 r.allowed_access h.2)
      (adds-Parses (net_rule (r.port % 2 ^ 16) r.allowed_access) (net_rule_added e acc r h)))

-- A system call is an `int`.
abbrev pub IsWireDeny : ExceptionRule → Type 0
IsWireDeny r = IsDeny r × (number_of r.syscall_nr < 2 ^ 31)

deny_rule_added :
    (e : Document) (acc : Array ExceptionRule) (r : ExceptionRule)
    → IsDeny r
    → extended
        (deny_rule (pos (number_of r.syscall_nr)))
        (record e { seccomp_enabled = true; seccomp_deny_rules = acc })
      ≡ some (record e { seccomp_enabled = true; seccomp_deny_rules = appended acc r })
unfolding extended
deny_rule_added e acc r h = accepted r.syscall_nr h
  where
    accepted :
        (nr : ℤ)
        → IsDeny (record { syscall_nr = nr })
        → extended
            (deny_rule (pos (number_of nr)))
            (record e { seccomp_enabled = true; seccomp_deny_rules = acc })
          ≡ some (record e {
            seccomp_enabled = true;
            seccomp_deny_rules = appended acc (record { syscall_nr = nr });
          })
    accepted (pos n) h = refl
    accepted (negsuc n) h = cc

pub load_deny-Parses :
    (e : Document)
    → Round deny_chunks load_deny IsWireDeny
        (λ acc. record e { seccomp_enabled = true; seccomp_deny_rules = acc })
unfolding load_deny deny_chunks onto
load_deny-Parses e r acc rest h =
    bind-Parses _ (read_number-Parses 4 (number_of r.syscall_nr) (omega (arith, h.1))) (
      bind-Parses _
        (unless_bad-Parses (ltb (2 ^ 31 - 1) (number_of r.syscall_nr)) give_up
          (ground (arith, h.1)))
        (adds-Parses (deny_rule (pos (number_of r.syscall_nr))) (deny_rule_added e acc r h.0)))
