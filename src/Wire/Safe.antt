-- ===== src/Wire/Safe.antt =====
-- src/landlock_policy_loader.c: the parts of `load_ir_from_wire` on any bytes.
use landlock.Base.{ℕ, zero, suc, ◌+◌, ◌*◌, ◌≡◌, refl, arith, ◌%◌, ◌^◌, not, ltb, ◌==◌, Bool}
use landlock.Base.{none, some, List, [], ◌∷◌, length}
use landlock.Sys.{M, call}
use landlock.Sys.Types.{Call}
use landlock.Memory.{frees}
use landlock.Memory.Releases.{Releases, frees-Releases}
use landlock.Memory.Account.{string_blocks}
use landlock.Document.Add.{PathField, BindField}
use landlock.Document.Operations.{
  Operation, fs_layer, fs_rule, net_rule, path_rule, bind_rule, object_rule, addfd_rule,
}
use landlock.Document.Wellformed.{IsDocument}
use landlock.Document.Extended.{extended-IsDocument}
use landlock.Wire.Bytes.{number, text}
use landlock.Wire.Cleanups.{free_invalid, free_saved}
use landlock.Wire.Reader.{
  Cursor, L, pure, ◌>>=◌, ◌>>◌, give_up, refuse, unless_bad, lift, adds, undo, next_bytes,
  read_number, read_numbers, read_bytes, new_string, release, rounds,
}
use landlock.Wire.Load.{
  load_path, load_fs_rule, count_layers, load_layer, load_net_rule, read_flag, load_bind,
  load_attach_paths, read_attrs, load_object, action_is_known, load_mode, load_addfd,
}
use landlock.Wire.Reads.{
  Reads, pure-Reads, bind-Reads, give_up-Reads, refuse-Reads, undo-Reads, unless_bad-Reads,
  adds-Reads, next_bytes-Reads, allocate-Reads, new_string-Reads, release-Reads,
  free_invalid-Releases, free_saved-Releases,
}

abbrev pub Good : {A : Type 0} → A → Cursor → Type 0
Good a c = IsDocument c.doc

-- On any bytes and a well-formed document, which stays so: `before` blocks become `after`.
pub record Keeps {A : Type 0} (before : ℕ) (after : A → ℕ) (m : L A) : Type 0 where
  pub law : (c : Cursor) → IsDocument c.doc → Reads (Unit {0}) before after c Good m

pub pure-Keeps : {A : Type 0} {n : ℕ} {after : A → ℕ} (a : A) → after a ≡ n → Keeps n after (pure a)
pure-Keeps {n} {after} a e = record { law = λ c h. pure-Reads Unit n after c Good a e h }

module _ {A : Type 0} where
  pub bind-Keeps :
      {B : Type 0} {n : ℕ} {mid : A → ℕ} {after : B → ℕ} {m : L A} {f : A → L B}
      → Keeps n mid m
      → ((a : A) → Keeps (mid a) after (f a))
      → Keeps n after (m >>= f)
  bind-Keeps {n} {mid} {after} {m} {f} h l = record {
    law = λ c d. bind-Reads Unit n mid after c Good Good m f (h.law c d) (λ a c' g. (l a).law c' g);
  }

  pub undo-Keeps :
      {n : ℕ} {after : A → ℕ} {m : L A} (out : M (Unit {0}))
      → Releases n out
      → Keeps 0 after m
      → Keeps n (λ a. n + after a) (undo out m)
  undo-Keeps {n} {after} {m} out r h = record {
    law = λ c d. undo-Reads Unit after c Good n out m r (h.law c d);
  }

pub give_up-Keeps : {A : Type 0} {after : A → ℕ} → Keeps 0 after (give_up {A = A})
give_up-Keeps {after} = record { law = λ c d. give_up-Reads Unit after c Good d tt }

pub refuse-Keeps : {A : Type 0} {after : A → ℕ} → Keeps 0 after (refuse {A = A})
refuse-Keeps {after} = record { law = λ c d. refuse-Reads Unit after c Good d tt }

pub unless_bad-Keeps :
    (bad : Bool) (out : L (Unit {0})) → Keeps 0 (λ _. 0) out → Keeps 0 (λ _. 0) (unless_bad bad out)
unless_bad-Keeps bad out h = record {
  law = λ c d. unless_bad-Reads Unit c d bad out Good (λ e. h.law c d) (λ e. d);
}

pub adds-Keeps : (op : Operation) → Keeps 0 (λ _. 0) (adds op)
adds-Keeps op = record {
  law = λ c d. adds-Reads Unit c d op Good (λ e. tt) (λ x e. extended-IsDocument op c.doc x d e);
}

pub next_bytes-Keeps : (n : ℕ) → Keeps 0 (λ _. 0) (next_bytes n)
next_bytes-Keeps n = record { law = λ c d. next_bytes-Reads Unit c d n Good (λ e. tt) (λ p e. d) }

pub read_number-Keeps : (width : ℕ) → Keeps 0 (λ _. 0) (read_number width)
unfolding read_number
read_number-Keeps width = bind-Keeps (next_bytes-Keeps width) (λ bs. pure-Keeps (number bs) refl)

pub read_numbers-Keeps : (widths : List ℕ) → Keeps 0 (λ _. 0) (read_numbers widths)
unfolding read_numbers
read_numbers-Keeps [] = pure-Keeps [] refl
read_numbers-Keeps (width ∷ ws) =
    bind-Keeps (read_number-Keeps width)
      (λ n. bind-Keeps (read_numbers-Keeps ws) (λ ns. pure-Keeps (n ∷ ns) refl))

pub read_bytes-Keeps : Keeps 0 (λ _. 0) read_bytes
unfolding read_bytes
read_bytes-Keeps = bind-Keeps (read_number-Keeps 4) next_bytes-Keeps

pub allocate-Keeps : (n : ℕ) → Keeps 0 (λ _. 1) (lift (call (Call.allocate n)))
allocate-Keeps n = record { law = λ c d. allocate-Reads Unit c d n Good (λ v. d) }

pub new_string-Keeps : (bs : List ℕ) → Keeps 0 (λ _. 1) (new_string bs)
new_string-Keeps bs = record { law = λ c d. new_string-Reads Unit c d bs Good d }

pub release-Keeps : (n : ℕ) → Keeps n (λ _. 0) (release n)
release-Keeps n = record { law = λ c d. release-Reads Unit n c Good d }

pub rounds-Keeps :
    (n : ℕ) (item : L (Unit {0})) → Keeps 0 (λ _. 0) item → Keeps 0 (λ _. 0) (rounds n item)
unfolding rounds
rounds-Keeps zero item h = pure-Keeps tt refl
rounds-Keeps (suc n) item h = bind-Keeps h (λ u. rounds-Keeps n item h)

-- The end of a round: the call that adds, and what is freed then, on success or after an error.
pub added-Keeps :
    (n : ℕ) (op : Operation) → Keeps n (λ _. 0) (undo (free_saved n) (adds op) >> release n)
added-Keeps n op =
    bind-Keeps (undo-Keeps (free_saved n) (free_saved-Releases n) (adds-Keeps op))
      (λ u. let same : n + 0 ≡ n = omega arith in rw same (release-Keeps n))

pub load_path-Keeps : (field : PathField) → Keeps 0 (λ _. 0) (load_path field)
unfolding load_path
load_path-Keeps field =
    bind-Keeps read_bytes-Keeps
      (λ bs. bind-Keeps (new_string-Keeps bs) (λ path. added-Keeps 1 (path_rule field path)))

pub load_fs_rule-Keeps : (layer_index : ℕ) → Keeps 0 (λ _. 0) (load_fs_rule layer_index)
unfolding load_fs_rule
load_fs_rule-Keeps layer_index = bind-Keeps (read_number-Keeps 8) (λ allowed.
    bind-Keeps read_bytes-Keeps (λ bs.
      bind-Keeps (new_string-Keeps bs) (λ path. added-Keeps 1 (fs_rule layer_index path allowed))))

count_layers-Keeps : Keeps 0 (λ _. 0) count_layers
count_layers-Keeps = record { law = λ c d k w. (d, omega arith, refl) }

pub load_layer-Keeps : Keeps 0 (λ _. 0) load_layer
unfolding load_layer
load_layer-Keeps = bind-Keeps (read_number-Keeps 8) (λ handled.
    bind-Keeps (read_number-Keeps 4) (λ n. bind-Keeps count_layers-Keeps (λ i.
      bind-Keeps (adds-Keeps (fs_layer handled))
        (λ u. rounds-Keeps n (load_fs_rule i) (load_fs_rule-Keeps i)))))

pub load_net_rule-Keeps : Keeps 0 (λ _. 0) load_net_rule
unfolding load_net_rule
load_net_rule-Keeps = bind-Keeps (read_number-Keeps 4) (λ port.
    bind-Keeps (read_number-Keeps 8) (λ allowed. adds-Keeps (net_rule (port % 2 ^ 16) allowed)))

read_flag-Keeps : Keeps 0 (λ _. 0) read_flag
unfolding read_flag
read_flag-Keeps = bind-Keeps (read_number-Keeps 4) (λ flag.
    bind-Keeps (unless_bad-Keeps (ltb 1 flag) give_up give_up-Keeps)
      (λ u. pure-Keeps (not (flag == 0)) refl))

-- The next bytes, and a string of them, with `n` blocks that are freed after an error.
held_bytes-Keeps : (n : ℕ) → Keeps n (λ _. n) (undo (free_invalid n) read_bytes)
held_bytes-Keeps n =
    let same : n + 0 ≡ n = omega arith in
    let h : Keeps n (λ _. n + 0) (undo (free_invalid n) read_bytes) =
      undo-Keeps (free_invalid n) (free_invalid-Releases n) read_bytes-Keeps in
    rw same at h

held_string-Keeps : (n : ℕ) (bs : List ℕ) → Keeps n (λ _. n + 1) (undo (frees n) (new_string bs))
held_string-Keeps n bs = undo-Keeps (frees n) (frees-Releases n) (new_string-Keeps bs)

pub load_bind-Keeps : (field : BindField) → Keeps 0 (λ _. 0) (load_bind field)
unfolding load_bind
load_bind-Keeps field = bind-Keeps read_bytes-Keeps (λ bs.
    bind-Keeps (new_string-Keeps bs) (λ source. bind-Keeps (held_bytes-Keeps 1) (λ cs.
      bind-Keeps (held_string-Keeps 1 cs) (λ target.
        bind-Keeps (undo-Keeps (free_saved 2) (free_saved-Releases 2) read_flag-Keeps)
          (λ flag. added-Keeps 2 (bind_rule field source target flag))))))

attach_paths-Keeps : (held n : ℕ) → Keeps held (λ ps. held + length ps) (load_attach_paths held n)
unfolding load_attach_paths
attach_paths-Keeps held zero = pure-Keeps [] (omega arith)
attach_paths-Keeps held (suc n) = bind-Keeps (held_bytes-Keeps held) (λ bs.
    bind-Keeps (undo-Keeps (free_saved held) (free_saved-Releases held) (new_string-Keeps bs))
      (λ path.
        let next : held + 1 ≡ suc held = omega arith in
        rw next (
          bind-Keeps (attach_paths-Keeps (suc held) n)
            (λ ps. pure-Keeps (path ∷ ps) (omega arith)))))

read_attrs-Keeps : Keeps 0 (λ _. 0) read_attrs
unfolding read_attrs
read_attrs-Keeps = bind-Keeps (read_number-Keeps 4) (λ n. bind-Keeps (read_number-Keeps 4) (λ lo.
    bind-Keeps (read_number-Keeps 4) (λ hi.
      bind-Keeps (unless_bad-Keeps (n == 0) refuse refuse-Keeps)
        (λ u. pure-Keeps (n, hi * 2 ^ 32 + lo) refl))))

pub load_object-Keeps : Keeps 0 (λ _. 0) load_object
unfolding load_object
load_object-Keeps = bind-Keeps read_bytes-Keeps (λ bs. bind-Keeps (new_string-Keeps bs) (λ name.
    bind-Keeps (held_bytes-Keeps 1) (λ cs. bind-Keeps (held_string-Keeps 1 cs) (λ fs_type.
      bind-Keeps (undo-Keeps (free_invalid 2) (free_invalid-Releases 2) read_attrs-Keeps) (λ attrs.
        bind-Keeps (undo-Keeps (frees 2) (frees-Releases 2) (allocate-Keeps attrs.0)) (λ block.
          bind-Keeps (attach_paths-Keeps 3 attrs.0)
            (λ ps. added-Keeps (3 + length ps) (object_rule name fs_type (some ps) attrs.1))))))))

load_mode-Keeps : (bs : List ℕ) → Keeps 0 string_blocks (load_mode bs)
unfolding load_mode new_string
load_mode-Keeps [] = pure-Keeps none refl
load_mode-Keeps (b ∷ bs) =
    bind-Keeps (allocate-Keeps (length (b ∷ bs) + 1)) (λ v. pure-Keeps (some (text (b ∷ bs))) refl)

pub load_addfd-Keeps : Keeps 0 (λ _. 0) load_addfd
unfolding load_addfd
load_addfd-Keeps = bind-Keeps read_bytes-Keeps (λ bs. bind-Keeps (new_string-Keeps bs) (λ action.
    bind-Keeps
      (undo-Keeps (free_invalid 1) (free_invalid-Releases 1)
        (unless_bad-Keeps (not (action_is_known action)) give_up give_up-Keeps))
      (λ u. bind-Keeps (held_bytes-Keeps 1) (λ cs. bind-Keeps (held_string-Keeps 1 cs) (λ target.
        bind-Keeps (held_bytes-Keeps 2) (λ ms.
          bind-Keeps (undo-Keeps (frees 2) (frees-Releases 2) (load_mode-Keeps ms))
            (λ mode. added-Keeps (2 + string_blocks mode) (addfd_rule action target mode))))))))
