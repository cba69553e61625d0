-- ===== src/Wire/Addfds.antt =====
-- src/landlock_policy_loader.c: the loop of `load_ir_from_wire` for descriptors, on what `write_ir` writes.
use landlock.Base.{ℕ, ◌+◌, ◌≡◌, refl, ap, true, false, not}
use landlock.Base.{Option, none, some, List, [], ◌∷◌, length}
use landlock.Sys.Types.{CString}
use landlock.Memory.{Array, items_of, frees}
use landlock.Memory.Account.{All, IsArray, string_blocks}
use landlock.Memory.Gains.{appended}
use landlock.Memory.Releases.{frees-Releases}
use landlock.Document.Types.{Document, AddfdRule}
use landlock.Document.Add.{kept_mode}
use landlock.Document.Operations.{addfd_rule}
use landlock.Document.Spec.{extended}
use landlock.Document.Wellformed.{IsMode, IsAddfd}
use landlock.Wire.Cleanups.{free_invalid}
use landlock.Wire.Reader.{Cursor, give_up, rounds}
use landlock.Wire.Load.{action_is_known, load_mode, load_addfd}
use landlock.Wire.Store.{text_of, string_chunks, each, addfd_chunks, onto}
use landlock.Wire.Reads.{free_invalid-Releases}
use landlock.Wire.Parses.{
  at, Parses, pure-Parses, bind-Parses, undo-Parses, unless_bad-Parses, IsWireText,
  read_bytes-Parses,
}
use landlock.Wire.Items.{
  onto-append, Round, array-Parses, added-Parses, string-Parses, named-IsString, IsWirePath,
}
use landlock.Wire.Objects.{held_bytes-Parses, held_string-Parses, named_is_blank}

abbrev pub IsWireAddfd : AddfdRule → Type 0
IsWireAddfd r =
    IsWirePath r.action
    × IsWirePath r.target
    × IsMode r.mode
    × IsWireText r.mode
    × (action_is_known r.action ≡ true)

mode_kept : (s : Option CString) → IsMode s → kept_mode s ≡ s
mode_kept none h = refl
mode_kept (some []) h = absurd h
mode_kept (some (c ∷ cs)) h = refl

addfd_added :
    (e : Document) (r : AddfdRule) (acc : Array AddfdRule)
    → IsWireAddfd r
    → extended (addfd_rule r.action r.target r.mode) (record e { broker_addfd_rules = acc })
      ≡ some (record e { broker_addfd_rules = appended acc r })
unfolding extended
addfd_added e r acc h =
    rw (named_is_blank r.action h.0.0, named_is_blank r.target h.1.0, mode_kept r.mode h.2) refl

load_mode-Parses :
    {c : Cursor} (s : Option CString)
    → IsMode s
    → IsWireText s
    → Parses 0 (string_blocks s) c s c (load_mode (text_of s))
unfolding load_mode
load_mode-Parses none h t = pure-Parses none
load_mode-Parses (some []) h t = absurd h
load_mode-Parses (some (c ∷ cs)) h t = string-Parses (some (c ∷ cs)) tt t

load_addfd-Parses :
    (e : Document)
    → Round addfd_chunks load_addfd IsWireAddfd (λ acc. record e { broker_addfd_rules = acc })
unfolding load_addfd addfd_chunks onto
load_addfd-Parses e r acc rest h =
    let known : not (action_is_known r.action) ≡ false = ap not h.4 in
    rw (onto-append (string_chunks r.action)) (
      rw (onto-append (string_chunks r.target)) (
        bind-Parses _ (read_bytes-Parses r.action h.0.1) (
          bind-Parses _ (string-Parses r.action (named-IsString r.action h.0.0) h.0.1) (
            bind-Parses _
              (undo-Parses (free_invalid 1) (free_invalid-Releases 1)
                (unless_bad-Parses (not (action_is_known r.action)) give_up known))
              (bind-Parses _ (held_bytes-Parses 1 r.target h.1.1) (
                bind-Parses _ (held_string-Parses 1 r.target h.1) (
                  bind-Parses _ (held_bytes-Parses 2 r.mode h.3) (
                    bind-Parses _
                      (undo-Parses (frees 2) (frees-Releases 2) (load_mode-Parses r.mode h.2 h.3))
                      (added-Parses (2 + string_blocks r.mode) (addfd_rule r.action r.target r.mode)
                        (addfd_added e r acc h))))))))))

pub addfds-Parses :
    (e : Document) (xs : Array AddfdRule) (rest : List ℕ)
    → IsArray IsAddfd xs
    → All IsWireAddfd (items_of xs)
    → Parses 0 0
        (at (onto (each addfd_chunks (items_of xs)) rest) (record e { broker_addfd_rules = none }))
        tt
        (at rest (record e { broker_addfd_rules = xs }))
        (rounds (length (items_of xs)) load_addfd)
addfds-Parses e xs rest q p =
    array-Parses addfd_chunks load_addfd IsWireAddfd (λ acc. record e { broker_addfd_rules = acc })
      IsAddfd (load_addfd-Parses e) xs rest q p
