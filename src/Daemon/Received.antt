-- ===== src/Daemon/Received.antt =====
-- src/landlockd_daemon.c: what the daemon receives from any client.
use landlock.Base.{
  ℕ, zero, suc, ◌+◌, ◌≤◌, ◌<◌, ◌≡◌, refl, arith, inr, Bool, false, ◌||◌, ◌==◌, ltb, Option, none,
  some, List, [], ◌∷◌, length,
}
use landlock.Sys.{call}
use landlock.Sys.Types.{CString, Call}
use landlock.Document.Wellformed.{IsDocument}
use landlock.Wire.Bytes.{number, cut, longer_by, text}
use landlock.Wire.Cleanups.{free_saved}
use landlock.Wire.Reader.{Cursor, L, pure, ◌>>=◌, refuse, unless_bad, lift, undo}
use landlock.Wire.Reads.{
  Reads, pure-Reads, bind-Reads, undo-Reads, unless_bad-Reads, refuse-Reads, allocate-Reads,
  free_saved-Releases,
}
use landlock.Daemon.Requests.{
  Ending, max_args, max_policy_len, max_request_bytes, arrived, read_all, read_len, bad_argument,
  receive_arguments, receive_run,
}

module _ (ending : Ending) (Bad : Type 0) (c : Cursor) (whole : IsDocument c.doc) where
  arrived-Reads :
      (P : List ℕ → Cursor → Type 0) (o : Option (List ℕ × List ℕ))
      → (o ≡ none → Bad)
      → ((p : List ℕ × List ℕ) → o ≡ some p → P p.0 (record c { rest = p.1 }))
      → Reads Bad 0 (λ _. 0) c P (arrived ending o)
  arrived-Reads P none b p k w = (whole, omega arith, omega arith, inr (b refl))
  arrived-Reads P (some q) b p k w = (p q refl, omega arith, refl)

  pub read_all-Reads :
      (n : ℕ) (P : List ℕ → Cursor → Type 0)
      → (cut n c.rest ≡ none → Bad)
      → ((p : List ℕ × List ℕ) → cut n c.rest ≡ some p → P p.0 (record c { rest = p.1 }))
      → Reads Bad 0 (λ _. 0) c P (read_all ending n)
  unfolding read_all
  read_all-Reads n P b p k w = arrived-Reads P (cut n c.rest) b p k w

longer-length :
    (b n : ℕ) (o : Option (List ℕ × List ℕ)) (p : List ℕ × List ℕ)
    → ((q : List ℕ × List ℕ) → o ≡ some q → length q.0 ≡ n)
    → longer_by b o ≡ some p
    → length p.0 ≡ suc n
longer-length b n none p h g = cc
longer-length b n (some q) p h g =
    let same : (b ∷ q.0, q.1) ≡ p = cc in rw (← same) (omega (arith, h q refl))

length-cut : (n : ℕ) (bs : List ℕ) (p : List ℕ × List ℕ) → cut n bs ≡ some p → length p.0 ≡ n
unfolding cut
length-cut zero bs p e = let same : ([], bs) ≡ p = cc in rw (← same) refl
length-cut (suc n) [] p e = cc
length-cut (suc n) (b ∷ bs) p e = longer-length b n (cut n bs) p (λ q f. length-cut n bs q f) e

length-text-le : (bs : List ℕ) → length (text bs) ≤ length bs
unfolding text
length-text-le [] = omega arith
length-text-le (b ∷ bs) = ground (arith, length-text-le bs)

-- On any bytes: a value with a property, and `before` blocks become `after`.
pub record Yields {A : Type 0} (before : ℕ) (after : A → ℕ) (Q : A → Type 0) (m : L A)
    : Type 0 where
  pub law :
      (c : Cursor)
      → IsDocument c.doc
      → Reads Unit before after c (λ a c'. IsDocument c'.doc × Q a) m

pure-Yields :
    {A : Type 0} {n : ℕ} {after : A → ℕ} {Q : A → Type 0} (a : A)
    → after a ≡ n
    → Q a
    → Yields n after Q (pure a)
pure-Yields {n} {after} {Q} a e q = record {
  law = λ c d. pure-Reads Unit n after c (λ a c'. IsDocument c'.doc × Q a) a e (d, q);
}

bind-Yields :
    {A B : Type 0} {n : ℕ} {mid : A → ℕ} {after : B → ℕ} {P : A → Type 0} {Q : B → Type 0} {m : L A}
    {f : A → L B}
    → Yields n mid P m
    → ((a : A) → P a → Yields (mid a) after Q (f a))
    → Yields n after Q (m >>= f)
bind-Yields {n} {mid} {after} {P} {Q} {m} {f} h l = record {
  law = λ c d.
      bind-Reads Unit n mid after c (λ a c'. IsDocument c'.doc × P a)
        (λ b c'. IsDocument c'.doc × Q b) m f (h.law c d) (λ a c' g. (l a g.1).law c' g.0);
}

held-Yields :
    {A : Type 0} {after : ℕ} {Q : A → Type 0} {m : L A} (n : ℕ)
    → Yields 0 (λ _. after) Q m
    → Yields n (λ _. n + after) Q (undo (free_saved n) m)
held-Yields {after} {Q} {m} n h = record {
  law = λ c d.
      undo-Reads Unit (λ _. after) c (λ a c'. IsDocument c'.doc × Q a) n (free_saved n) m
        (free_saved-Releases n) (h.law c d);
}

refused-Yields : (bad : Bool) → Yields 0 (λ _. 0) (λ u. bad ≡ false) (unless_bad bad refuse)
refused-Yields bad = record {
  law = λ c d.
      unless_bad-Reads Unit c d bad refuse (λ u c'. IsDocument c'.doc × (bad ≡ false))
        (λ e.
          refuse-Reads Unit {A = Unit {0}} (λ _. 0) c (λ u c'. IsDocument c'.doc × (bad ≡ false)) d
            tt)
        (λ e. (d, e));
}

allocate-Yields : (n : ℕ) → Yields 0 (λ _. 1) (λ v. Unit) (lift (call (Call.allocate n)))
allocate-Yields n = record {
  law = λ c d. allocate-Reads Unit c d n (λ v c'. IsDocument c'.doc × Unit) (λ v. (d, tt));
}

-- The bytes of the request that arguments stand for, at least.
abbrev pub spent : List CString → ℕ
spent [] = 0
spent (a ∷ args) = 4 + length a + spent args

abbrev pub IsWithin : ℕ → ℕ → List CString → Type 0
IsWithin total n args = (length args ≡ n) × (total + spent args ≤ max_request_bytes)

-- What a client may ask for.
abbrev pub IsRequest : ℕ → CString × List CString → Type 0
IsRequest argc p =
    (length p.1 ≡ argc)
    × (0 < argc)
    × (argc ≤ max_args)
    × (length p.0 ≤ max_policy_len)
    × (length p.0 + spent p.1 ≤ max_request_bytes)

module _ (ending : Ending) where
  read_all-Yields : (n : ℕ) → Yields 0 (λ _. 0) (λ bs. length bs ≡ n) (read_all ending n)
  read_all-Yields n = record {
    law = λ c d.
        read_all-Reads ending Unit c d n (λ bs c'. IsDocument c'.doc × (length bs ≡ n)) (λ e. tt)
          (λ p e. (d, length-cut n c.rest p e));
  }

  read_len-Yields : Yields 0 (λ _. 0) (λ n. Unit) (read_len ending)
  read_len-Yields = bind-Yields (read_all-Yields 4) (λ bs e. pure-Yields (number bs) refl tt)

  arguments-Yields :
      (held total n : ℕ)
      → total ≤ max_request_bytes
      → Yields held (λ _. held + n) (IsWithin total n) (receive_arguments ending held total n)
  unfolding receive_arguments
  arguments-Yields held total zero t = pure-Yields [] (omega arith) (refl, omega arith)
  arguments-Yields held total (suc n) t =
      let same : held + 0 ≡ held = omega arith in
      let next : held + 1 ≡ suc held = omega arith in
      let next_same : suc held + 0 ≡ suc held = omega arith in
      bind-Yields (held-Yields held read_len-Yields) (λ arg_len l. rw same (
        bind-Yields (held-Yields held (refused-Yields (bad_argument (total + 4) arg_len))) (λ u g.
          rw same (
            let small : total + 4 + arg_len ≤ max_request_bytes = ground arith in
            bind-Yields (held-Yields held (allocate-Yields (arg_len + 1))) (λ block a. rw next (
              bind-Yields (held-Yields (suc held) (read_all-Yields arg_len)) (λ bs e. rw next_same (
                bind-Yields (arguments-Yields (suc held) (total + 4 + arg_len) n small) (λ args r.
                  pure-Yields (text bs ∷ args) (omega arith)
                    (omega (arith, r.0), omega (arith, r.1, e, length-text-le bs)))))))))))

  pub run-Yields :
      (argc policy_len : ℕ)
      → Yields 0 (λ _. 2 + argc) (IsRequest argc) (receive_run ending argc policy_len)
  unfolding receive_run
  run-Yields argc policy_len =
      bind-Yields
        (refused-Yields
          (argc == 0 || ltb max_args argc || policy_len == 0 || ltb max_policy_len policy_len))
        (λ u g.
          let some_arg : 0 < argc = ground arith in
          let few_args : argc ≤ max_args = ground arith in
          let small : policy_len ≤ max_policy_len = ground arith in
          bind-Yields (allocate-Yields (policy_len + 1)) (λ block t.
            bind-Yields (held-Yields 1 (read_all-Yields policy_len)) (λ bs e.
              bind-Yields (held-Yields 1 (allocate-Yields (argc + 1))) (λ argv t'.
                bind-Yields (arguments-Yields 2 policy_len argc (omega arith)) (λ args r.
                  pure-Yields (text bs, args) refl
                    (
                      r.0,
                      some_arg,
                      few_args,
                      omega (arith, e, length-text-le bs),
                      omega (arith, r.1, e, length-text-le bs),
                    ))))))
