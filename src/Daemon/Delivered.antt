-- ===== src/Daemon/Delivered.antt =====
-- src/landlockd_daemon.c: a request of `landlockd_daemon_run` as `landlockd_daemon_handle_run` receives it.
use landlock.Base.{
  ℕ, suc, ◌+◌, ◌%◌, ◌^◌, ◌≤◌, ◌<◌, ◌≡◌, refl, ap, arith, ◌⊎◌, inl, inr, true, false, not, ◌&&◌,
  ◌||◌, ◌==◌, ltb, Bool-cases, Option, none, some, List, [], ◌∷◌, ◌++◌, length,
}
use landlock.Sys.{World, call}
use landlock.Sys.Types.{CString, Call, Kernel}
use landlock.Memory.Blocks.{refusals}
use landlock.Memory.Account.{All}
use landlock.Document.Types.{Document, blank_document}
use landlock.Document.Wellformed.{IsDocument, blank-IsDocument}
use landlock.Wire.Bytes.{number, number-bytes_of, cut, cut-append, text, IsText, text-IsText}
use landlock.Wire.Cleanups.{free_saved}
use landlock.Wire.Store.{u32, each, onto}
use landlock.Wire.Reader.{Cursor, Progress, got, lost, L, pure, ◌>>=◌, refuse, lift, undo}
use landlock.Wire.Reads.{Reaches, bind-Reads, undo-Reads, allocate-Reads, free_saved-Releases}
use landlock.Wire.Parses.{
  whole_text, at, Arrives, Parses, pure-Parses, bind-Parses, undo-Parses, unless_bad-Parses,
}
use landlock.Daemon.Requests.{
  Ending, len_of, max_args, max_policy_len, max_arg_len, max_request_bytes, counted_bytes,
  fits_total, is_sendable, argument_blocks, run_blocks, read_all, read_len, bad_argument,
  receive_arguments, receive_run,
}
use landlock.Daemon.Received.{read_all-Reads, spent}

-- A string of which the length fits a `uint32_t`.
abbrev pub IsShort : CString → Type 0
IsShort a = length a < 2 ^ 32

abbrev IsArgument : CString → Type 0
IsArgument a = (0 < length a) × (length a ≤ max_arg_len)

-- What the loop of the client counts and checks.
counted-spent :
    (total : ℕ) (args : List CString) (sum : ℕ)
    → total ≤ max_request_bytes
    → All IsShort args
    → counted_bytes total args ≡ some sum
    → (sum ≡ total + spent args) × (sum ≤ max_request_bytes) × All IsArgument args
unfolding counted_bytes
counted-spent total [] sum l s h = let same : total ≡ sum = cc in (omega arith, omega arith, tt)
counted-spent total (a ∷ args) sum l s h =
    let more : ℕ = (total + 4 + len_of a) % 2 ^ 32 in
    elim (Bool-cases (len_of a == 0 || ltb max_arg_len (len_of a))) [
      | inl bad ↦ let no : ◌≡◌ {A = Option ℕ} none (some sum) = rw bad at h in cc
      | inr good ↦ elim (Bool-cases (ltb max_request_bytes more)) [
        | inl big ↦ let no : ◌≡◌ {A = Option ℕ} none (some sum) = rw (good, big) at h in cc
        | inr fits ↦
            let rest : counted_bytes more args ≡ some sum = rw (good, fits) at h in
            let short : len_of a ≡ length a = omega (arith, s.0) in
            let in_range : IsArgument a = ground (arith, short) in
            let whole : more ≡ total + 4 + length a = omega (arith, short, in_range, l) in
            let small : more ≤ max_request_bytes = ground arith in
            let ih : (sum ≡ more + spent args) × (sum ≤ max_request_bytes) × All IsArgument args =
              counted-spent more args sum small s.1 rest in
            (omega (arith, whole, ih.0), ih.1, (in_range, ih.2))
      ]
    ]

-- A block, with `held` others, and what follows.
block_then-Parses :
    {A : Type 0} {after : ℕ} {c c' : Cursor} {a : A} (held n : ℕ) (m : L A)
    → Parses (held + 1) after c a c' m
    → Parses held after c a c'
        (undo (free_saved held) (lift (call (Call.allocate n))) >>= λ block. m)
block_then-Parses {after} {c} {c'} {a} held n m l = record {
  law = λ d.
      bind-Reads ⊥ held (λ _. held + 1) (λ _. after) c (λ x y. (y ≡ c) × IsDocument y.doc)
        (Arrives a c') (undo (free_saved held) (lift (call (Call.allocate n)))) (λ block. m)
        (undo-Reads ⊥ (λ _. 1) c (λ x y. (y ≡ c) × IsDocument y.doc) held (free_saved held)
          (lift (call (Call.allocate n))) (free_saved-Releases held)
          (allocate-Reads ⊥ c d n (λ x y. (y ≡ c) × IsDocument y.doc) (λ v. (refl, d))))
        (λ x y p. rw p.0 (l.law (rw p.0 at p.1)));
}

first_block-Parses :
    {A : Type 0} {after : ℕ} {c c' : Cursor} {a : A} (n : ℕ) (m : L A)
    → Parses 1 after c a c' m
    → Parses 0 after c a c' (lift (call (Call.allocate n)) >>= λ block. m)
first_block-Parses {after} {c} {c'} {a} n m l = record {
  law = λ d.
      bind-Reads ⊥ 0 (λ _. 1) (λ _. after) c (λ x y. (y ≡ c) × IsDocument y.doc) (Arrives a c')
        (lift (call (Call.allocate n))) (λ block. m)
        (allocate-Reads ⊥ c d n (λ x y. (y ≡ c) × IsDocument y.doc) (λ v. (refl, d)))
        (λ x y p. rw p.0 (l.law (rw p.0 at p.1)));
}

held-Parses :
    {A : Type 0} {c c' : Cursor} {a : A} {m : L A} (n : ℕ)
    → Parses 0 0 c a c' m
    → Parses n n c a c' (undo (free_saved n) m)
held-Parses {c} {c'} {a} {m} n h =
    let same : n + 0 ≡ n = omega arith in
    rw same at (undo-Parses {n = n} (free_saved n) (free_saved-Releases n) h)

abbrev IsSendable : CString → List CString → Type 0
IsSendable policy_file argv =
    (0 < length argv)
    × (length argv ≤ max_args)
    × (0 < length policy_file)
    × (length policy_file ≤ max_policy_len)
    × (length policy_file + spent argv ≤ max_request_bytes)
    × All IsArgument argv

sendable :
    (policy_file : CString) (argv : List CString) (o : Option ℕ)
    → IsShort policy_file
    → All IsShort argv
    → counted_bytes 0 argv ≡ o
    → (not (length argv == 0 || ltb max_args (length argv)) && fits_total (len_of policy_file) o)
      ≡ true
    → IsSendable policy_file argv
sendable policy_file argv none s t e h = absurd (ground arith)
sendable policy_file argv (some total) s t e h =
    let counted : (total ≡ 0 + spent argv) × (total ≤ max_request_bytes) × All IsArgument argv =
      counted-spent 0 argv total (omega arith) t e in
    let same : len_of policy_file ≡ length policy_file = omega (arith, s) in
    let limits : (0 < length policy_file)
        × (length policy_file ≤ max_policy_len)
        × ((total + length policy_file) % 2 ^ 32 ≤ max_request_bytes) =
      ground (arith, same) in
    (
      ground arith,
      ground arith,
      limits.0,
      limits.1,
      omega (arith, limits, counted.0, counted.1),
      counted.2,
    )

module _ (ending : Ending) where
  read_all-Parses :
      {rest : List ℕ} {d : Document} (bs : List ℕ)
      → Parses 0 0 (at (bs ++ rest) d) bs (at rest d) (read_all ending (length bs))
  read_all-Parses {rest} {d} bs = record {
    law = λ h.
        read_all-Reads ending ⊥ (at (bs ++ rest) d) h (length bs) (Arrives bs (at rest d))
          (λ e.
            let full : cut (length bs) (bs ++ rest) ≡ some (bs, rest) = cut-append bs rest in cc)
          (λ p e.
            let full : cut (length bs) (bs ++ rest) ≡ some (bs, rest) = cut-append bs rest in
            let same : p ≡ (bs, rest) = cc in
            (
              ap (λ (q : List ℕ × List ℕ). q.0) same,
              ap (λ (q : List ℕ × List ℕ). at q.1 d) same,
              h,
            ));
  }

  read_len-Parses :
      {rest : List ℕ} {d : Document} (n : ℕ)
      → n < 2 ^ 32
      → Parses 0 0 (at (u32 n ++ rest) d) n (at rest d) (read_len ending)
  read_len-Parses {rest} {d} n h =
      let next : Parses 0 0 (at (u32 n ++ rest) d) (u32 n) (at rest d) (read_all ending 4) =
        read_all-Parses {rest = rest} {d = d} (u32 n) in
      bind-Parses (λ bs. pure (number bs)) next (rw (number-bytes_of 4 n h) (pure-Parses n))

  arguments-Parses :
      {d : Document} (held total : ℕ) (args : List CString) (rest : List ℕ)
      → All IsText args
      → All IsArgument args
      → total + spent args ≤ max_request_bytes
      → Parses held
          (held + length args)
          (at (onto (each argument_blocks args) rest) d)
          args
          (at rest d)
          (receive_arguments ending held total (length args))
  unfolding receive_arguments each onto argument_blocks
  arguments-Parses held total [] rest t h l =
      let same : held + 0 ≡ held = omega arith in rw same (pure-Parses [])
  arguments-Parses {d} held total (a ∷ args) rest t h l =
      let next : held + 1 ≡ suc held = omega arith in
      let more : held + suc (length args) ≡ suc held + length args = omega arith in
      let good : bad_argument (total + 4) (length a) ≡ false = ground (arith, h.0, l) in
      let short : length a < 2 ^ 32 = omega (arith, h.0) in
      let same : len_of a ≡ length a = omega (arith, short) in
      rw (more, whole_text a short, same)
        (bind-Parses _
          (held-Parses held (
            read_len-Parses {rest = a ++ onto (each argument_blocks args) rest} {d = d} (length a)
              (omega (arith, h.0))))
          (bind-Parses (λ u. _)
            (held-Parses held (unless_bad-Parses (bad_argument (total + 4) (length a)) refuse good))
            (block_then-Parses held (length a + 1) _ (
              rw next (
                bind-Parses _ (held-Parses (suc held) (read_all-Parses a)) (
                  bind-Parses (λ xs. pure (text a ∷ xs))
                    (arguments-Parses (suc held) (total + 4 + length a) args rest t.1 h.1
                      (omega (arith, l)))
                    (rw (text-IsText a t.0) (pure-Parses (a ∷ args)))))))))

  run-Parses :
      {d : Document} (policy_file : CString) (argv : List CString) (rest : List ℕ)
      → IsSendable policy_file argv
      → IsText policy_file
      → All IsText argv
      → Parses 0
          (2 + length argv)
          (at (onto (run_blocks policy_file argv) rest) d)
          (policy_file, argv)
          (at rest d)
          (receive_run ending (length argv) (length policy_file))
  unfolding receive_run run_blocks onto
  run-Parses {d} policy_file argv rest h t u =
      let good : (length argv == 0
            || ltb max_args (length argv)
            || length policy_file == 0
            || ltb max_policy_len (length policy_file))
          ≡ false =
        ground (arith, h.0, h.1, h.2, h.3) in
      let short : length policy_file < 2 ^ 32 = omega (arith, h.3) in
      rw (whole_text policy_file short) (
        bind-Parses (λ u. _) (unless_bad-Parses _ refuse good)
          (first_block-Parses (length policy_file + 1) _ (
            bind-Parses _ (held-Parses 1 (read_all-Parses policy_file)) (
              block_then-Parses 1 (length argv + 1) _ (
                bind-Parses (λ args. pure (text policy_file, args))
                  (arguments-Parses 2 (length policy_file) argv rest u h.5 h.4)
                  (rw (text-IsText policy_file t) (pure-Parses (policy_file, argv))))))))

-- The request arrives as it was sent, and what the client sends behind it is left; or a call for memory was
-- refused.
abbrev pub Arrived :
    CString → List CString → List ℕ → World → Progress (CString × List CString) → Type 0
Arrived policy_file argv rest w (got p c v) = (p.0 ≡ policy_file) × (p.1 ≡ argv) × (c.rest ≡ rest)
Arrived policy_file argv rest w (lost d v) = refusals w.trace < refusals v.trace

arrived :
    (policy_file : CString) (argv : List CString) (rest : List ℕ) (n : ℕ) (c : Cursor) (w : World)
    (o : Progress (CString × List CString))
    → Reaches ⊥ 0 (λ _. n) c (Arrives (policy_file, argv) (at rest blank_document)) w o
    → Arrived policy_file argv rest w o
arrived policy_file argv rest n c w (got p c' v) h = (
  ap (λ (q : CString × List CString). q.0) h.0.0,
  ap (λ (q : CString × List CString). q.1) h.0.0,
  ap (λ (x : Cursor). x.rest) h.0.1,
)
arrived policy_file argv rest n c w (lost d v) h = refused h.3
  where
    refused : (refusals w.trace < refusals v.trace) ⊎ ⊥ → refusals w.trace < refusals v.trace
    refused (inl r) = r
    refused (inr b) = absurd b

-- A request that the client finds fit to send, of strings whose lengths fit a `uint32_t`, is received by
-- the daemon with the same policy name and the same arguments, whatever follows it and however the
-- connection ends, or a call for memory was refused there: the limits that the two check do not differ.
pub receive_run-run_blocks :
    (ending : Ending) (policy_file : CString) (argv : List CString) (rest : List ℕ) (k : Kernel)
    (w : World)
    → is_sendable policy_file argv ≡ true
    → IsShort policy_file
    → All IsShort argv
    → IsText policy_file
    → All IsText argv
    → Arrived policy_file argv rest w (
        receive_run ending
          (length argv)
          (len_of policy_file)
          k
          (at (onto (run_blocks policy_file argv) rest) blank_document)
          w)
unfolding is_sendable
receive_run-run_blocks ending policy_file argv rest k w h s s' t u =
    let c : Cursor = at (onto (run_blocks policy_file argv) rest) blank_document in
    let same : len_of policy_file ≡ length policy_file = omega (arith, s) in
    rw same (
      arrived policy_file argv rest (2 + length argv) c w
        (receive_run ending (length argv) (length policy_file) k c w)
        ((run-Parses ending policy_file argv rest
            (sendable policy_file argv (counted_bytes 0 argv) s s' refl h) t u).law
          blank-IsDocument k w))
