-- ===== src/Daemon/Limits.antt =====
-- src/landlockd_daemon.c, `landlockd_daemon_handle_run`: a request of any client, as far as it is received.
use landlock.Base.{
  ℕ, zero, suc, ◌+◌, ◌≡◌, refl, ap, arith, Bool, true, false, Option, none, some, List, [], ◌∷◌,
  ◌||◌, ◌==◌, ltb,
}
use landlock.Sys.{World, Outcome, M, done, failed, call}
use landlock.Sys.Types.{CString, Call, Kernel}
use landlock.Memory.Blocks.{Leaves}
use landlock.Document.Types.{Document, blank_document}
use landlock.Document.Wellformed.{IsDocument, blank-IsDocument}
use landlock.Wire.Bytes.{number, cut, text}
use landlock.Wire.Cleanups.{free_saved}
use landlock.Wire.Reader.{
  Cursor, Progress, got, lost, L, pure, ◌>>=◌, refuse, unless_bad, lifted, lift, leaving, undo,
}
use landlock.Wire.Reads.{held_by, Reaches}
use landlock.Daemon.Requests.{
  Ending, max_args, max_policy_len, arrived, read_all, read_len, bad_argument, receive_arguments,
  receive_run,
}
use landlock.Daemon.Received.{IsRequest, run-Yields}

-- The document that the cursor carries is left alone: a request has none.
abbrev Same : {A : Type 0} → Document → Progress A → Type 0
Same d (got a c v) = c.doc ≡ d
Same d (lost x v) = x ≡ d

record Untouched {A : Type 0} (m : L A) : Type 0 where
  law : (k : Kernel) (c : Cursor) (w : World) → Same c.doc (m k c w)

pure-Untouched : {A : Type 0} (a : A) → Untouched (pure a)
pure-Untouched a = record { law = λ k c w. refl }

continued :
    {A B : Type 0} (d : Document) (f : A → L B) (k : Kernel) (c : Cursor) (w : World)
    (o : Progress A)
    → Same d o
    → ((a : A) → Untouched (f a))
    → Same d (((λ _ _ _. o) >>= f) k c w)
continued d f k c w (got a c' v) h l = rw (← h) ((l a).law k c' v)
continued d f k c w (lost x v) h l = h

bind-Untouched :
    {A B : Type 0} {m : L A} {f : A → L B}
    → Untouched m
    → ((a : A) → Untouched (f a))
    → Untouched (m >>= f)
bind-Untouched {m} {f} h l = record {
  law = λ k c w. continued c.doc f k c w (m k c w) (h.law k c w) l;
}

leaving-Same : (A : Type 0) (d : Document) (o : Outcome (Unit {0})) → Same d (leaving {A = A} d o)
leaving-Same A d (done u v) = refl
leaving-Same A d (failed v) = refl

undone :
    {A : Type 0} (d : Document) (out : M (Unit {0})) (k : Kernel) (c : Cursor) (w : World)
    (o : Progress A)
    → Same d o
    → Same d (undo out (λ _ _ _. o) k c w)
unfolding undo
undone d out k c w (got a c' v) h = h
undone {A} d out k c w (lost x v) h = rw (← h) (leaving-Same A x (out k v))

undo-Untouched : {A : Type 0} {m : L A} (out : M (Unit {0})) → Untouched m → Untouched (undo out m)
unfolding undo
undo-Untouched {m} out h = record { law = λ k c w. undone c.doc out k c w (m k c w) (h.law k c w) }

refused-Untouched : (bad : Bool) → Untouched (unless_bad bad refuse)
refused-Untouched true = record { law = λ k c w. refl }
refused-Untouched false = record { law = λ k c w. refl }

lifted-Same : {A : Type 0} (c : Cursor) (o : Outcome A) → Same c.doc (lifted c o)
lifted-Same c (done a v) = refl
lifted-Same c (failed v) = refl

lift-Untouched : {A : Type 0} (m : M A) → Untouched (lift m)
lift-Untouched m = record { law = λ k c w. lifted-Same c (m k w) }

module _ (ending : Ending) where
  arrived-Same :
      (o : Option (List ℕ × List ℕ)) (k : Kernel) (c : Cursor) (w : World)
      → Same c.doc (arrived ending o k c w)
  arrived-Same none k c w = refl
  arrived-Same (some p) k c w = refl

  read_all-Untouched : (n : ℕ) → Untouched (read_all ending n)
  unfolding read_all
  read_all-Untouched n = record { law = λ k c w. arrived-Same (cut n c.rest) k c w }

  read_len-Untouched : Untouched (read_len ending)
  read_len-Untouched = bind-Untouched (read_all-Untouched 4) (λ bs. pure-Untouched (number bs))

  arguments-Untouched : (held total n : ℕ) → Untouched (receive_arguments ending held total n)
  unfolding receive_arguments
  arguments-Untouched held total zero = pure-Untouched []
  arguments-Untouched held total (suc n) =
      bind-Untouched (undo-Untouched (free_saved held) read_len-Untouched) λ arg_len.
        bind-Untouched
          (undo-Untouched (free_saved held) (refused-Untouched (bad_argument (total + 4) arg_len)))
          λ u.
            bind-Untouched
              (undo-Untouched (free_saved held)
                (lift-Untouched (call (Call.allocate (arg_len + 1)))))
              λ block.
                bind-Untouched (undo-Untouched (free_saved (suc held)) (read_all-Untouched arg_len))
                  λ bs.
                    bind-Untouched (arguments-Untouched (suc held) (total + 4 + arg_len) n)
                      λ args. pure-Untouched (text bs ∷ args)

  run-Untouched : (argc policy_len : ℕ) → Untouched (receive_run ending argc policy_len)
  unfolding receive_run
  run-Untouched argc policy_len =
      bind-Untouched
        (refused-Untouched
          (argc == 0 || ltb max_args argc || policy_len == 0 || ltb max_policy_len policy_len))
        λ u. bind-Untouched (lift-Untouched (call (Call.allocate (policy_len + 1)))) λ block.
          bind-Untouched (undo-Untouched (free_saved 1) (read_all-Untouched policy_len)) λ bs.
            bind-Untouched
              (undo-Untouched (free_saved 1) (lift-Untouched (call (Call.allocate (argc + 1)))))
              λ argv.
                bind-Untouched (arguments-Untouched 2 policy_len argc)
                  λ args. pure-Untouched (text bs, args)

-- What is received keeps to the limits of a request, and there is a block for the policy's name, one for
-- `argv` and one for each argument; nothing is left of a request that is not received.
abbrev pub IsReceived : ℕ → World → Progress (CString × List CString) → Type 0
IsReceived argc w (got p c v) = IsRequest argc p × Leaves w v 0 (2 + argc)
IsReceived argc w (lost d v) = Leaves w v 0 0

accounted :
    (argc : ℕ) (bytes : List ℕ) (w : World) (o : Progress (CString × List CString))
    → Same blank_document o
    → Reaches Unit 0
        (λ _. 2 + argc)
        (record { rest = bytes; doc = blank_document })
        (λ p c. IsDocument c.doc × IsRequest argc p)
        w
        o
    → IsReceived argc w o
accounted argc bytes w (got p c v) s h = (h.0.1, omega (arith, h.1, ap held_by s))
accounted argc bytes w (lost d v) s h = omega (arith, h.1, ap held_by s)

-- Whatever bytes a client sends behind a header, whether it then hangs up or `read` fails, and whatever
-- calls for memory are refused: a request that the daemon receives has as many arguments as its header
-- says, at least one and at most 128, a policy name of at most 16384 bytes and, with the lengths of the
-- arguments, at most 1048576 bytes; all blocks are accounted for, and a request that is not received
-- leaves none behind.
pub receive_run-IsReceived :
    (ending : Ending) (argc policy_len : ℕ) (bytes : List ℕ) (k : Kernel) (w : World)
    → IsReceived argc w
        (receive_run ending argc policy_len k (record { rest = bytes; doc = blank_document }) w)
receive_run-IsReceived ending argc policy_len bytes k w =
    let c : Cursor = record { rest = bytes; doc = blank_document } in
    accounted argc bytes w (receive_run ending argc policy_len k c w)
      ((run-Untouched ending argc policy_len).law k c w)
      ((run-Yields ending argc policy_len).law c blank-IsDocument k w)
