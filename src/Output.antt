-- ===== src/Output.antt =====
-- The loops over `write`: `write_all` of src/landlock_policy_loader.c and, with the same lines,
-- `landlockd_daemon_write_all` of src/landlockd_daemon.c.
pub mod Sent
use landlock.Base.{ℕ, List, [], ◌∷◌, ◌++◌, take, drop}

-- What `write` answers: a number of bytes, which is at most as many as it was given, EINTR, or an error.
pub data WriteAnswer : Type 0 where
  wrote : (n : ℕ) → WriteAnswer
  interrupted : WriteAnswer
  broken : WriteAnswer

-- The bytes that were written, and how the function ended: with 0 and the answers that are left for the
-- next call, with -1, or not yet, where the answers do not suffice.
pub data Sending : Type 0 where
  complete : (out : List ℕ) (left : List WriteAnswer) → Sending
  stopped : (out : List ℕ) → Sending
  waiting : (out : List ℕ) → Sending

abbrev pub after : List ℕ → Sending → Sending
after out (complete more left) = complete (out ++ more) left
after out (stopped more) = stopped (out ++ more)
after out (waiting more) = waiting (out ++ more)

unfoldable pub write_all : List WriteAnswer → List ℕ → Sending
write_all answers [] = complete [] answers
write_all [] (b ∷ bs) = waiting []
write_all (wrote n ∷ answers) (b ∷ bs) =
    after (take n (b ∷ bs)) (write_all answers (drop n (b ∷ bs)))
write_all (interrupted ∷ answers) (b ∷ bs) = write_all answers (b ∷ bs)
write_all (broken ∷ answers) (b ∷ bs) = stopped []

-- One call after another, up to the first that fails.
abbrev pub and_then : Sending → (List WriteAnswer → Sending) → Sending
and_then (complete out left) next = after out (next left)
and_then (stopped out) next = stopped out
and_then (waiting out) next = waiting out

unfoldable pub write_blocks : List WriteAnswer → List (List ℕ) → Sending
unfolding write_all
write_blocks answers [] = complete [] answers
write_blocks answers (c ∷ cs) = and_then (write_all answers c) (λ left. write_blocks left cs)
