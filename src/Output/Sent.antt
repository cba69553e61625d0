-- ===== src/Output/Sent.antt =====
-- src/landlock_policy_loader.c, `write_all`: what is written, and that the loop ends.
use landlock.Base.{
  ℕ, zero, suc, ◌+◌, ◌-◌, ◌≤◌, ◌≡◌, refl, ap, ◌∙◌, arith, List, [], ◌∷◌, ◌++◌, length, take, drop,
  append_assoc,
}
use landlock.Output.{
  WriteAnswer, wrote, interrupted, broken, Sending, complete, stopped, waiting, after, write_all,
}

pub take-append-drop : (n : ℕ) (xs : List ℕ) → take n xs ++ drop n xs ≡ xs
take-append-drop zero xs = refl
take-append-drop (suc n) [] = refl
take-append-drop (suc n) (x ∷ xs) = ap (◌∷◌ x) (take-append-drop n xs)

length-drop : (n : ℕ) (xs : List ℕ) → length (drop n xs) ≡ length xs - n
length-drop zero xs = omega arith
length-drop (suc n) [] = omega arith
length-drop (suc n) (x ∷ xs) = omega (arith, length-drop n xs)

-- The bytes that have gone out begin the ones that were to be written, and are all of them at the end.
abbrev pub IsSent : List ℕ → Sending → Type 0
IsSent bytes (complete out left) = out ≡ bytes
IsSent bytes (stopped out) = (rest : List ℕ) × (out ++ rest ≡ bytes)
IsSent bytes (waiting out) = (rest : List ℕ) × (out ++ rest ≡ bytes)

after-IsSent :
    (out rest bytes : List ℕ) (s : Sending)
    → out ++ rest ≡ bytes
    → IsSent rest s
    → IsSent bytes (after out s)
after-IsSent out rest bytes (complete more left) e h = ap (λ t. out ++ t) h ∙ e
after-IsSent out rest bytes (stopped more) e h =
    (h.0, append_assoc out more h.0 ∙ (ap (λ t. out ++ t) h.1 ∙ e))
after-IsSent out rest bytes (waiting more) e h =
    (h.0, append_assoc out more h.0 ∙ (ap (λ t. out ++ t) h.1 ∙ e))

pub write_all-IsSent :
    (answers : List WriteAnswer) (bytes : List ℕ) → IsSent bytes (write_all answers bytes)
unfolding write_all
write_all-IsSent [] [] = refl
write_all-IsSent (a ∷ answers) [] = refl
write_all-IsSent [] (b ∷ bs) = (b ∷ bs, refl)
write_all-IsSent (wrote n ∷ answers) (b ∷ bs) =
    after-IsSent (take n (b ∷ bs)) (drop n (b ∷ bs)) (b ∷ bs) (write_all answers (drop n (b ∷ bs)))
      (take-append-drop n (b ∷ bs)) (write_all-IsSent answers (drop n (b ∷ bs)))
write_all-IsSent (interrupted ∷ answers) (b ∷ bs) = write_all-IsSent answers (b ∷ bs)
write_all-IsSent (broken ∷ answers) (b ∷ bs) = (b ∷ bs, refl)

-- What the answers let out together, where none is an error.
abbrev pub room : List WriteAnswer → ℕ
room [] = 0
room (wrote n ∷ answers) = n + room answers
room (interrupted ∷ answers) = room answers
room (broken ∷ answers) = room answers

abbrev pub NoError : List WriteAnswer → Type 0
NoError [] = Unit
NoError (wrote n ∷ answers) = NoError answers
NoError (interrupted ∷ answers) = NoError answers
NoError (broken ∷ answers) = ⊥

abbrev pub Completes : List ℕ → Sending → Type 0
Completes bytes (complete out left) = out ≡ bytes
Completes bytes (stopped out) = ⊥
Completes bytes (waiting out) = ⊥

after-Completes :
    (out rest bytes : List ℕ) (s : Sending)
    → out ++ rest ≡ bytes
    → Completes rest s
    → Completes bytes (after out s)
after-Completes out rest bytes (complete more left) e h = ap (λ t. out ++ t) h ∙ e
after-Completes out rest bytes (stopped more) e h = h
after-Completes out rest bytes (waiting more) e h = h

-- The loop ends with all bytes written, in their order, as soon as `write` has taken as many, whatever the
-- sizes of the parts and however often it is interrupted, unless it answers an error.
pub write_all-Completes :
    (answers : List WriteAnswer) (bytes : List ℕ)
    → NoError answers
    → length bytes ≤ room answers
    → Completes bytes (write_all answers bytes)
unfolding write_all
write_all-Completes [] [] h l = refl
write_all-Completes (a ∷ answers) [] h l = refl
write_all-Completes [] (b ∷ bs) h l = absurd (omega arith)
write_all-Completes (wrote n ∷ answers) (b ∷ bs) h l =
    after-Completes (take n (b ∷ bs)) (drop n (b ∷ bs)) (b ∷ bs)
      (write_all answers (drop n (b ∷ bs))) (take-append-drop n (b ∷ bs))
      (write_all-Completes answers (drop n (b ∷ bs)) h (omega (arith, length-drop n (b ∷ bs))))
write_all-Completes (interrupted ∷ answers) (b ∷ bs) h l = write_all-Completes answers (b ∷ bs) h l
write_all-Completes (broken ∷ answers) (b ∷ bs) h l = absurd h
