-- ===== src/Cli/Laws.antt =====
-- When the command line says that a deployment is done (cli/cmd/wait.go).
use nais_api.Cli.{PollReply, answered_with, deployed, poll_round, unanswered, wait_for_deploy}
use nais_api.Prelude.{Bool-cases, ap, arith, eqb, inl, inr, refl, suc, zero, ℕ, ◌<◌, ◌↔◌, ◌∙◌, ◌≡◌}

-- Answer `n` is 200, and every answer before it is 202.
abbrev pub IsDoneAt : (ℕ → PollReply) → ℕ → Type 0
IsDoneAt replies n =
    ((i : ℕ) → i < n → replies i ≡ answered_with 202) × (replies n ≡ answered_with 200)

IsDoneAt-later :
    (replies : ℕ → PollReply) (n : ℕ) → IsDoneAt replies (suc n) → IsDoneAt (λ i. replies (suc i)) n
IsDoneAt-later replies n (before, done) = ((λ i l. before (suc i) (omega (arith, l))), done)

deployed-of_done :
    (fuel n : ℕ) (replies : ℕ → PollReply)
    → n < fuel
    → IsDoneAt replies n
    → wait_for_deploy fuel replies ≡ deployed
unfolding wait_for_deploy
deployed-of_done zero n replies l h = absurd (omega (arith, l))
deployed-of_done (suc fuel) zero replies l (before, done) = rw done refl
deployed-of_done (suc fuel) (suc n) replies l (before, done) = rw (before 0 (omega arith)) (
    deployed-of_done fuel n (λ i. replies (suc i)) (omega (arith, l))
      (IsDoneAt-later replies n (before, done)))

-- The answers from the first on.
IsDoneAt-first :
    (replies : ℕ → PollReply) (n : ℕ)
    → replies 0 ≡ answered_with 202
    → IsDoneAt (λ i. replies (suc i)) n
    → IsDoneAt replies (suc n)
IsDoneAt-first replies n first (before, done) = (go, done)
  where
    go : (i : ℕ) → i < suc n → replies i ≡ answered_with 202
    go zero l = first
    go (suc i) l = before i (omega (arith, l))

done-of_deployed :
    (fuel : ℕ) (replies : ℕ → PollReply)
    → wait_for_deploy fuel replies ≡ deployed
    → (n : ℕ) × (n < fuel) × IsDoneAt replies n
unfolding wait_for_deploy
done-of_deployed zero replies h = cc
done-of_deployed (suc fuel) replies h =
    go (replies 0) refl h (done-of_deployed fuel (λ i. replies (suc i)))
  where
    go :
        (reply : PollReply)
        → replies 0 ≡ reply
        → poll_round reply (wait_for_deploy fuel (λ i. replies (suc i))) ≡ deployed
        → (wait_for_deploy fuel (λ i. replies (suc i)) ≡ deployed
            → (n : ℕ) × (n < fuel) × IsDoneAt (λ i. replies (suc i)) n)
        → (n : ℕ) × (n < suc fuel) × IsDoneAt replies n
    go (unanswered e) p q rest = cc
    go (answered_with code) p q rest = elim (Bool-cases (eqb code 200)) [
      | inl a ↦ (
        0,
        omega arith,
        ((λ i l. absurd (omega (arith, l))), p ∙ ap answered_with (ground (arith, a))),
      )
      | inr a ↦ elim (Bool-cases (eqb code 202)) [
        | inl b ↦
            let (n, l, done) = rest (rw (a, b) at q) in
            (
              suc n,
              omega (arith, l),
              IsDoneAt-first replies n (p ∙ ap answered_with (ground (arith, b))) done,
            )
        | inr b ↦ cc (rw (a, b) at q)
      ]
    ]

-- With fuel for so many rounds, the wait ends well exactly if one of so many answers is 200 and every
-- answer before it is 202.
pub wait_for_deploy-eq_deployed :
    (fuel : ℕ) (replies : ℕ → PollReply)
    → (wait_for_deploy fuel replies ≡ deployed) ↔ ((n : ℕ) × (n < fuel) × IsDoneAt replies n)
wait_for_deploy-eq_deployed fuel replies =
    (done-of_deployed fuel replies, λ (n, l, h). deployed-of_done fuel n replies l h)
