-- ===== src/Api/Answers.antt =====
-- Conditions on what a handler answers and leaves (api/api.go).
use nais_api.Api.{Handler, Response, failure, or_fail, written}
use nais_api.Prelude.{String, refl, subst, ℕ, ◌≡◌}
use nais_api.Prelude.Int.{ℤ}
use nais_api.Prelude.Keeps.{Post}
use nais_api.Prelude.Outcome.{Outcome, err, ok, panic}

-- The condition on a response that was written, and on the state after it.
abbrev pub Answers : {W : Type 0} → Outcome Response × W → (ℤ → String → W → Type 0) → Type 0
Answers (ok (written code body), w) Q = Q code body w
Answers (ok (failure e), w) Q = Unit
Answers (err e, w) Q = Unit
Answers (panic, w) Q = Unit

pub Answers-map :
    {W : Type 0} (Q Q' : ℤ → String → W → Type 0)
    → ((code : ℤ) (body : String) (w : W) → Q code body w → Q' code body w)
    → (o : Outcome Response × W) → Answers o Q
    → Answers o Q'
Answers-map Q Q' k (ok (written code body), w) h = k code body w h
Answers-map Q Q' k (ok (failure e), w) h = tt
Answers-map Q Q' k (err e, w) h = tt
Answers-map Q Q' k (panic, w) h = tt

module _ {W A : Type 0} where
  pub or_fail-Answers :
      (P : A → W → Type 0) (Q : ℤ → String → W → Type 0) (message : String) (code : ℕ)
      (o : Outcome A × W) (next : A → Handler W)
      → Post o P
      → ((a : A) (w : W) → P a w → Answers (next a w) Q)
      → Answers (or_fail message code o next) Q
  unfolding or_fail
  or_fail-Answers P Q message code (ok a, w) next h k = k a w h
  or_fail-Answers P Q message code (err e, w) next h k = tt
  or_fail-Answers P Q message code (panic, w) next h k = tt

-- What holds after a step, however it ends, holds after one that returns.
pub left-Post : {S A : Type 0} (P : S → Type 0) (o : Outcome A × S) → P o.1 → Post o (λ _ t. P t)
left-Post P (ok a, s) h = h
left-Post P (err e, s) h = tt
left-Post P (panic, s) h = tt

pub and_left-Post :
    {S A : Type 0} (Q : A → Type 0) (P : S → Type 0) (o : Outcome A × S)
    → Post o (λ a _. Q a)
    → P o.1
    → Post o (λ a t. Q a × P t)
and_left-Post Q P (ok a, s) h k = (h, k)
and_left-Post Q P (err e, s) h k = tt
and_left-Post Q P (panic, s) h k = tt

-- What a step returned, and what it left.
pub returned-Post : {S A : Type 0} (o : Outcome A × S) → Post o (λ a t. o ≡ (ok a, t))
returned-Post (ok a, s) = refl
returned-Post (err e, s) = tt
returned-Post (panic, s) = tt

pub of_returned :
    {S A : Type 0} (o : Outcome A × S) (Q : A → S → Type 0) (a : A) (t : S)
    → Post o Q
    → o ≡ (ok a, t)
    → Q a t
of_returned o Q a t h e = subst (λ p. Post p Q) e h

-- The same of a step on a part of the state.
pub on_cluster-Post :
    {C X A : Type 0} (Q : A → C → Type 0) (o : Outcome A × C) (x : X)
    → Post o Q
    → Post {S = C × X} (o.0, (o.1, x)) (λ a t. Q a t.0)
on_cluster-Post Q (ok a, s) x h = h
on_cluster-Post Q (err e, s) x h = tt
on_cluster-Post Q (panic, s) x h = tt

pub on_fasit-Post :
    {C F N A : Type 0} (Q : A → Type 0) (o : Outcome A × F) (s : C) (n : N)
    → Post o (λ a _. Q a)
    → Post {S = C × (F × N)} (o.0, (s, (o.1, n))) (λ a t. (t.0 ≡ s) × Q a)
on_fasit-Post Q (ok a, f) s n h = (refl, h)
on_fasit-Post Q (err e, f) s n h = tt
on_fasit-Post Q (panic, f) s n h = tt
