-- ===== src/Prelude/Outcome.antt =====
-- What a Go call leaves: a value, an error value or a panic; and actions on a state that end so.
use Prim.Native.String.{String, ◌++◌ as ◌<>◌}
use mathlib.Core.Path.{◌≡◌, refl}
use mathlib.Core.Bool.{Bool, false}
use nais_api.Prelude.{ap, ◌≢◌}

-- An `error`: its text, and whether `errors.IsNotFound` says yes to it.
pub record GoError : Type 0 where
  pub text : String
  pub not_found : Bool

-- fmt.Errorf: an error of which nothing is left but its text
abbrev pub errorf : String → GoError
errorf s = record { text = s; not_found = false }

pub data Outcome {ℓ} (A : Type ℓ) : Type ℓ where
  ok : A → Outcome A
  err : GoError → Outcome A
  panic : Outcome A

abbrev pub M {ℓ} : Type ℓ → Type ℓ → Type ℓ
M S A = S → Outcome A × S

module _ {ℓ} {S A : Type ℓ} where
  abbrev pub pure : A → M S A
  pure a s = (ok a, s)

  abbrev pub lift : Outcome A → M S A
  lift r s = (r, s)

module _ {ℓ} {S A B : Type ℓ} where
  abbrev pub continue : Outcome A × S → (A → M S B) → Outcome B × S
  continue (ok a, s) f = f a s
  continue (err e, s) f = (err e, s)
  continue (panic, s) f = (panic, s)

  infixl 5 ◌>>=◌ ◌>>◌
  abbrev pub ◌>>=◌ : M S A → (A → M S B) → M S B
  ◌>>=◌ m f s = continue (m s) f

  abbrev pub ◌>>◌ : M S A → M S B → M S B
  m >> k = m >>= λ _. k

  -- What a block whose first action returns goes on with.
  pub continue-eq_ok :
      (r : Outcome A × S) (f : A → M S B) (b : B) (t : S)
      → continue r f ≡ (ok b, t)
      → (a : A) × (s : S) × (r ≡ (ok a, s)) × (f a s ≡ (ok b, t))
  continue-eq_ok (ok a, s) f b t h = (a, s, refl, h)
  continue-eq_ok (err e, s) f b t h = absurd (not_ok (λ i. (h i).0))
    where
      not_ok : ¬ (Path (Outcome B) (err e) (ok b))
      not_ok p = cc
  continue-eq_ok (panic, s) f b t h = absurd (not_ok (λ i. (h i).0))
    where
      not_ok : ¬ (Path (Outcome B) panic (ok b))
      not_ok p = cc

-- `return nil, fmt.Errorf("<context>%s", err)`
abbrev pub wrap_outcome {ℓ} : {A : Type ℓ} → String → Outcome A → Outcome A
wrap_outcome context (ok a) = ok a
wrap_outcome context (err e) = err (errorf (context <> e.text))
wrap_outcome context panic = panic

abbrev pub wrap {ℓ} : {S A : Type ℓ} → String → M S A → M S A
wrap context m s = let (r, t) = m s in (wrap_outcome context r, t)

-- `if err != nil { return nil, err }` where no state is at hand
abbrev pub and_then {ℓ} : {A B : Type ℓ} → Outcome A → (A → Outcome B) → Outcome B
and_then (ok a) f = f a
and_then (err e) f = err e
and_then panic f = panic

module _ {ℓ} {A B : Type ℓ} where
  pub and_then-eq_ok :
      (r : Outcome A) (f : A → Outcome B) (b : B)
      → and_then r f ≡ ok b
      → (a : A) × (r ≡ ok a) × (f a ≡ ok b)
  and_then-eq_ok (ok a) f b h = (a, refl, h)
  and_then-eq_ok (err e) f b h = cc
  and_then-eq_ok panic f b h = cc

  pub and_then-ne_panic :
      (r : Outcome A) (f : A → Outcome B)
      → r ≢ panic
      → ((a : A) → f a ≢ panic)
      → and_then r f ≢ panic
  and_then-ne_panic (ok a) f hr hf = hf a
  and_then-ne_panic (err e) f hr hf = λ h. cc
  and_then-ne_panic panic f hr hf = absurd (hr refl)

module _ {ℓ} {A : Type ℓ} where
  pub ok-inj : (a b : A) → Path (Outcome A) (ok a) (ok b) → a ≡ b
  ok-inj a b h = cc

module _ {ℓ} {S A : Type ℓ} where
  -- A block that returns, by its value and its state.
  pub returned : (a b : A) (s t : S) → Path (Outcome A × S) (ok a, s) (ok b, t) → (a ≡ b) × (s ≡ t)
  returned a b s t h = (ok-inj a b (ap (λ p. p.0) h), ap (λ p. p.1) h)
