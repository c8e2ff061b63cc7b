-- ===== src/Prelude/Keeps.antt =====
-- What an action keeps, however it ends, and what holds if it returns.
use nais_api.Prelude.{String}
use nais_api.Prelude.Outcome.{
  M, Outcome, continue, err, lift, ok, panic, pure, wrap, wrap_outcome, ◌>>=◌,
}

-- `m` keeps `P`: with a value, an error or a panic.
pub record Keeps {ℓ} {S A : Type ℓ} (P : S → Type ℓ) (m : M S A) : Type ℓ where
  pub at : (s : S) → P s → P (m s).1

module _ {ℓ} {S A : Type ℓ} {P : S → Type ℓ} where
  pub Keeps-pure : (a : A) → Keeps P (pure a)
  Keeps-pure a = record { at = λ s h. h }

  pub Keeps-lift : (r : Outcome A) → Keeps P (lift r)
  Keeps-lift r = record { at = λ s h. h }

  pub Keeps-wrap : (context : String) (m : M S A) → Keeps P m → Keeps P (wrap context m)
  Keeps-wrap context m k = record { at = λ s h. k.at s h }

module _ {ℓ} {S A B : Type ℓ} {P : S → Type ℓ} where
  continue-keeps :
      (f : A → M S B) → ((a : A) → Keeps P (f a)) → (r : Outcome A × S) → P r.1 → P (continue r f).1
  continue-keeps f kf (ok a, s) h = (kf a).at s h
  continue-keeps f kf (err e, s) h = h
  continue-keeps f kf (panic, s) h = h

  pub Keeps-bind :
      (m : M S A) (f : A → M S B) → Keeps P m → ((a : A) → Keeps P (f a)) → Keeps P (m >>= f)
  Keeps-bind m f km kf = record { at = λ s h. continue-keeps f kf (m s) (km.at s h) }

pub ruleset keeps_rules = (Keeps-pure, Keeps-lift, Keeps-wrap, Keeps-bind)

-- The condition on a result, if there is one.
abbrev pub Post {ℓ} : {S A : Type ℓ} → Outcome A × S → (A → S → Type ℓ) → Type ℓ
Post (ok a, s) Q = Q a s
Post (err e, s) Q = Unit
Post (panic, s) Q = Unit

module _ {ℓ} {S A B : Type ℓ} where
  pub Post-continue :
      (r : Outcome A × S) (f : A → M S B) (P : A → S → Type ℓ) (Q : B → S → Type ℓ)
      → Post r P
      → ((a : A) (t : S) → P a t → Post (f a t) Q)
      → Post (continue r f) Q
  Post-continue (ok a, s) f P Q h k = k a s h
  Post-continue (err e, s) f P Q h k = tt
  Post-continue (panic, s) f P Q h k = tt

module _ {ℓ} {S A : Type ℓ} where
  pub Post-wrap :
      (context : String) (r : Outcome A × S) (Q : A → S → Type ℓ)
      → Post r Q
      → Post (wrap_outcome context r.0, r.1) Q
  Post-wrap context (ok a, s) Q h = h
  Post-wrap context (err e, s) Q h = tt
  Post-wrap context (panic, s) Q h = tt
