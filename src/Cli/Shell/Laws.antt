-- ===== src/Cli/Shell/Laws.antt =====
-- When a step of a command lets it go on.
use nais_api.Cli.Shell.{Cmd, Console, fail, fail_on_stderr, from_outcome, go_on, goes, or_exit}
use nais_api.Prelude.{String, inl, inr, refl, subst, ◌↔◌, ◌≡◌, ◌≢◌, ◌⊎◌}
use nais_api.Prelude.Outcome.{GoError, Outcome, err, ok, panic}

module _ {W A B : Type 0} where
  -- With a value, the later steps are what counts; a failure does not go on.
  or_exit_by-goes :
      (failing : String → Cmd W A) (message : GoError → String) (x : A ⊎ GoError) (f : A → Cmd W B)
      (s : Console × W) (b : B)
      → ((text : String) → (go_on (failing text s) f).0 ≢ goes b)
      → ((go_on (or_exit failing message x s) f).0 ≡ goes b)
        ↔ ((a : A) × (x ≡ inl a) × ((f a s).0 ≡ goes b))
  or_exit_by-goes failing message (inl a) f s b fails =
      (λ h. (a, refl, h), λ (a', p, h). subst (λ x. (f x s).0 ≡ goes b) (cc p) h)
  or_exit_by-goes failing message (inr e) f s b fails =
      (λ h. absurd (fails (message e) h), λ (a', p, h). cc)

  pub or_exit-goes :
      (message : GoError → String) (x : A ⊎ GoError) (f : A → Cmd W B) (s : Console × W) (b : B)
      → ((go_on (or_exit fail message x s) f).0 ≡ goes b)
        ↔ ((a : A) × (x ≡ inl a) × ((f a s).0 ≡ goes b))
  or_exit-goes message x f s b = or_exit_by-goes fail message x f s b (λ text h. cc)

  pub or_exit_on_stderr-goes :
      (message : GoError → String) (x : A ⊎ GoError) (f : A → Cmd W B) (s : Console × W) (b : B)
      → ((go_on (or_exit fail_on_stderr message x s) f).0 ≡ goes b)
        ↔ ((a : A) × (x ≡ inl a) × ((f a s).0 ≡ goes b))
  or_exit_on_stderr-goes message x f s b =
      or_exit_by-goes fail_on_stderr message x f s b (λ text h. cc)

  pub from_outcome-goes :
      (message : GoError → String) (x : Outcome A) (f : A → Cmd W B) (s : Console × W) (b : B)
      → ((go_on (from_outcome fail message x s) f).0 ≡ goes b)
        ↔ ((a : A) × (x ≡ ok a) × ((f a s).0 ≡ goes b))
  from_outcome-goes message (ok a) f s b =
      (λ h. (a, refl, h), λ (a', p, h). subst (λ x. (f x s).0 ≡ goes b) (cc p) h)
  from_outcome-goes message (err e) f s b = (λ h. cc, λ (a', p, h). cc)
  from_outcome-goes message panic f s b = (λ h. cc, λ (a', p, h). cc)
