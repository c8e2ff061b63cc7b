-- ===== src/Cli/Wait/Options.antt =====
-- What is stored of the flags of the command that waits (cli/cmd/wait.go).
use mathlib.Core.List.{Permᴰ}
use mathlib.Core.List.Permᴰ
use nais_api.Cli.Shell.{Flags, Stored}
use nais_api.Cli.Shell.Reading.{
  Apart-Commuting, Commuting, kept, kept-eq, stored, stored-perm, then_some,
}
use nais_api.Cli.Wait.{WaitOptions, wait_flags}
use nais_api.Prelude.{
  List, Option, String, arith, inl, inr, none, refl, some, sym, ◌↔◌, ◌∙◌, ◌≡◌, ◌⊎◌,
}
use nais_api.Prelude.Outcome.{GoError}

abbrev pub no_options : WaitOptions
no_options = record { app = ""; namespace = ""; cluster = "" }

module _ (flags : Flags) where
  abbrev options_of : String ⊎ GoError → String ⊎ GoError → String ⊎ GoError → Option WaitOptions
  options_of (inl app) (inl namespace) (inl cluster) =
      some (record { app = app; namespace = namespace; cluster = cluster })
  options_of (inl app) (inl namespace) (inr e) = none
  options_of (inl app) (inr e) cluster = none
  options_of (inr e) namespace cluster = none

  stored-wait_flags :
      stored flags wait_flags no_options
      ≡ options_of
          (flags.get_string "app")
          (flags.get_string "namespace")
          (flags.get_string "cluster")
  unfolding stored
  stored-wait_flags =
      go (flags.get_string "app") (flags.get_string "namespace") (flags.get_string "cluster")
    where
      go :
          (a b c : String ⊎ GoError)
          → then_some (kept (λ v o. record o { app = v }) no_options a) (λ o.
            then_some
              (kept (λ v o. record o { namespace = v }) o b)
              (λ o. then_some (kept (λ v o. record o { cluster = v }) o c) some))
            ≡ options_of a b c
      go (inl app) (inl namespace) (inl cluster) =
          rw
            (
              kept-eq {D = WaitOptions} (λ v o. record o { app = v }) no_options refl app,
              kept-eq {D = WaitOptions} (λ v o. record o { namespace = v })
                  (record no_options { app = app }) refl namespace,
              kept-eq {D = WaitOptions} (λ v o. record o { cluster = v })
                  (record { app = app; namespace = namespace; cluster = "" }) refl cluster,
            )
            refl
      go (inl app) (inl namespace) (inr e) = refl
      go (inl app) (inr e) c = refl
      go (inr e) b c = refl

  wait_flags-Commuting : Commuting flags wait_flags
  wait_flags-Commuting = Apart-Commuting flags wait_flags (ground arith)

  options_of-some :
      (a b c : String ⊎ GoError) (o : WaitOptions)
      → (options_of a b c ≡ some o)
        ↔ ((a ≡ inl o.app) × (b ≡ inl o.namespace) × (c ≡ inl o.cluster))
  options_of-some (inl app) (inl namespace) (inl cluster) o = (λ h. (cc, cc, cc), λ (p, q, r). cc)
  options_of-some (inl app) (inl namespace) (inr e) o = (λ h. cc, λ (p, q, r). cc)
  options_of-some (inl app) (inr e) c o = (λ h. cc, λ (p, q, r). cc)
  options_of-some (inr e) b c o = (λ h. cc, λ (p, q, r). cc)

  -- Whatever the order of the flags, what is stored is what they are set to.
  pub stored-eq_some :
      (order : List (Stored WaitOptions))
      → Permᴰ order wait_flags
      → (o : WaitOptions)
      → (stored flags order no_options ≡ some o) ↔ (
          (flags.get_string "app" ≡ inl o.app)
          × (flags.get_string "namespace" ≡ inl o.namespace)
          × (flags.get_string "cluster" ≡ inl o.cluster))
  stored-eq_some order p o =
      let (there, back) =
        options_of-some (flags.get_string "app") (flags.get_string "namespace")
          (flags.get_string "cluster") o in
      let same_options = stored-perm flags (Permᴰ.symm p) wait_flags-Commuting no_options in
      (
        λ h. there (sym stored-wait_flags ∙ (same_options ∙ h)),
        λ h. sym same_options ∙ (stored-wait_flags ∙ back h),
      )
