-- ===== src/Cli/Validate/Laws.antt =====
-- When the command line finds a manifest valid (cli/cmd/validate.go).
use nais_api.Cli.Shell.{Cmd, Console, Flags, Os, fail, goes, or_exit, ◌>>=◌}
use nais_api.Cli.Shell.Laws.{from_outcome-goes, or_exit-goes}
use nais_api.Cli.Validate.{
  Yaml, judged, reported, unread, validate_command, validated, with_defaults,
}
use nais_api.Manifest.{NaisManifest, ValidationError}
use nais_api.Manifest.Download.{add_default_manifest_values}
use nais_api.Manifest.Validation.{validate_manifest}
use nais_api.Manifest.Validation.Laws.{validate_manifest-eq_nil}
use nais_api.Manifest.Validation.Valid.{IsValid}
use nais_api.Prelude.{Bool, List, String, [], false, inl, refl, true, ◌<>◌, ◌↔◌, ◌∷◌, ◌≡◌}
use nais_api.Prelude.Outcome.{ok}

module _ {W : Type 0} (os : Os W) (flags : Flags) (yaml : Yaml) where
  reported-goes :
      (file : String) (es : List ValidationError) (s : Console × W)
      → ((reported os flags yaml file es s).0 ≡ goes tt) ↔ (es ≡ [])
  unfolding reported
  reported-goes file [] s = (λ h. refl, λ h. refl)
  reported-goes file (e ∷ es) s = (λ h. cc, λ h. cc)

  judged-goes :
      (file : String) (output : Bool) (m : NaisManifest) (s : Console × W)
      → ((judged os flags yaml file output m s).0 ≡ goes tt) ↔ IsValid yaml.outside.quantity_error m
  unfolding reported judged
  judged-goes file true m (console, w) =
      let (a, b) =
        reported-goes file (validate_manifest yaml.outside.quantity_error m)
          (record console { out = console.out <> (yaml.print_yaml m <> "\n") }, w) in
      let (c, d) = validate_manifest-eq_nil yaml.outside.quantity_error m in
      (λ h. c (a h), λ v. b (d v))
  judged-goes file false m s =
      let (a, b) = reported-goes file (validate_manifest yaml.outside.quantity_error m) s in
      let (c, d) = validate_manifest-eq_nil yaml.outside.quantity_error m in
      (λ h. c (a h), λ v. b (d v))

  -- The text is a manifest that is valid once it has the defaults.
  abbrev pub IsAcceptable : String → Type 0
  IsAcceptable text =
      (d : NaisManifest) × (yaml.outside.parse_yaml text ≡ ok d)
      × ((m : NaisManifest) × (add_default_manifest_values yaml.outside d "appName" ≡ ok m)
          × IsValid yaml.outside.quantity_error m)

  validated-goes :
      (file : String) (output : Bool) (text : String) (s : Console × W)
      → ((validated os flags yaml file output text s).0 ≡ goes tt) ↔ IsAcceptable text
  unfolding validated with_defaults judged
  validated-goes file output text (console, w) = (
    λ h.
        let (d, p, h1) =
          (from_outcome-goes _ (yaml.outside.parse_yaml text)
              (with_defaults os flags yaml file output) (opened, w) tt).0
            h in
        let (m, q, h2) =
          (from_outcome-goes _ (add_default_manifest_values yaml.outside d "appName")
              (judged os flags yaml file output) (opened, w) tt).0
            h1 in
        (d, p, (m, q, (judged-goes file output m (opened, w)).0 h2)),
    λ (d, p, (m, q, v)).
        (from_outcome-goes _ (yaml.outside.parse_yaml text)
            (with_defaults os flags yaml file output) (opened, w) tt).1
          (
            d,
            p,
            (from_outcome-goes _ (add_default_manifest_values yaml.outside d "appName")
                  (judged os flags yaml file output) (opened, w) tt).1
                (m, q, (judged-goes file output m (opened, w)).1 v),
          ),
  )
    where
      opened : Console
      opened = record console { out = console.out <> ("Validating the file: " <> file <> "\n") }

  abbrev with_output : String → Bool → Cmd W (Unit {0})
  with_output file output =
      or_exit fail (unread os flags yaml file) (os.read_file file)
      >>= validated os flags yaml file output

  abbrev with_file : String → Cmd W (Unit {0})
  with_file file =
      or_exit fail (λ e. "Error when getting flag: output. " <> e.text) (flags.get_bool "output")
      >>= with_output file

  -- The command that validates a manifest ends well exactly if both flags and the file can be read and
  -- the text is a manifest that is valid once it has the defaults.
  pub validate_command-goes :
      (s : Console × W)
      → ((validate_command os flags yaml s).0 ≡ goes tt) ↔ (
          (file : String) × (flags.get_string "file" ≡ inl file)
          × ((output : Bool) × (flags.get_bool "output" ≡ inl output)
              × ((text : String) × (os.read_file file ≡ inl text) × IsAcceptable text)))
  unfolding validate_command
  validate_command-goes s = (
    λ h.
        let (file, p, h1) = (or_exit-goes _ (flags.get_string "file") with_file s tt).0 h in
        let (output, q, h2) =
          (or_exit-goes _ (flags.get_bool "output") (with_output file) s tt).0 h1 in
        let (text, r, h3) =
          (or_exit-goes _ (os.read_file file) (validated os flags yaml file output) s tt).0 h2 in
        (file, p, (output, q, (text, r, (validated-goes file output text s).0 h3))),
    λ (file, p, (output, q, (text, r, a))).
        (or_exit-goes _ (flags.get_string "file") with_file s tt).1 (
          file,
          p,
          (or_exit-goes _ (flags.get_bool "output") (with_output file) s tt).1 (
            output,
            q,
            (or_exit-goes _ (os.read_file file) (validated os flags yaml file output) s tt).1
                (text, r, (validated-goes file output text s).1 a),
          ),
        ),
  )
