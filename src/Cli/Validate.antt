-- ===== src/Cli/Validate.antt =====
-- cli/cmd/validate.go: the command that validates a manifest. yaml is a parameter.
pub mod Laws
use nais_api.Cli.Shell.{Cmd, Flags, Os, done, fail, from_outcome, or_exit, print, ◌>>=◌}
use nais_api.Manifest.{NaisManifest, ValidationError}
use nais_api.Manifest.Download.{Outside, add_default_manifest_values}
use nais_api.Manifest.Validation.{describe_errors, validate_manifest}
use nais_api.Prelude.{Bool, List, String, [], false, if◌then◌else◌, true, ◌<>◌, ◌∷◌}
use nais_api.Prelude.Outcome.{GoError}
use nais_api.Prelude.Text.{contains_char}

-- `print_yaml` is yaml.Marshal, whose error is not looked at. `print_format` is fmt.Printf on a format and
-- an error, where the format has more percent signs than the one for the error.
pub record Yaml : Type 0 where
  pub outside : Outside
  pub print_yaml : NaisManifest → String
  pub print_format : String → GoError → String

module _ {W : Type 0} (os : Os W) (flags : Flags) (yaml : Yaml) where
  abbrev pub reported : String → List ValidationError → Cmd W (Unit {0})
  unfolding describe_errors
  reported file [] = done tt
  reported file (e ∷ es) = print ("Found errors while validating " <> file <> "\n") >>= λ _.
      fail (describe_errors (e ∷ es))

  abbrev pub shown : Bool → NaisManifest → Cmd W (Unit {0})
  shown true m = print (yaml.print_yaml m <> "\n")
  shown false m = done tt

  -- The manifest with its defaults.
  abbrev pub judged : String → Bool → NaisManifest → Cmd W (Unit {0})
  unfolding validate_manifest describe_errors
  judged file output m =
      shown output m >>= λ _. reported file (validate_manifest yaml.outside.quantity_error m)

  abbrev pub with_defaults : String → Bool → NaisManifest → Cmd W (Unit {0})
  unfolding add_default_manifest_values validate_manifest describe_errors
  with_defaults file output manifest =
      from_outcome fail (λ e. "Error while adding default values yaml. " <> e.text)
        (add_default_manifest_values yaml.outside manifest "appName")
      >>= judged file output

  -- The file, from its text on.
  abbrev pub validated : String → Bool → String → Cmd W (Unit {0})
  unfolding add_default_manifest_values validate_manifest describe_errors
  validated file output text = print ("Validating the file: " <> file <> "\n") >>= λ _.
      from_outcome fail (λ e. "Error while unmarshalling yaml. " <> e.text)
        (yaml.outside.parse_yaml text)
      >>= with_defaults file output

  -- The name of the file is a part of the format.
  abbrev pub unread : String → GoError → String
  unfolding contains_char
  unread file e =
      if contains_char "%" file
      then yaml.print_format ("Could not read file: " <> file <> ". %v") e
      else "Could not read file: " <> file <> ". " <> e.text

  unfoldable pub validate_command : Cmd W (Unit {0})
  unfolding contains_char add_default_manifest_values validate_manifest describe_errors
  validate_command =
      or_exit fail (λ e. "Error when getting flag: file. " <> e.text) (flags.get_string "file")
      >>= λ file.
          or_exit fail (λ e. "Error when getting flag: output. " <> e.text)
            (flags.get_bool "output")
          >>= λ output. or_exit fail (unread file) (os.read_file file) >>= validated file output
