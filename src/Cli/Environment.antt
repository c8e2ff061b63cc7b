-- ===== src/Cli/Environment.antt =====
-- cli/cmd/environment.go: the command that prints the variables that Fasit gives an application.
pub mod Laws
use nais_api.Cli.Shell.{
  Cmd, Flags, Os, ask_password, ask_username, done, fail, fail_on_stderr, from_outcome, on_world,
  or_exit, print, ◌>>=◌,
}
use nais_api.Fasit.{NaisResource, mount_point, to_environment_variable}
use nais_api.Fasit.Sync.{Adapter, fetch_fasit_resources}
use nais_api.Manifest.{NaisManifest}
use nais_api.Prelude.{
  Bool, List, Option, String, [], false, if◌then◌else◌, map, none, some, true, ◌++◌, ◌<>◌, ◌==◌,
  ◌∷◌,
}
use nais_api.Prelude.Dict.{or_empty}
use nais_api.Prelude.Outcome.{Outcome}
use nais_api.Prelude.Text.{contains_char, join}

-- The name and the value of each variable of a resource: secrets, properties, certificates.
unfoldable pub command_variables_of : NaisResource → List (String × String)
unfolding to_environment_variable mount_point
command_variables_of res =
    map (λ (k, v). (to_environment_variable res k, v)) (or_empty res.secret)
    ++ (map (λ (k, v). (to_environment_variable res k, v)) res.properties
        ++ map (λ (k, v). (to_environment_variable res k, mount_point res k))
            (or_empty res.certificates))

unfoldable pub command_variables : List NaisResource → List (String × String)
unfolding command_variables_of
command_variables [] = []
command_variables (res ∷ resources) = command_variables_of res ++ command_variables resources

-- What stands before a variable, and whether all are on one line.
unfoldable pub format_of : String → Option (String × Bool)
format_of output =
    if output == "export"
    then some ("export ", false)
    else if output == "java"
    then some ("-D", true)
    else if output == "docker"
    then some ("-e ", true)
    else if output == "multiline"
    then some ("", false)
    else if output == "inline"
    then some ("", true)
    else none

-- "%v='%s'": the value is not escaped.
abbrev pub formatted : String → String × String → String
formatted before (name, value) = before <> name <> "='" <> value <> "'"

unfoldable pub result_string : String × Bool → List NaisResource → String
unfolding command_variables join
result_string (before, inline) resources =
    join (if inline then " " else "\n") (map (formatted before) (command_variables resources))

-- The flags that are read, in their order.
pub record EnvironmentFlags : Type 0 where
  pub file : String
  pub output : String
  pub zone : String
  pub environment : String
  pub fasit_url : String

-- `fasit` is the client for a url, a name and a password. `print_format` is fmt.Printf on a format with
-- a percent sign and no arguments.
module _ {W : Type 0} (os : Os W) (flags : Flags) (parse_yaml : String → Outcome NaisManifest)
    (fasit : String → String → String → Adapter W) (print_format : String → String) where
  abbrev flag : String → Cmd W String
  flag key =
      or_exit fail_on_stderr (λ e. "Error while getting flag: " <> key <> ". " <> e.text <> "\n")
        (flags.get_string key)

  abbrev pub read_environment_flags : Cmd W EnvironmentFlags
  read_environment_flags =
      or_exit fail_on_stderr (λ e. "Error when getting flag: file. " <> e.text <> "\n")
        (flags.get_string "file")
      >>= λ file. flag "output" >>= λ output. flag "zone" >>= λ zone.
          flag "environment" >>= λ environment. flag "fasit-url" >>= λ fasit_url. done (record {
            file = file;
            output = output;
            zone = zone;
            environment = environment;
            fasit_url = fasit_url;
          })

  abbrev pub format_or_exit : String → Option (String × Bool) → Cmd W (String × Bool)
  format_or_exit output none = fail_on_stderr ("Invalid output format " <> output <> "\n")
  format_or_exit output (some format) = done format

  abbrev pub read_or_exit : String → Cmd W String
  read_or_exit file =
      or_exit fail_on_stderr (λ e. "Unable to read the file " <> file <> ": " <> e.text <> "\n")
        (os.read_file file)

  abbrev pub printed : String × Bool → List NaisResource → Cmd W (Unit {0})
  unfolding result_string
  printed (before, inline) resources =
      let text = result_string (before, inline) resources in
      print (if contains_char "%" text then print_format text else text) >>= λ _.
      if inline then done tt else print "\n"

  abbrev pub environment_with : String → String → String → EnvironmentFlags → Cmd W (Unit {0})
  unfolding format_of fetch_fasit_resources result_string contains_char
  environment_with application username password f =
      format_or_exit f.output (format_of f.output) >>= λ format. read_or_exit f.file >>= λ text.
      from_outcome fail_on_stderr (λ e. "Error while unmarshalling yaml. " <> e.text)
        (parse_yaml text)
      >>= λ manifest.
          on_world fail_on_stderr (λ e. "Failed to contact Fasit. " <> e.text <> "\n")
            (fetch_fasit_resources (fasit f.fasit_url username password) application f.environment
              f.zone manifest.fasit_resources.used)
          >>= printed format

  -- `help` is the text that cmd.Help prints.
  unfoldable pub environment_command : String → List String → Cmd W (Unit {0})
  unfolding ask_username ask_password format_of fetch_fasit_resources result_string contains_char
  environment_command help [] = fail help
  environment_command help (application ∷ args) =
      ask_username os (os.getenv "FASIT_USERNAME") >>= λ username.
      ask_password os username (os.getenv "FASIT_PASSWORD") >>= λ password.
      read_environment_flags >>= environment_with application username password
