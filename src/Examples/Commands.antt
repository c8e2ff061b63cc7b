-- ===== src/Examples/Commands.antt =====
-- The commands of the command line at work.
use mathlib.Core.List.{Perm}
use nais_api.Api.Routes.{Printer, answered, handler, status_of}
use nais_api.Api.Routes.Laws.{IsSegment}
use nais_api.Cli.{PollReply, answered_with}
use nais_api.Cli.Deploy.{Codec, deployed_path, post_request}
use nais_api.Cli.Environment.{command_variables}
use nais_api.Cli.Environment.Laws.{env_names, environment-perm, variable_names}
use nais_api.Cli.Shell.{Flags, Os, goes, silent}
use nais_api.Cli.Validate.{Yaml, validate_command}
use nais_api.Cli.Validate.Laws.{IsAcceptable, validate_command-goes}
use nais_api.Cli.Wait.{WaitOptions, waited_path}
use nais_api.Cli.Wait.Laws.{get_call, handler-waited_path}
use nais_api.Creator.Environment.{
  add_resources, base_variables, check_for_duplicates, create_environment_variables,
}
use nais_api.Creator.Environment.Laws.{resources_environment}
use nais_api.Examples.{app_manifest, app_request, app_resources, app_spec, test_platform}
use nais_api.Examples.Clusters.{existing_objects}
use nais_api.Examples.Memory.{memory}
use nais_api.Examples.Requests.{outside}
use nais_api.Examples.Router.{small_match, small_match-Matches}
use nais_api.Examples.Servers.{server}
use nais_api.Fasit.{to_environment_variable}
use nais_api.Kubernetes.Objects.{EnvVar}
use nais_api.Prelude.{
  Bool, List, String, [], false, if◌then◌else◌, inl, inr, none, refl, some, suc, ℕ, ◌++◌, ◌==◌, ◌↔◌,
  ◌≡◌,
}
use nais_api.Prelude.Dict.{lookup}
use nais_api.Prelude.Outcome.{errorf, ok}
use nais_api.Prelude.Text.{contains_char}

-- An operating system with one file, on the number of requests.
abbrev pub small_os : Os ℕ
small_os = record {
  getenv = λ name. "";
  lookup_env = λ name. none;
  current_user = inl "user";
  read_password = λ n. (inl "password", n);
  read_file = λ name. if name == "nais.yaml" then inl "manifest" else inr (errorf "no such file");
  http_post = λ url type body n.
      (inl (record { code = 200; status = "200 OK"; body = "result: \n" }), suc n);
  request_error = λ method url. none;
  http_put = λ url username password body n.
      (inl (record { code = 201; status = "201 Created"; body = "" }), suc n);
}

abbrev small_flags : Flags
small_flags = record {
  get_string = λ key. if key == "file" then inl "nais.yaml" else inl "";
  get_bool = λ key. inl false;
}

abbrev small_yaml : Yaml
small_yaml = record {
  outside = outside;
  print_yaml = λ manifest. "manifest";
  print_format = λ format e. format;
}

validate_command-goes_example :
    ((validate_command small_os small_flags small_yaml (silent, 0)).0 ≡ goes tt) ↔ (
      (file : String) × (small_flags.get_string "file" ≡ inl file)
      × ((output : Bool) × (small_flags.get_bool "output" ≡ inl output)
          × ((text : String) × (small_os.read_file file ≡ inl text)
              × IsAcceptable small_os small_flags small_yaml text)))
validate_command-goes_example = validate_command-goes small_os small_flags small_yaml (silent, 0)

abbrev pub small_codec : Codec
small_codec = record {
  label_errors = λ name. [];
  print_errors = λ errors. "errors";
  print_request = λ request. "request";
  marshal = λ request. inl "request";
}

abbrev pub never_done : String → ℕ → PollReply
never_done url n = answered_with 202

post_request_runs :
    (post_request small_os small_flags small_codec 3 never_done "3s" "preprod-fss" app_request
      (silent, 0)).0
    ≡ goes tt
unfolding post_request lookup
post_request_runs = refl

abbrev wait_options : WaitOptions
wait_options = record { app = "app"; namespace = "default"; cluster = "" }

abbrev small_printer : Printer
small_printer = record {
  view = λ view. some "view";
  pointer = "0xc0";
  quoted = λ text. text;
  decode = λ body. inl app_request;
  encode = λ fields. inl "version";
  metrics = "";
}

app-IsSegment : IsSegment "app"
unfolding contains_char
app-IsSegment = (λ h. cc, refl)

default-IsSegment : IsSegment "default"
unfolding contains_char
default-IsSegment = (λ h. cc, refl)

handler-waited_path_example :
    (handler memory server small_printer "1" "abc" small_match
        (get_call (waited_path wait_options))
        (existing_objects, (0, 0))
      ≡ answered (
          status_of memory server small_printer "1" "abc" "default" "app"
            (existing_objects, (0, 0))))
    × (handler memory server small_printer "1" "abc" small_match
          (get_call (deployed_path app_request))
          (existing_objects, (0, 0))
        ≡ answered (
            status_of memory server small_printer "1" "abc" "app" "default"
              (existing_objects, (0, 0))))
handler-waited_path_example =
    handler-waited_path small_match small_match-Matches memory server small_printer "1" "abc"
      wait_options app_request (existing_objects, (0, 0)) default-IsSegment app-IsSegment
      app-IsSegment default-IsSegment

abbrev app_variables : List EnvVar
app_variables =
    base_variables app_spec app_request app_manifest ++ resources_environment app_spec app_resources

variables_made :
    create_environment_variables test_platform.proxy app_spec app_request app_manifest app_resources
    ≡ ok app_variables
unfolding create_environment_variables base_variables add_resources check_for_duplicates
    to_environment_variable lookup
variables_made = refl

environment-perm_example : Perm (env_names app_variables) (
    env_names (base_variables app_spec app_request app_manifest)
    ++ variable_names (command_variables app_resources))
environment-perm_example =
    environment-perm test_platform.proxy app_spec app_request app_manifest app_resources
      app_variables refl variables_made
