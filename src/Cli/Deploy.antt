-- ===== src/Cli/Deploy.antt =====
-- cli/cmd/deploy.go: the command that asks a daemon to deploy.
pub mod Laws
pub mod Deploying
pub mod Command
use nais_api.Cli.{PollReply, deploy_endpoint, get_cluster_url, wait_for_deploy}
use nais_api.Cli.Shell.{
  Cmd, Flags, Os, Stored, WebAnswer, act, ask_password, ask_username, done, exit, fail,
  from_outcome, or_exit, print, read_flags, ◌>>=◌,
}
use nais_api.Cli.Wait.{flag_error, status_path, url_error, waiting_at}
use nais_api.Event.{environment}
use nais_api.Fasit.Client.Calls.{answer}
use nais_api.Prelude.{
  Bool, List, String, [], false, if◌then◌else◌, inl, inr, ltb, true, ℕ, ◌<>◌, ◌∷◌, ◌⊎◌,
}
use nais_api.Prelude.Outcome.{GoError}
use nais_api.Request.{Deploy, masked, validate}

-- The request, and the cluster that it is for.
pub record DeployOptions : Type 0 where
  pub request : Deploy
  pub cluster : String

abbrev on_request : (Deploy → Deploy) → DeployOptions → DeployOptions
on_request f o = record o { request = f o.request }

-- A map, whose order is open.
abbrev pub deploy_flags : List (Stored DeployOptions)
deploy_flags =
    ("app", λ v. on_request (λ r. record r { application = v }))
    ∷ ("version", λ v. on_request (λ r. record r { version = v }))
    ∷ ("zone", λ v. on_request (λ r. record r { zone = v }))
    ∷ ("namespace", λ v. on_request (λ r. record r { namespace = v }))
    ∷ ("fasit-environment", λ v. on_request (λ r. record r { fasit_environment = v }))
    ∷ ("fasit-username", λ v. on_request (λ r. record r { fasit_username = v }))
    ∷ ("fasit-password", λ v. on_request (λ r. record r { fasit_password = v }))
    ∷ ("manifest-url", λ v. on_request (λ r. record r { manifest_url = v }))
    ∷ ("cluster", λ v o. record o { cluster = v })
    ∷ []

abbrev pub initial_options : (String → String) → DeployOptions
initial_options getenv = record {
  request = record {
    application = "";
    version = "";
    zone = "";
    manifest_url = "";
    skip_fasit = false;
    fasit_environment = "";
    fasit_username = getenv "FASIT_USERNAME";
    fasit_password = getenv "FASIT_PASSWORD";
    on_behalf_of = "";
    namespace = "app";
    environment = "";
    cluster_name = "";
  };
  cluster = "";
}

-- A flag that cannot be read is taken for not set.
abbrev pub flag_or_false : Bool ⊎ GoError → Bool
flag_or_false (inl b) = b
flag_or_false (inr e) = false

-- The path at which the command asks for the status.
abbrev pub deployed_path : Deploy → String
deployed_path r = status_path r.application r.namespace

-- What prints and encodes: `%v` on a list of errors, the request with an indentation, and json.Marshal.
pub record Codec : Type 0 where
  pub label_errors : String → List String
  pub print_errors : List GoError → String
  pub print_request : Deploy → String
  pub marshal : Deploy → String ⊎ GoError

module _ {W : Type 0} (os : Os W) (flags : Flags) (codec : Codec) (fuel : ℕ)
    (polls : String → ℕ → PollReply) (elapsed : String) where
  -- The request with the name and the password for Fasit, where Fasit is asked.
  unfoldable pub with_credentials : Deploy → Cmd W Deploy
  unfolding ask_username ask_password
  with_credentials r =
      if r.skip_fasit
      then done r
      else (ask_username os r.fasit_username >>= λ username.
          ask_password os username r.fasit_password >>= λ password.
          done (record r { fasit_username = username; fasit_password = password }))

  abbrev pub checked : Deploy → List GoError → Cmd W (Unit {0})
  checked r [] = done tt
  checked r (e ∷ es) =
      fail ("DeploymentRequest is not valid: " <> codec.print_errors (e ∷ es) <> "\n")

  abbrev pub wait_if_asked : String → Deploy → Bool ⊎ GoError → Cmd W (Unit {0})
  unfolding wait_for_deploy
  wait_if_asked cluster_url r (inr e) = print ("Error: " <> e.text <> "\n")
  wait_if_asked cluster_url r (inl false) = done tt
  wait_if_asked cluster_url r (inl true) =
      waiting_at fuel polls elapsed (cluster_url <> deployed_path r)

  abbrev pub answered_by : String → Deploy → WebAnswer → Cmd W (Unit {0})
  unfolding wait_for_deploy
  answered_by cluster_url r answer = print ("response Status: " <> answer.status <> "\n") >>= λ _.
      print ("response Body: " <> answer.body <> "\n") >>= λ _.
      if ltb 299 answer.code then exit 1 else wait_if_asked cluster_url r (flags.get_bool "wait")

  -- From the request on, once it is complete.
  unfoldable pub post_request : String → Deploy → Cmd W (Unit {0})
  unfolding validate get_cluster_url wait_for_deploy masked
  post_request cluster r = checked r (validate codec.label_errors r) >>= λ _.
      from_outcome fail url_error (get_cluster_url (os.getenv "NAIS_CLUSTER_URL") cluster)
      >>= λ cluster_url.
          or_exit fail (λ e. "Error while marshalling JSON: " <> e.text <> "\n") (codec.marshal r)
          >>= λ json. print (codec.print_request (masked r) <> "\n") >>= λ _.
              act (os.http_post (cluster_url <> deploy_endpoint) "application/json" json)
              >>= or_exit fail (λ e. "Error while POSTing to API: " <> e.text <> "\n")
              >>= answered_by cluster_url r

  abbrev pub deploy_with : DeployOptions → Cmd W (Unit {0})
  unfolding with_credentials post_request
  deploy_with o = print ("Deploying to namespace: " <> o.request.namespace) >>= λ _.
      with_credentials
        (record o.request { skip_fasit = flag_or_false (flags.get_bool "skip-fasit") })
      >>= post_request o.cluster

  -- `order` is an order of `deploy_flags`.
  unfoldable pub deploy_command : List (Stored DeployOptions) → Cmd W (Unit {0})
  unfolding read_flags with_credentials post_request
  deploy_command order =
      read_flags flag_error flags order (initial_options os.getenv) >>= deploy_with
