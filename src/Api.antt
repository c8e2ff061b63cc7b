-- ===== src/Api.antt =====
-- api/api.go: the handlers of the daemon and its settings. The metrics are left out.
pub mod Deployment
pub mod Handlers
pub mod Routes
pub mod Laws
pub mod Answers
pub mod Told
pub mod Deployed
pub mod Skipping
pub mod Standing
use nais_api.Alerts.{PrometheusAlertGroups}
use nais_api.App.{Spec}
use nais_api.AppError.{AppError, app_error}
use nais_api.Creator.Apply.{DeploymentResult}
use nais_api.Creator.Pod.{Platform}
use nais_api.Event.{Event, Reference, environment}
use nais_api.Fasit.Sync.{Adapter}
use nais_api.Kubernetes.Cluster.{Cluster}
use nais_api.Manifest.{NaisManifest}
use nais_api.Manifest.Download.{
  Generated, Outside, generated, invalid, not_downloaded, not_merged, panicked,
}
use nais_api.Manifest.Validation.{describe_errors}
use nais_api.Prelude.{
  Bool, List, Option, String, [], false, if◌then◌else◌, inl, inr, none, some, true, ℕ, ◌<>◌, ◌==◌,
  ◌∷◌, ◌⊎◌,
}
use nais_api.Prelude.Int.{eqb_ℤ, pos, ℤ}
use nais_api.Prelude.Outcome.{GoError, M, Outcome, err, errorf, ok, panic}
use nais_api.Request.{Deploy}
use nais_api.Sensu.{Socket}

-- What a handler leaves: a status and a body that were written, or an error for the server to write.
pub data Response : Type 0 where
  written : ℤ → String → Response
  failure : AppError → Response

-- A handler changes the state of what the daemon talks to.
abbrev pub Handler : Type 0 → Type 0
Handler W = M W Response

module _ {W A : Type 0} where
  -- `if err != nil { return &appError{err, message, code} }`
  unfoldable pub or_fail : String → ℕ → Outcome A × W → (A → Handler W) → Outcome Response × W
  or_fail message code (ok a, w) next = next a w
  or_fail message code (err e, w) next = (ok (failure (app_error (some e) message code)), w)
  or_fail message code (panic, w) next = (panic, w)

-- The state is that of the cluster, that of Fasit, and that of the network and the clock.
module _ {C F N A : Type 0} where
  abbrev pub on_cluster : M C A → M (C × (F × N)) A
  on_cluster m (s, x) = let (r, t) = m s in (r, (t, x))

  abbrev pub on_fasit : M F A → M (C × (F × N)) A
  on_fasit m (s, (f, n)) = let (r, t) = m f in (r, (s, (t, n)))

  abbrev pub on_network : M N A → M (C × (F × N)) A
  on_network m (s, (f, n)) = let (r, t) = m n in (r, (s, (f, t)))

unfoldable pub has_resources : NaisManifest → Bool
has_resources manifest = elim manifest.fasit_resources.used [
  | r ∷ rs ↦ true
  | [] ↦ elim manifest.fasit_resources.exposed [ r ∷ rs ↦ true | [] ↦ false ]
]

unfoldable pub ensure_property_compatibility : Deploy → List String
ensure_property_compatibility r =
    if r.environment == ""
    then []
    else "Specifying environment is deprecated, specify namespace instead." ∷ []

abbrev pub line_if : {A : Type 0} → Option A → String → String
line_if none line = ""
line_if (some a) line = line

unfoldable pub warning_lines : List String → String
warning_lines [] = ""
warning_lines (w ∷ warnings) = "- " <> w <> "\n" <> warning_lines warnings

abbrev pub warnings_text : List String → String
unfolding warning_lines
warnings_text [] = ""
warnings_text (w ∷ warnings) = "\nWarnings:\n" <> warning_lines (w ∷ warnings)

unfoldable pub create_response : DeploymentResult → List String → String
unfolding warning_lines
create_response d warnings =
    "result: \n"
    <> line_if d.deployment "- created deployment\n"
    <> line_if d.secret "- created secret\n"
    <> line_if d.service "- created service\n"
    <> line_if d.ingress "- created ingress\n"
    <> line_if d.autoscaler "- created autoscaler\n"
    <> line_if d.alerts_config_map "- updated alerts configmap (app-rules)\n"
    <> line_if d.redis "- created redis\n"
    <> line_if d.redis_service "- created redis service\n"
    <> line_if d.service_account "- created serviceaccount\n"
    <> line_if d.role_binding "- created rolebinding\n"
    <> warnings_text warnings

-- The answer of Azure to the posted form: an error or a status.
unfoldable pub authenticate : GoError ⊎ ℤ → Option AppError
authenticate (inl e) = some (app_error (some e) "Failed during authentication" 500)
authenticate (inr status) =
    if eqb_ℤ status (pos 200) then none else some (app_error none "Authentication failure" 401)

-- The settings of the daemon, and what it calls. `post_form` is http.PostForm with a user's name and
-- password, and `azure_is_set` says that the three variables for Azure are not empty. `now` is the
-- clock in nanoseconds, and `deployment_event_handler` leaves what there is once it has returned.
pub record Server (C : Cluster) (F N : Type 0) : Type 0 where
  pub platform : Platform
  pub outside : Outside
  pub multierror : List GoError → String
  pub marshal : PrometheusAlertGroups → Outcome String
  pub fasit : String → String → Adapter F
  pub cluster_subdomain : String
  pub cluster_name : String
  pub istio_enabled : Bool
  pub authentication_enabled : Bool
  pub azure_is_set : Bool
  pub post_form : String → String → GoError ⊎ ℤ
  pub socket : Socket N
  pub parse_image : String → Option Reference
  pub now : N → ℤ
  pub new_uuid : N → String
  pub deployment_event_handler : Event → N → N

-- The error of `GenerateManifest`.
abbrev pub as_outcome : (List GoError → String) → Generated → Outcome NaisManifest
as_outcome multierror (generated m) = ok m
as_outcome multierror (not_downloaded es) = err (errorf (multierror es))
as_outcome multierror (not_merged e) = err e
as_outcome multierror (invalid es) = err (errorf (describe_errors es))
as_outcome multierror panicked = panic

-- The request with the default namespace and the name of the cluster.
unfoldable pub completed : String → Deploy → Deploy
completed cluster_name r = record r {
  namespace = if r.namespace == "" then "default" else r.namespace;
  cluster_name = cluster_name;
}

abbrev pub spec_of : Deploy → NaisManifest → Spec
spec_of r manifest = record {
  application = r.application;
  namespace = r.namespace;
  team = manifest.team;
}

module _ {F : Type 0} (fasit : Adapter F) where
  abbrev application_read : String → Outcome (Unit {0}) × F → Outcome (Unit {0}) × F
  application_read application (ok u, f) = (ok tt, f)
  application_read application (err e, f) =
      (err (errorf ("unable to get fasit application: " <> application <> ". " <> e.text)), f)
  application_read application (panic, f) = (panic, f)

  abbrev class_read : String → String → Outcome String × F → Outcome (Unit {0}) × F
  class_read application environment (ok class, f) =
      application_read application (fasit.get_fasit_application application f)
  class_read application environment (err e, f) =
      (err (errorf ("unable to get fasit environment: " <> environment <> ". " <> e.text)), f)
  class_read application environment (panic, f) = (panic, f)

  unfoldable pub validate_fasit_requirements : String → String → M F (Unit {0})
  validate_fasit_requirements application environment f =
      class_read application environment (fasit.get_fasit_environment_class environment f)

  abbrev or_no_class : Outcome String × F → Outcome String × F
  or_no_class (ok class, f) = (ok class, f)
  or_no_class (err e, f) = (ok "", f)
  or_no_class (panic, f) = (panic, f)

  -- The error of this second reading is overwritten before it is looked at.
  unfoldable pub environment_class : String → M F String
  environment_class environment f = or_no_class (fasit.get_fasit_environment_class environment f)
