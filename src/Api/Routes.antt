-- ===== src/Api/Routes.antt =====
-- The routes of the daemon and what the web server writes (api/api.go). goji, which matches a pattern
-- to a path, is a parameter; so are json and the metrics.
pub mod Laws
use nais_api.Api.{Handler, Response, Server, failure, on_cluster, written}
use nais_api.Api.Deployment.{World, deploy}
use nais_api.Api.Handlers.{delete_application, deployment_status_handler}
use nais_api.AppError.{app_error, describe}
use nais_api.Creator.Access.{found}
use nais_api.Kubernetes.Cluster.{Cluster}
use nais_api.Prelude.{Bool, Option, String, [], false, inl, inr, none, some, true, ◌<>◌, ◌∷◌, ◌⊎◌}
use nais_api.Prelude.Dict.{Dict, lookup}
use nais_api.Prelude.Int.{pos, ℤ}
use nais_api.Prelude.Outcome.{GoError, M, Outcome, err, errorf, ok, panic}
use nais_api.Request.{Deploy}
use nais_api.Status.{DeploymentStatusView}

abbrev pub isalive_pattern : String
isalive_pattern = "/isalive"

abbrev pub deploy_pattern : String
deploy_pattern = "/deploy"

abbrev pub metrics_pattern : String
metrics_pattern = "/metrics"

abbrev pub version_pattern : String
version_pattern = "/version"

abbrev pub status_pattern : String
status_pattern = "/deploystatus/:namespace/:deployName"

abbrev pub delete_pattern : String
delete_pattern = "/app/:namespace/:deployName"

pub data Method : Type 0 where
  get head post delete other_method : Method

-- The parameters of the path stay with the route that they were found by.
pub data Route : Type 0 where
  is_alive_route deploy_route metrics_route version_route not_found_route : Route
  status_route delete_route : Dict String → Route

-- pat.Get is for both of two methods.
abbrev pub is_get : Method → Bool
is_get get = true
is_get head = true
is_get post = false
is_get delete = false
is_get other_method = false

abbrev pub is_post : Method → Bool
is_post post = true
is_post _ = false

abbrev pub is_delete : Method → Bool
is_delete delete = true
is_delete _ = false

-- `match_path` gives the variables of a pattern at a path, if the path is of its form.
module _ (match_path : String → String → Option (Dict String)) where
  -- A route, if the method is its own, or else the later ones.
  abbrev pub or_later : Bool → String → String → (Dict String → Route) → Route → Route
  or_later false pattern path found later = later
  or_later true pattern path found later = elim (match_path pattern path) [
    | some variables ↦ found variables
    | none ↦ later
  ]

  unfoldable pub route : Method → String → Route
  route method path =
      or_later (is_get method) isalive_pattern path (λ _. is_alive_route)
        (or_later (is_post method) deploy_pattern path (λ _. deploy_route)
          (or_later (is_get method) metrics_pattern path (λ _. metrics_route)
            (or_later (is_get method) version_pattern path (λ _. version_route)
              (or_later (is_get method) status_pattern path status_route
                (or_later (is_delete method) delete_pattern path delete_route not_found_route)))))

-- A request, with what ioutil.ReadAll gives of its body.
pub record HttpCall : Type 0 where
  pub method : Method
  pub path : String
  pub body : String ⊎ GoError
  pub user : String × String

-- The status and the body that are sent.
pub record Answer : Type 0 where
  pub status : ℤ
  pub body : String

-- appHandler.ServeHTTP: http.Error ends its text with a line break.
unfoldable pub serve_http : Response → Answer
unfolding describe
serve_http (written code body) = record { status = code; body = body }
serve_http (failure e) = record { status = e.status_code; body = describe e <> "\n" }

-- pat.Param, which panics where there is no such variable.
abbrev pub param : String → Dict String → Outcome String
param name variables = elim (lookup name variables) [ some value ↦ ok value | none ↦ panic ]

abbrev pub with_param : {W : Type 0} → Outcome String → (String → Handler W) → Handler W
with_param (ok value) next w = next value w
with_param (err e) next w = (err e, w)
with_param panic next w = (panic, w)

abbrev pub answered : {W : Type 0} → Outcome Response × W → Outcome Answer × W
unfolding serve_http
answered (ok r, w) = (ok (serve_http r), w)
answered (err e, w) = (err e, w)
answered (panic, w) = (panic, w)

-- The request in a body that can be read; `decode` is json.Unmarshal.
unfoldable pub unmarshal_deployment_request :
    (String → Deploy ⊎ GoError) → String ⊎ GoError → Deploy ⊎ GoError
unmarshal_deployment_request decode (inl request_body) = elim (decode request_body) [
  | inl r ↦ inl r
  | inr e ↦ inr (errorf ("could not unmarshal body " <> e.text))
]
unmarshal_deployment_request decode (inr e) =
    inr (errorf ("could not read deployment request body " <> e.text))

-- What the handlers call beside the server: json.Unmarshal on a request, json.Marshal on the view of a
-- status and on the version, the printing of a pointer and of a quoted text, and the page of metrics.
pub record Printer : Type 0 where
  pub decode : String → Deploy ⊎ GoError
  pub view : DeploymentStatusView → Option String
  pub pointer : String
  pub quoted : String → String
  pub encode : Dict String → String ⊎ GoError
  pub metrics : String

-- `version` and `revision` are set when the program is linked.
unfoldable pub version_handler :
    {W : Type 0} → (Dict String → String ⊎ GoError) → String → String → Handler W
version_handler encode version revision w =
    elim (encode (("version", version) ∷ ("revision", revision) ∷ [])) [
      | inl text ↦ (ok (written (pos 200) text), w)
      | inr e ↦ (ok (failure (app_error (some e) "unable to encode JSON" 500)), w)
    ]

unfoldable pub is_alive : {W : Type 0} → Handler W
is_alive w = (ok (written (pos 200) ""), w)

module _ {F N : Type 0} (c : Cluster) (server : Server c F N) (printer : Printer)
    (version revision : String) where
  -- The two parameters of a path.
  abbrev pub with_names :
      Dict String → (String → String → Handler (World c server)) → Handler (World c server)
  with_names variables next w =
      with_param (param "namespace" variables)
        (λ namespace. with_param (param "deployName" variables) (next namespace)) w

  abbrev pub status_of : String → String → Handler (World c server)
  status_of namespace deploy_name w = (
    deployment_status_handler c printer.view printer.pointer printer.quoted namespace deploy_name
        w.0,
    w,
  )

  abbrev pub deletion_of : String → String → Handler (World c server)
  deletion_of namespace deploy_name = on_cluster (delete_application c namespace deploy_name)

  unfoldable pub dispatch : Route → HttpCall → M (World c server) Answer
  unfolding deploy deployment_status_handler delete_application version_handler is_alive serve_http
      unmarshal_deployment_request
  dispatch is_alive_route call w = answered (is_alive w)
  dispatch deploy_route call w =
      answered (deploy c server (unmarshal_deployment_request printer.decode call.body) call.user w)
  dispatch metrics_route call w = (ok (record { status = pos 200; body = printer.metrics }), w)
  dispatch version_route call w = answered (version_handler printer.encode version revision w)
  dispatch (status_route variables) call w = answered (with_names variables status_of w)
  dispatch (delete_route variables) call w = answered (with_names variables deletion_of w)
  dispatch not_found_route call w =
      (ok (record { status = pos 404; body = "404 page not found\n" }), w)

  -- Api.Handler
  unfoldable pub handler :
      (String → String → Option (Dict String)) → HttpCall → M (World c server) Answer
  unfolding route dispatch
  handler match_path call = dispatch (route match_path call.method call.path) call
