-- ===== src/Api/Handlers.antt =====
-- The handlers that delete an application and that tell its status (api/api.go).
pub mod Laws
use nais_api.Api.{Handler, Response, failure, written}
use nais_api.App.{Spec}
use nais_api.AppError.{app_error}
use nais_api.Deleter.{Deletions, delete_k8s_resources}
use nais_api.Kubernetes.Cluster.{Cluster}
use nais_api.Prelude.{List, Option, String, [], none, some, ◌<>◌, ◌∷◌}
use nais_api.Prelude.Int.{pos, ℤ}
use nais_api.Prelude.Outcome.{Outcome, err, ok, panic}
use nais_api.Status.{
  DeployStatus, DeploymentStatusView, deployment_status_view, failed, in_progress, success,
}

unfoldable pub result_lines : List String → String
result_lines [] = ""
result_lines (r ∷ results) = r <> "\n" <> result_lines results

abbrev pub deletion_text : List String → String
deletion_text [] = ""
deletion_text (r ∷ results) = "result: \n" <> result_lines (r ∷ results)

abbrev pub deletion_response : {S : Type 0} → Outcome Deletions × S → Outcome Response × S
deletion_response (ok (results, none), s) = (ok (written (pos 200) (deletion_text results)), s)
deletion_response (ok (results, some e), s) = (
  ok (
      failure (
        app_error (some e)
          ("there were errors when trying to delete app: " <> deletion_text results) 500)),
  s,
)
deletion_response (err e, s) = (err e, s)
deletion_response (panic, s) = (panic, s)

-- The application is named without its team.
abbrev pub named : String → String → Spec
named namespace application = record { application = application; namespace = namespace; team = "" }

abbrev pub status_code_of : DeployStatus → ℤ
status_code_of in_progress = pos 202
status_code_of failed = pos 500
status_code_of success = pos 200

module _ (c : Cluster) where
  unfoldable pub delete_application : String → String → Handler c.State
  unfolding delete_k8s_resources result_lines
  delete_application namespace application s =
      deletion_response (delete_k8s_resources c (named namespace application) s)

  -- `json` is json.Marshal on the view: without a text, nothing is written after the status.
  abbrev pub status_response :
      (DeploymentStatusView → Option String)
      → Outcome (DeployStatus × DeploymentStatusView)
      → Outcome Response
  status_response json (ok (status, view)) =
      ok (written (status_code_of status) (elim (json view) [ some text ↦ text | none ↦ "" ]))
  status_response json (err e) = ok (failure (app_error (some e) "deployment not found " 404))
  status_response json panic = panic

  unfoldable pub deployment_status_handler :
      (DeploymentStatusView → Option String)
      → String
      → (String → String)
      → String
      → String
      → c.State
      → Outcome Response
  unfolding deployment_status_view
  deployment_status_handler json pointer quoted namespace deploy_name s =
      status_response json (deployment_status_view c pointer quoted namespace deploy_name s)
