-- ===== src/Status.antt =====
-- api/deploymentstatus.go: how far the rollout of a deployment has come.
pub mod Laws
use nais_api.App.{Spec, resource_name}
use nais_api.Kubernetes.Cluster.{Cluster}
use nais_api.Kubernetes.Objects.{Condition, Container, Deployment, DeploymentStatus, deployments}
use nais_api.Prelude.{
  Bool, List, String, [], false, if◌then◌else◌, inl, inr, map, none, not, some, ◌&&◌, ◌+◌, ◌<>◌,
  ◌==◌, ◌||◌, ◌∷◌,
}
use nais_api.Prelude.Int.{int32, ltb_ℤ, neg_part, pos_part, sub_ℕ, ℤ}
use nais_api.Prelude.Outcome.{Outcome, err, errorf, ok, panic}
use nais_api.Prelude.Text.{itoa}

pub data DeployStatus : Type 0 where
  success in_progress failed : DeployStatus

unfoldable pub status_string : DeployStatus → String
status_string in_progress = "InProgress"
status_string failed = "Failed"
status_string success = "Success"

pub record DeploymentStatusView : Type 0 where
  pub name : String
  pub desired : ℤ
  pub current : ℤ
  pub up_to_date : ℤ
  pub available : ℤ
  pub containers : List String
  pub images : List String
  pub status : String
  pub reason : String

unfoldable pub find_container_images : List Container → List String × List String
find_container_images containers = (map (λ c. c.name) containers, map (λ c. c.image) containers)

-- `desired` is `*deployment.Spec.Replicas`.
unfoldable pub deployment_status_view_from :
    DeployStatus → String → ℤ → Deployment → DeploymentStatusView
unfolding status_string find_container_images
deployment_status_view_from status reason desired d =
    let (containers, images) = find_container_images d.spec.template.spec.containers in
    record {
      name = d.meta.name;
      desired = desired;
      current = d.status.replicas;
      up_to_date = d.status.updated_replicas;
      available = d.status.available_replicas;
      containers = containers;
      images = images;
      status = status_string status;
      reason = reason;
    }

unfoldable pub exceeds_deadline : List Condition → Bool
exceeds_deadline [] = false
exceeds_deadline (c ∷ conditions) =
    (c.type == "Progressing" && c.reason == "ProgressDeadlineExceeded")
    || exceeds_deadline conditions

unfoldable pub deployment_exceeded_progress_deadline : DeploymentStatus → Bool
unfolding exceeds_deadline
deployment_exceeded_progress_deadline status = exceeds_deadline status.conditions

-- int32 subtraction
abbrev minus_int32 : ℤ → ℤ → ℤ
minus_int32 a b = int32 (sub_ℕ (pos_part a + neg_part b) (neg_part a + pos_part b))

-- The rollout with its reason. `pointer` is what %d prints of the pointer `Spec.Replicas`, and
-- `quoted` what %q prints of the name.
unfoldable pub rollout : String → (String → String) → ℤ → Deployment → DeployStatus × String
unfolding deployment_exceeded_progress_deadline itoa int32
rollout pointer quoted desired d =
    let status : DeploymentStatus = d.status in
    if not (ltb_ℤ status.observed_generation d.meta.generation)
    then (if deployment_exceeded_progress_deadline status
        then (failed, "deployment " <> d.meta.name <> " exceeded its progress deadline")
        else if ltb_ℤ status.updated_replicas desired
        then (
          in_progress,
          "Waiting for rollout to finish: "
              <> itoa status.updated_replicas
              <> " out of "
              <> pointer
              <> " new replicas have been updated.",
        )
        else if ltb_ℤ status.updated_replicas status.replicas
        then (
          in_progress,
          "Waiting for rollout to finish: "
              <> itoa (minus_int32 status.replicas status.updated_replicas)
              <> " old replicas are pending termination.",
        )
        else if ltb_ℤ status.available_replicas status.updated_replicas
        then (
          in_progress,
          "Waiting for rollout to finish: "
              <> itoa status.available_replicas
              <> " of "
              <> itoa status.updated_replicas
              <> " updated replicas are available.",
        )
        else (success, "deployment " <> quoted d.meta.name <> " successfully rolled out."))
    else (in_progress, "Waiting for deployment spec update to be observed")

-- Every branch reads through `Spec.Replicas`: nil panics.
unfoldable pub deployment_status_and_view :
    String → (String → String) → Deployment → Outcome (DeployStatus × DeploymentStatusView)
unfolding rollout deployment_status_view_from
deployment_status_and_view pointer quoted d = elim d.spec.replicas [
  | none ↦ panic
  | some desired ↦
      let (status, reason) = rollout pointer quoted desired d in
      ok (status, deployment_status_view_from status reason desired d)
]

module _ (c : Cluster) where
  unfoldable pub deployment_status_view :
      String
      → (String → String)
      → String
      → String
      → c.State
      → Outcome (DeployStatus × DeploymentStatusView)
  unfolding deployment_status_and_view
  deployment_status_view pointer quoted namespace deploy_name s =
      let spec : Spec = record { application = deploy_name; namespace = namespace; team = "" } in
      elim (c.get deployments spec.namespace (resource_name spec) s) [
        | inl d ↦ deployment_status_and_view pointer quoted d
        | inr e ↦
            err (errorf ("did not find deployment: " <> deploy_name <> " namespace: " <> namespace))
      ]
