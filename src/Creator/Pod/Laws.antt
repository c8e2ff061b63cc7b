-- ===== src/Creator/Pod/Laws.antt =====
-- What the pod and the deployment of an application promise (api/resourcecreator.go).
use nais_api.App.{Spec, resource_name}
use nais_api.Creator.Meta.{create_object_meta, generate_object_meta, label, label-add_labels}
use nais_api.Creator.Network.{create_pod_selector}
use nais_api.Creator.Pod.{
  Platform, create_deployment_def, create_deployment_spec, create_pod_object_meta_with_annotations,
  create_pod_spec, create_strategy, deployment_def_of,
}
use nais_api.Fasit.{NaisResource}
use nais_api.Kubernetes.Objects.{Deployment, DeploymentSpec, PodSpec}
use nais_api.Manifest.{NaisManifest}
use nais_api.Prelude.{
  All, Bool, Bool-cases, List, Option, ap, inl, inr, none, refl, some, subst, ◌&&◌, ◌==◌, ◌∙◌, ◌≡◌,
}
use nais_api.Prelude.Dict.{lookup, or_empty}
use nais_api.Prelude.Int.{pos, ℤ}
use nais_api.Prelude.Outcome.{Outcome, and_then, err, ok, ok-inj, panic}
use nais_api.Request.{Deploy}

pod_labels :
    (spec : Spec) (manifest : NaisManifest) (istio : Bool)
    → (create_pod_object_meta_with_annotations spec manifest istio).labels
      ≡ (generate_object_meta spec).labels
unfolding create_pod_object_meta_with_annotations
pod_labels spec manifest istio = elim (Bool-cases (istio && manifest.istio.enabled)) [
  | inl a ↦ elim (Bool-cases (manifest.logformat == "")) [
    | inl b ↦ elim (Bool-cases (manifest.logtransform == "")) [
      | inl c ↦ rw (a, b, c) refl
      | inr c ↦ rw (a, b, c) refl
    ]
    | inr b ↦ elim (Bool-cases (manifest.logtransform == "")) [
      | inl c ↦ rw (a, b, c) refl
      | inr c ↦ rw (a, b, c) refl
    ]
  ]
  | inr a ↦ elim (Bool-cases (manifest.logformat == "")) [
    | inl b ↦ elim (Bool-cases (manifest.logtransform == "")) [
      | inl c ↦ rw (a, b, c) refl
      | inr c ↦ rw (a, b, c) refl
    ]
    | inr b ↦ elim (Bool-cases (manifest.logtransform == "")) [
      | inl c ↦ rw (a, b, c) refl
      | inr c ↦ rw (a, b, c) refl
    ]
  ]
]

-- The replicas that a deployment gets: those it has, and one for a new one.
abbrev pub kept_replicas : Option Deployment → Option ℤ
kept_replicas none = some (pos 1)
kept_replicas (some existing) = existing.spec.replicas

-- The labels of the pods contain those of the selector.
abbrev pub SelectsItsPods : DeploymentSpec → Type 0
SelectsItsPods d = All (λ (k, v). label k d.template.meta ≡ some v) d.selector

module _ (p : Platform) (spec : Spec) (resources : List NaisResource) (manifest : NaisManifest)
    (request : Deploy) (istio : Bool) where
  app_label :
      label "app" (create_pod_object_meta_with_annotations spec manifest istio)
      ≡ some spec.application
  app_label =
      ap (λ labels. lookup "app" (or_empty labels)) (pod_labels spec manifest istio)
      ∙ (unfold generate_object_meta in
          label-add_labels (create_object_meta (resource_name spec) spec.namespace) spec "app")

  abbrev deployment_spec_with : PodSpec → DeploymentSpec
  deployment_spec_with pod_spec = record {
    replicas = some (pos 1);
    selector = create_pod_selector spec;
    strategy = create_strategy manifest;
    progress_deadline_seconds = some (pos 300);
    revision_history_limit = some (pos 10);
    template = record {
      meta = create_pod_object_meta_with_annotations spec manifest istio;
      spec = pod_spec;
    };
  }

  abbrev KeepsPromises : Option Deployment → Deployment → Type 0
  KeepsPromises existing d = SelectsItsPods d.spec × (d.spec.replicas ≡ kept_replicas existing)

  deployment_def_of-promises :
      (existing : Option Deployment) (pod_spec : PodSpec)
      → KeepsPromises existing (deployment_def_of spec existing (deployment_spec_with pod_spec))
  unfolding deployment_def_of create_pod_selector
  deployment_def_of-promises none pod_spec = ((app_label, tt), refl)
  deployment_def_of-promises (some d) pod_spec = ((app_label, tt), refl)

  -- A deployment that is made selects its own pods, and it has the replicas of the existing
  -- deployment, or one if there is none.
  pub create_deployment_def-promises :
      (existing : Option Deployment) (d : Deployment)
      → create_deployment_def p spec resources manifest request existing istio ≡ ok d
      → SelectsItsPods d.spec × (d.spec.replicas ≡ kept_replicas existing)
  unfolding create_deployment_def create_deployment_spec
  create_deployment_def-promises existing d h =
      go (create_pod_spec p spec request manifest resources) h
    where
      go :
          (r : Outcome PodSpec)
          → and_then
              (and_then r (λ pod_spec. ok (deployment_spec_with pod_spec)))
              (λ deployment_spec. ok (deployment_def_of spec existing deployment_spec))
            ≡ ok d
          → KeepsPromises existing d
      go (ok pod_spec) e =
          subst (KeepsPromises existing) (ok-inj _ d e)
            (deployment_def_of-promises existing pod_spec)
      go (err e) e' = cc
      go panic e = cc
