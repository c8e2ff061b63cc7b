-- ===== src/Creator/Pod.antt =====
-- The pod and the deployment of an application (api/resourcecreator.go).
pub mod Laws
pub mod Calm
pub mod Volumes
pub mod Mounts
pub mod Certificates
use nais_api.App.{Spec}
use nais_api.Creator.Containers.{
  create_certificate_volume, create_certificate_volume_mount, create_leader_election_container,
  create_resource_limits, has_certificate, main_pod,
}
use nais_api.Creator.Environment.{ProxySettings, create_env_var, create_environment_variables}
use nais_api.Creator.Meta.{add_labels_to_object_meta, generate_object_meta}
use nais_api.Creator.Network.{create_pod_selector}
use nais_api.Fasit.{NaisResource}
use nais_api.Kubernetes.Objects.{
  Container, Deployment, DeploymentSpec, DeploymentStatus, DeploymentStrategy, ObjectMeta, PodSpec,
  int_val,
}
use nais_api.Manifest.{NaisManifest}
use nais_api.Manifest.Defaults.{default_port_name, strategy_recreate, strategy_rolling_update}
use nais_api.Prelude.{
  Bool, List, Option, String, [], if◌then◌else◌, none, some, ◌&&◌, ◌++◌, ◌==◌, ◌||◌, ◌∷◌,
}
use nais_api.Prelude.Dict.{insert, or_empty}
use nais_api.Prelude.Int.{pos}
use nais_api.Prelude.Outcome.{Outcome, and_then, ok}
use nais_api.Prelude.Text.{format_bool}
use nais_api.Request.{Deploy}
use nais_api.Vault.{VaultSettings, add_vault_containers, new_initializer, vault_enabled}

-- What the process has from outside: the proxy settings, Vault's settings, and the error of
-- ParseQuantity, on which MustParse panics.
pub record Platform : Type 0 where
  pub proxy : ProxySettings
  pub vault : VaultSettings
  pub quantity_error : String → Option String

-- `mainContainer := &podSpec.Containers[0]`
abbrev pub on_main : (Container → Container) → List Container → List Container
on_main f [] = []
on_main f (c ∷ cs) = f c ∷ cs

abbrev pub set_elector_path : Container → Container
set_elector_path c = record c { env = c.env ++ create_env_var "ELECTOR_PATH" "localhost:4040" ∷ [] }

abbrev pub with_elector : PodSpec → Container → PodSpec
with_elector pod elector = record pod {
  containers = on_main set_elector_path (pod.containers ++ elector ∷ []);
}

unfoldable pub with_leader_election :
    (String → Option String) → Spec → NaisManifest → PodSpec → Outcome PodSpec
unfolding create_leader_election_container
with_leader_election quantity_error spec manifest pod =
    if manifest.leader_election
    then and_then (create_leader_election_container quantity_error spec)
        (λ elector. ok (with_elector pod elector))
    else ok pod

unfoldable pub with_certificates : Spec → List NaisResource → PodSpec → PodSpec
unfolding has_certificate create_certificate_volume create_certificate_volume_mount
with_certificates spec resources pod =
    if has_certificate resources
    then record pod {
      volumes = pod.volumes ++ create_certificate_volume spec resources ∷ [];
      containers =
          on_main
            (λ c. record c {
              volume_mounts =
                  c.volume_mounts ++ create_certificate_volume_mount spec resources ∷ [];
            })
            pod.containers;
    }
    else pod

unfoldable pub with_vault : VaultSettings → Spec → NaisManifest → PodSpec → Outcome PodSpec
unfolding new_initializer add_vault_containers
with_vault v spec manifest pod =
    if vault_enabled v && (manifest.secrets || manifest.vault.enabled)
    then and_then (new_initializer v spec manifest.vault.sidecar)
        (λ initializer. ok (add_vault_containers initializer pod))
    else ok pod

unfoldable pub create_pod_spec :
    Platform → Spec → Deploy → NaisManifest → List NaisResource → Outcome PodSpec
unfolding create_environment_variables create_resource_limits main_pod with_leader_election
    with_certificates with_vault
create_pod_spec p spec request manifest resources =
    and_then (create_environment_variables p.proxy spec request manifest resources) λ env_vars.
      and_then
        (create_resource_limits p.quantity_error manifest.resources.requests.cpu
          manifest.resources.requests.memory manifest.resources.limits.cpu
          manifest.resources.limits.memory)
        λ amounts.
          and_then
            (with_leader_election p.quantity_error spec manifest
              (main_pod spec request manifest env_vars amounts))
            λ pod. with_vault p.vault spec manifest (with_certificates spec resources pod)

unfoldable pub create_strategy : NaisManifest → DeploymentStrategy
create_strategy manifest =
    if manifest.deployment_strategy == strategy_recreate
    then record { type = "Recreate"; max_unavailable = none; max_surge = none }
    else if manifest.deployment_strategy == strategy_rolling_update
    then record {
      type = "RollingUpdate";
      max_unavailable = some (int_val (pos 0));
      max_surge = some (int_val (pos 1));
    }
    else record { type = ""; max_unavailable = none; max_surge = none }

abbrev annotate : String → String → ObjectMeta → ObjectMeta
annotate key value meta = record meta {
  annotations = some (insert key value (or_empty meta.annotations));
}

unfoldable pub create_pod_object_meta_with_annotations : Spec → NaisManifest → Bool → ObjectMeta
unfolding generate_object_meta format_bool
create_pod_object_meta_with_annotations spec manifest istio_enabled =
    let meta : ObjectMeta = record (generate_object_meta spec) {
      annotations = some (
          ("prometheus.io/scrape", format_bool manifest.prometheus.enabled)
          ∷ ("prometheus.io/port", default_port_name)
          ∷ ("prometheus.io/path", manifest.prometheus.path)
          ∷ []);
    } in
    let sidecar =
      if istio_enabled && manifest.istio.enabled
      then annotate "sidecar.istio.io/inject" "true" meta
      else meta in
    let format =
      if manifest.logformat == ""
      then sidecar
      else annotate "nais.io/logformat" manifest.logformat sidecar in
    if manifest.logtransform == ""
    then format
    else annotate "nais.io/logtransform" manifest.logtransform format

unfoldable pub create_deployment_spec :
    Platform → Spec → Deploy → NaisManifest → List NaisResource → Bool → Outcome DeploymentSpec
unfolding create_pod_spec create_strategy create_pod_object_meta_with_annotations
    create_pod_selector
create_deployment_spec p spec request manifest resources istio_enabled =
    and_then (create_pod_spec p spec request manifest resources) λ pod_spec. ok (record {
      replicas = some (pos 1);
      selector = create_pod_selector spec;
      strategy = create_strategy manifest;
      progress_deadline_seconds = some (pos 300);
      revision_history_limit = some (pos 10);
      template = record {
        meta = create_pod_object_meta_with_annotations spec manifest istio_enabled;
        spec = pod_spec;
      };
    })

abbrev pub no_status : DeploymentStatus
no_status = record {
  observed_generation = pos 0;
  replicas = pos 0;
  updated_replicas = pos 0;
  available_replicas = pos 0;
  conditions = [];
}

-- An existing deployment keeps its replicas.
unfoldable pub deployment_def_of : Spec → Option Deployment → DeploymentSpec → Deployment
unfolding generate_object_meta
deployment_def_of spec (some existing) deployment_spec = record existing {
  meta = add_labels_to_object_meta existing.meta spec;
  spec = record deployment_spec { replicas = existing.spec.replicas };
}
deployment_def_of spec none deployment_spec = record {
  type_meta = record { kind = "Deployment"; api_version = "apps/v1beta1" };
  meta = generate_object_meta spec;
  spec = deployment_spec;
  status = no_status;
}

unfoldable pub create_deployment_def :
    Platform
    → Spec
    → List NaisResource
    → NaisManifest
    → Deploy
    → Option Deployment
    → Bool
    → Outcome Deployment
unfolding create_deployment_spec deployment_def_of
create_deployment_def p spec resources manifest request existing istio_enabled =
    and_then (create_deployment_spec p spec request manifest resources istio_enabled)
      (λ deployment_spec. ok (deployment_def_of spec existing deployment_spec))
