-- ===== src/Creator/Apply.antt =====
-- Creating or updating all the objects of an application (api/resourcecreator.go).
pub mod Laws
pub mod Standing
pub mod Kept
use nais_api.Alerts.{
  PrometheusAlertGroups, add_rules_to_config_map, alerts_config_map_name,
  alerts_config_map_namespace,
}
use nais_api.App.{Spec, resource_name}
use nais_api.Creator.Access.{create_or_update_resource, get_existing}
use nais_api.Creator.Accounts.{
  create_or_update_role_binding, create_role_ref, create_service_account_if_not_exist,
}
use nais_api.Creator.Meta.{add_labels_to_object_meta, create_object_meta}
use nais_api.Creator.Network.{
  create_ingress_annotations, create_ingress_def, create_ingress_rules, create_service_def,
  fill_service_spec,
}
use nais_api.Creator.Pod.{Platform, create_deployment_def}
use nais_api.Creator.Storage.{create_or_update_autoscaler_def, create_secret_def}
use nais_api.Fasit.{NaisResource}
use nais_api.Kubernetes.Cluster.{Cluster}
use nais_api.Kubernetes.Objects.{
  Autoscaler, ConfigMap, Deployment, Ingress, RoleBinding, Secret, Service, ServiceAccount,
  autoscalers, config_maps, deployments, ingresses, secrets, services,
}
use nais_api.Manifest.{NaisManifest}
use nais_api.Prelude.{Bool, List, Option, String, [], if◌then◌else◌, none, some, ◌∷◌}
use nais_api.Prelude.Outcome.{M, Outcome, lift, pure, wrap, ◌>>=◌}
use nais_api.Redis.{
  create_or_update_redis_instance, create_or_update_redis_service, update_default_redis_values,
}
use nais_api.Request.{Deploy}

pub record DeploymentResult : Type 0 where
  pub autoscaler : Option Autoscaler
  pub ingress : Option Ingress
  pub deployment : Option Deployment
  pub secret : Option Secret
  pub service : Option Service
  pub redis : Option Deployment
  pub redis_service : Option Service
  pub alerts_config_map : Option ConfigMap
  pub service_account : Option ServiceAccount
  pub role_binding : Option RoleBinding

abbrev or_new : {A : Type 0} → A → Option A → A
or_new new none = new
or_new new (some existing) = existing

module _ (c : Cluster) where
  unfoldable pub create_or_update_service : Spec → M c.State Service
  unfolding create_service_def fill_service_spec get_existing create_or_update_resource
  create_or_update_service spec = do
    existing ←
        wrap "unable to get existing service: "
          (get_existing c services (resource_name spec) spec.namespace)
    let def = or_new (create_service_def spec) existing
    create_or_update_resource c services
        (record def {
          meta = add_labels_to_object_meta def.meta spec;
          spec = fill_service_spec spec def.spec;
        })
        spec.namespace

  unfoldable pub create_or_update_deployment :
      Platform → Spec → Deploy → NaisManifest → List NaisResource → Bool → M c.State Deployment
  unfolding create_deployment_def get_existing create_or_update_resource
  create_or_update_deployment p spec request manifest resources istio_enabled = do
    existing ←
        wrap "unable to get existing deployment: "
          (get_existing c deployments (resource_name spec) spec.namespace)
    def ←
        wrap "unable to create deployment: "
          (lift (create_deployment_def p spec resources manifest request existing istio_enabled))
    create_or_update_resource c deployments def spec.namespace

  abbrev write_secret : Spec → Option Secret → M c.State (Option Secret)
  write_secret spec none = pure none
  write_secret spec (some def) = do
    written ← create_or_update_resource c secrets def spec.namespace
    pure (some written)

  -- nil, nil where there is nothing to keep secret
  unfoldable pub create_or_update_secret : Spec → List NaisResource → M c.State (Option Secret)
  unfolding create_secret_def get_existing create_or_update_resource
  create_or_update_secret spec resources = do
    existing ←
        wrap "unable to get existing secret: "
          (get_existing c secrets (resource_name spec) spec.namespace)
    write_secret spec (create_secret_def spec resources existing)

  unfoldable pub create_or_update_autoscaler : Spec → NaisManifest → M c.State Autoscaler
  unfolding create_or_update_autoscaler_def get_existing create_or_update_resource
  create_or_update_autoscaler spec manifest = do
    existing ←
        wrap "unable to get existing autoscaler: "
          (get_existing c autoscalers (resource_name spec) spec.namespace)
    create_or_update_resource c autoscalers
        (create_or_update_autoscaler_def spec manifest.replicas.min manifest.replicas.max
          manifest.replicas.cpu_threshold_percentage existing)
        spec.namespace

  unfoldable pub create_or_update_ingress :
      Spec → NaisManifest → Deploy → String → List NaisResource → M c.State Ingress
  unfolding create_ingress_def create_ingress_annotations create_ingress_rules get_existing
      create_or_update_resource
  create_or_update_ingress spec manifest request cluster_subdomain resources = do
    existing ←
        wrap "unable to get existing ingress id: "
          (get_existing c ingresses (resource_name spec) spec.namespace)
    let def = or_new (create_ingress_def spec) existing
    create_or_update_resource c ingresses
        (record def {
          meta = record def.meta { annotations = some (create_ingress_annotations manifest) };
          rules = create_ingress_rules spec request cluster_subdomain resources;
        })
        spec.namespace

  -- `marshal` is yaml.Marshal on the alert groups.
  unfoldable pub create_or_update_alert_rules :
      (PrometheusAlertGroups → Outcome String) → Spec → NaisManifest → M c.State (Option ConfigMap)
  unfolding add_rules_to_config_map create_object_meta get_existing create_or_update_resource
  create_or_update_alert_rules marshal spec manifest = elim manifest.alerts [
    | [] ↦ pure none
    | rule ∷ rules ↦ do
      existing ←
          wrap "unable to get existing configmap: "
            (get_existing c config_maps alerts_config_map_name alerts_config_map_namespace)
      let def : ConfigMap =
          or_new
            (record {
              meta = create_object_meta alerts_config_map_name alerts_config_map_namespace;
              content = none;
            })
            existing
      updated ←
          wrap "failed to add alert rules to configmap: "
            (lift (add_rules_to_config_map marshal spec def manifest))
      written ← create_or_update_resource c config_maps updated alerts_config_map_namespace
      pure (some written)
  ]

  -- The Redis instance and its service, if the manifest asks for them.
  unfoldable pub create_or_update_redis :
      Platform → Spec → NaisManifest → M c.State (Option Deployment × Option Service)
  unfolding update_default_redis_values create_or_update_redis_instance
      create_or_update_redis_service
  create_or_update_redis p spec manifest =
      if manifest.redis.enabled
      then (do
        redis ← wrap "failed while creating or updating Redis instance: " (
            create_or_update_redis_instance c p.quantity_error spec
              (update_default_redis_values manifest.redis))
        redis_service ←
            wrap "failed while creating or updating Redis service: "
              (create_or_update_redis_service c spec)
        pure (some redis, some redis_service))
      else pure (none, none)

  unfoldable pub create_or_update_ingress_if_enabled :
      Spec → NaisManifest → Deploy → String → List NaisResource → M c.State (Option Ingress)
  unfolding create_or_update_ingress
  create_or_update_ingress_if_enabled spec manifest request cluster_subdomain resources =
      if manifest.ingress.disabled then pure none else (do
        written ←
            wrap "failed while creating ingress: "
              (create_or_update_ingress spec manifest request cluster_subdomain resources)
        pure (some written))

  -- The result that comes with an error is dropped, as the caller does.
  unfoldable pub create_or_update_k8s_resources :
      Platform
      → (PrometheusAlertGroups → Outcome String)
      → Spec
      → Deploy
      → NaisManifest
      → List NaisResource
      → String
      → Bool
      → M c.State DeploymentResult
  create_or_update_k8s_resources p marshal spec request manifest resources subdomain istio = do
    account ←
        wrap "failed while creating service account: " (create_service_account_if_not_exist c spec)
    binding ← wrap "failed while creating role binding: " (
        create_or_update_role_binding c spec
          (create_role_ref "ClusterRole" "serviceaccount-in-app-namespace"))
    service ← wrap "failed while creating service: " (create_or_update_service spec)
    (redis, redis_service) ← create_or_update_redis p spec manifest
    deployment ←
        wrap "failed while creating or updating deployment: "
          (create_or_update_deployment p spec request manifest resources istio)
    secret ←
        wrap "failed while creating or updating secret: " (create_or_update_secret spec resources)
    autoscaler ←
        wrap "failed while creating or updating autoscaler: "
          (create_or_update_autoscaler spec manifest)
    alerts ←
        wrap "failed while creating or updating alerts configmap (app-rules) "
          (create_or_update_alert_rules marshal spec manifest)
    ingress ← create_or_update_ingress_if_enabled spec manifest request subdomain resources
    pure (record {
      autoscaler = some autoscaler;
      ingress = ingress;
      deployment = some deployment;
      secret = secret;
      service = some service;
      redis = redis;
      redis_service = redis_service;
      alerts_config_map = alerts;
      service_account = some account;
      role_binding = some binding;
    })
