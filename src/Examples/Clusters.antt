-- ===== src/Examples/Clusters.antt =====
-- What is made, removed and watched in a cluster, at work.
use nais_api.Alerts.{add_rules_to_config_map, remove_rules_from_config_map}
use nais_api.Alerts.Laws.{entry, entry-rules, rules_key}
use nais_api.App.{resource_name}
use nais_api.Creator.Access.{create_or_update_resource, get_existing}
use nais_api.Creator.Accounts.{delete_service_account}
use nais_api.Creator.Apply.{create_or_update_k8s_resources}
use nais_api.Creator.Apply.Laws.{IsAsRequested, create_or_update_k8s_resources-IsAsRequested}
use nais_api.Creator.Containers.{
  create_life_cycle, create_resource_limits, has_certificate, main_pod, must_parse,
}
use nais_api.Creator.Environment.{
  add_resources, base_variables, create_default_environment_variables, create_environment_variables,
}
use nais_api.Creator.Pod.{
  create_deployment_def, create_deployment_spec, create_pod_spec, with_certificates,
  with_leader_election, with_vault,
}
use nais_api.Creator.Pod.Calm.{amounts_of}
use nais_api.Creator.Pod.Laws.{SelectsItsPods, create_deployment_def-promises}
use nais_api.Deleter.{
  delete_autoscaler, delete_config_map_rules, delete_deployment, delete_ingress,
  delete_k8s_resources, delete_redis_deployment, delete_redis_service, delete_secret,
  delete_service, filter_not_found,
}
use nais_api.Deleter.Laws.Bindings.{role_binding-delete_k8s_resources}
use nais_api.Deleter.Laws.Released.{delete_k8s_resources-released, deleted_keys}
use nais_api.Deleter.Laws.Steps.{ReleasedKey}
use nais_api.Examples.{
  app_manifest, app_request, app_resources, app_spec, test_platform, test_quantity_error,
}
use nais_api.Examples.Keys.{has, is_key, without}
use nais_api.Examples.Memory.{blank_deployment, memory, memory-Contract, meta_named}
use nais_api.Kubernetes.Objects.{
  ConfigMap, Container, Deployment, Kind, autoscalers, config_maps, deployments, ingresses,
  role_bindings, secrets, service_accounts, services,
}
use nais_api.Manifest.{empty_manifest}
use nais_api.Prelude.{
  All, List, String, [], false, if◌then◌else◌, map, none, refl, some, true, ◌==◌, ◌∷◌, ◌≡◌,
}
use nais_api.Prelude.Int.{pos}
use nais_api.Prelude.Keeps.{Post}
use nais_api.Prelude.Outcome.{and_then, ok}
use nais_api.Redis.{
  create_redis_deployment_def, create_redis_deployment_spec, create_redis_pod_spec, redis_spec_of,
  update_default_redis_values,
}
use nais_api.Redis.Laws.{DefaultsAreQuantities, create_redis_pod_spec-eq_ok}

-- The cluster after a creation, and the deletion of it all.
abbrev pub existing_objects : List (Kind × String × String)
existing_objects =
    (services, "default", "app")
    ∷ (deployments, "default", "app")
    ∷ (secrets, "default", "app")
    ∷ (config_maps, "nais", "app-rules")
    ∷ (ingresses, "default", "app")
    ∷ (autoscalers, "default", "app")
    ∷ (service_accounts, "default", "app")
    ∷ (role_bindings, "default", "app")
    ∷ []

abbrev deletion :
    (results : List String) × (left : List (Kind × String × String)) × (delete_k8s_resources memory
        app_spec existing_objects
      ≡ (ok (results, none), left))
unfolding delete_k8s_resources delete_service delete_deployment delete_secret
    delete_redis_deployment delete_redis_service delete_autoscaler delete_ingress
    delete_config_map_rules delete_service_account get_existing create_or_update_resource
    remove_rules_from_config_map filter_not_found has without is_key resource_name
deletion = (_, _, refl)

delete_k8s_resources-released_example :
    All (ReleasedKey memory memory-Contract deletion.1) (deleted_keys app_spec)
delete_k8s_resources-released_example =
    delete_k8s_resources-released memory memory-Contract app_spec existing_objects deletion.0
      deletion.1 deletion.2

role_binding-delete_k8s_resources_example :
    memory.get role_bindings "default"
      (resource_name app_spec)
      (delete_k8s_resources memory app_spec existing_objects).1
    ≡ memory.get role_bindings "default" (resource_name app_spec) existing_objects
role_binding-delete_k8s_resources_example =
    role_binding-delete_k8s_resources memory memory-Contract app_spec existing_objects

create_or_update_k8s_resources-IsAsRequested_example :
    Post
      (create_or_update_k8s_resources memory test_platform
        (λ groups. ok "groups")
        app_spec
        app_request
        (record app_manifest { redis = empty_manifest.redis })
        app_resources
        "nais.example.no"
        true
        [])
      (λ d _. IsAsRequested (record app_manifest { redis = empty_manifest.redis }) d)
create_or_update_k8s_resources-IsAsRequested_example =
    create_or_update_k8s_resources-IsAsRequested memory test_platform (λ groups. ok "groups")
      app_spec app_request (record app_manifest { redis = empty_manifest.redis }) app_resources
      "nais.example.no" true []

abbrev rules : ConfigMap
rules = record {
  meta = meta_named "nais" "app-rules";
  content = some (("team-app-default.yml", "old") ∷ ("other.yml", "other") ∷ []);
}

entry-rules_example :
    (updated : ConfigMap) × (add_rules_to_config_map
        (λ groups. ok "groups")
        app_spec
        rules
        app_manifest
      ≡ ok updated)
    × (updated.meta ≡ rules.meta)
    × ((key : String)
        → (entry key updated
            ≡ (if rules_key app_spec == key then some "groups" else entry key rules))
          × (entry key (remove_rules_from_config_map updated app_spec)
              ≡ (if rules_key app_spec == key then none else entry key rules))
          × (entry key (remove_rules_from_config_map rules app_spec)
              ≡ (if rules_key app_spec == key then none else entry key rules)))
entry-rules_example = entry-rules (λ groups. ok "groups") app_spec rules app_manifest "groups" refl

-- The deployment that replaces one of three replicas.
abbrev replaced :
    (d : Deployment) × (create_deployment_def test_platform app_spec [] app_manifest app_request
        (some (blank_deployment "default" "app"))
        false
      ≡ ok d)
unfolding create_deployment_def create_deployment_spec create_pod_spec create_environment_variables
    base_variables create_default_environment_variables add_resources create_resource_limits
    must_parse main_pod create_life_cycle with_leader_election with_certificates has_certificate
    with_vault
replaced = (_, refl)

create_deployment_def-promises_example :
    SelectsItsPods replaced.0.spec × (replaced.0.spec.replicas ≡ some (pos 3))
create_deployment_def-promises_example =
    create_deployment_def-promises test_platform app_spec [] app_manifest app_request false
      (some (blank_deployment "default" "app")) replaced.0 replaced.1

good_defaults : DefaultsAreQuantities test_quantity_error
good_defaults = record { cpu = refl; memory = refl; exporter_memory = refl }

create_redis_pod_spec-eq_ok_example :
    and_then
      (create_redis_pod_spec test_quantity_error (update_default_redis_values empty_manifest.redis))
      (λ pod. ok (map (λ (c : Container). c.resources) pod.containers))
    ≡ ok (amounts_of "100m" "128Mi" "100m" "128Mi" ∷ amounts_of "100m" "100Mi" "100m" "100Mi" ∷ [])
create_redis_pod_spec-eq_ok_example =
    create_redis_pod_spec-eq_ok test_quantity_error empty_manifest.redis good_defaults
      ((λ _. refl), (λ _. refl)) ((λ _. refl), (λ _. refl))

abbrev redis_deployment :
    (d : Deployment) × (create_redis_deployment_def test_quantity_error
        (redis_spec_of app_spec)
        (update_default_redis_values empty_manifest.redis)
        none
      ≡ ok d)
unfolding create_redis_deployment_def create_redis_deployment_spec create_redis_pod_spec
    create_resource_limits must_parse update_default_redis_values
redis_deployment = (_, refl)
