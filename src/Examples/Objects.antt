-- ===== src/Examples/Objects.antt =====
-- The objects of an application at work.
use nais_api.Creator.Containers.{
  certificate_items, create_life_cycle, create_resource_limits, has_certificate, main_pod,
  must_parse,
}
use nais_api.Creator.Environment.{
  add_resources, base_variables, create_default_environment_variables, create_environment_variables,
}
use nais_api.Creator.Environment.Laws.{create_environment_variables-eq_ok, resources_environment}
use nais_api.Creator.Environment.Unique.{IsUnique}
use nais_api.Creator.Network.{create_ingress_rules, empty_service_spec}
use nais_api.Creator.Network.Laws.{LeadsTo, create_ingress_rules-LeadsTo, filled}
use nais_api.Creator.Pod.{create_pod_spec, with_certificates, with_leader_election, with_vault}
use nais_api.Creator.Pod.Calm.{create_pod_spec-ne_panic}
use nais_api.Creator.Pod.Mounts.{create_pod_spec-IsMounted}
use nais_api.Creator.Pod.Volumes.{IsMounted}
use nais_api.Creator.Storage.{create_secret_data}
use nais_api.Creator.Storage.Laws.{
  IsResolved, IsStored, certificate_items-IsStored, environment-IsResolved,
}
use nais_api.Examples.{
  app_certificate, app_manifest, app_request, app_resources, app_spec, test_platform,
  test_quantity_error,
}
use nais_api.Fasit.{to_environment_variable, to_resource_variable}
use nais_api.Fasit.Naming.{unfit_lower, unfit_upper, variable_names-fit}
use nais_api.Kubernetes.Objects.{EnvVar, KeyToPath, PodSpec}
use nais_api.Manifest.{empty_manifest}
use nais_api.Manifest.Validation.{
  check_alert_rule, check_alert_rules, check_exposed, check_quantity, check_used, is_empty_list,
  validate_alert_rules, validate_cpu_threshold, validate_deployment_strategy, validate_image,
  validate_limits_cpu_quantity, validate_limits_memory_quantity, validate_manifest,
  validate_min_is_smaller_than_max, validate_redis_limits_cpu_quantity,
  validate_redis_limits_memory_quantity, validate_redis_request_cpu_quantity,
  validate_redis_request_memory_quantity, validate_replicas_max, validate_replicas_min,
  validate_request_cpu_quantity, validate_request_memory_quantity, validate_resources,
}
use nais_api.Manifest.Validation.Laws.{validate_manifest-eq_nil}
use nais_api.Manifest.Validation.Valid.{IsValid}
use nais_api.Prelude.{All, List, [], false, refl, ◌++◌, ◌↔◌, ◌≡◌, ◌≢◌}
use nais_api.Prelude.Dict.{lookup}
use nais_api.Prelude.Outcome.{ok, panic}
use nais_api.Prelude.Text.{any_char, last_index_from, last_position}

abbrev app_variables : List EnvVar
app_variables =
    base_variables app_spec app_request app_manifest ++ resources_environment app_spec app_resources

create_environment_variables-eq_ok_example :
    (create_environment_variables test_platform.proxy app_spec app_request app_manifest
        app_resources
      ≡ ok app_variables)
    ↔ ((app_variables
          ≡ base_variables app_spec app_request app_manifest
            ++ resources_environment app_spec app_resources)
        × IsUnique app_variables)
create_environment_variables-eq_ok_example =
    create_environment_variables-eq_ok test_platform.proxy app_spec app_request app_manifest
      app_resources app_variables refl

environment-IsResolved_example :
    All
      (IsResolved (create_secret_data app_resources))
      (resources_environment app_spec app_resources)
environment-IsResolved_example = environment-IsResolved app_spec app_resources

certificate_items-IsStored_example :
    All
      (λ (i : KeyToPath). IsStored i.key (create_secret_data app_resources))
      (certificate_items app_resources)
certificate_items-IsStored_example = certificate_items-IsStored app_resources

variable_names-fit_example :
    (any_char unfit_lower (to_resource_variable app_certificate "store.alias") ≡ false)
    × (any_char unfit_upper (to_environment_variable app_certificate "store.alias") ≡ false)
variable_names-fit_example = variable_names-fit app_certificate "store.alias"

create_ingress_rules-LeadsTo_example :
    All
      (LeadsTo (filled app_spec empty_service_spec))
      (create_ingress_rules app_spec app_request "nais.example.no" app_resources)
create_ingress_rules-LeadsTo_example =
    create_ingress_rules-LeadsTo app_spec empty_service_spec app_request "nais.example.no"
      app_resources

manifest-IsValid :
    IsValid test_quantity_error (record app_manifest { redis = empty_manifest.redis })
unfolding validate_manifest validate_image validate_replicas_max validate_replicas_min
    validate_min_is_smaller_than_max validate_cpu_threshold validate_request_memory_quantity
    validate_limits_memory_quantity validate_request_cpu_quantity validate_limits_cpu_quantity
    validate_resources validate_alert_rules validate_deployment_strategy
    validate_redis_request_memory_quantity validate_redis_limits_memory_quantity
    validate_redis_request_cpu_quantity validate_redis_limits_cpu_quantity check_quantity
    check_exposed check_used check_alert_rules check_alert_rule is_empty_list lookup last_position
    last_index_from
manifest-IsValid =
    (validate_manifest-eq_nil test_quantity_error
        (record app_manifest { redis = empty_manifest.redis })).0
      refl

create_pod_spec-ne_panic_example :
    create_pod_spec test_platform app_spec app_request
      (record app_manifest { redis = empty_manifest.redis })
      app_resources
    ≢ panic
create_pod_spec-ne_panic_example =
    create_pod_spec-ne_panic test_platform app_spec app_request
      (record app_manifest { redis = empty_manifest.redis }) app_resources (λ url h. cc) refl
      manifest-IsValid

abbrev pod :
    (d : PodSpec) × (create_pod_spec test_platform app_spec app_request app_manifest [] ≡ ok d)
unfolding create_pod_spec create_environment_variables base_variables
    create_default_environment_variables add_resources create_resource_limits must_parse main_pod
    create_life_cycle with_leader_election with_certificates has_certificate with_vault
pod = (_, refl)

create_pod_spec-IsMounted_example : IsMounted pod.0
create_pod_spec-IsMounted_example =
    create_pod_spec-IsMounted test_platform app_spec app_request app_manifest [] pod.0 pod.1
