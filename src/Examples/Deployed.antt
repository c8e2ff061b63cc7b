-- ===== src/Examples/Deployed.antt =====
-- A deployment, run whole: the example application on an empty cluster.
use nais_api.Api.{written}
use nais_api.Api.Deployment.{deploy}
use nais_api.App.{resource_name}
use nais_api.Creator.Accounts.{create_or_update_role_binding, create_service_account_if_not_exist}
use nais_api.Creator.Apply.{
  create_or_update_alert_rules, create_or_update_autoscaler, create_or_update_deployment,
  create_or_update_ingress_if_enabled, create_or_update_redis, create_or_update_secret,
  create_or_update_service,
}
use nais_api.Examples.{app_request}
use nais_api.Examples.Keys.{has}
use nais_api.Examples.Memory.{memory}
use nais_api.Examples.Servers.{server}
use nais_api.Manifest.Download.{add_default_manifest_values, download_manifest, fetch_manifest}
use nais_api.Manifest.Validation.{
  validate_alert_rules, validate_cpu_threshold, validate_deployment_strategy, validate_image,
  validate_limits_cpu_quantity, validate_limits_memory_quantity, validate_manifest,
  validate_min_is_smaller_than_max, validate_redis_limits_cpu_quantity,
  validate_redis_limits_memory_quantity, validate_redis_request_cpu_quantity,
  validate_redis_request_memory_quantity, validate_replicas_max, validate_replicas_min,
  validate_request_cpu_quantity, validate_request_memory_quantity, validate_resources,
}
use nais_api.Prelude.{[], inl, refl, ◌≡◌}
use nais_api.Prelude.Dict.{lookup}
use nais_api.Prelude.Int.{pos}
use nais_api.Prelude.Outcome.{ok}
use nais_api.Prelude.Text.{last_position}

deploy_answers :
    (deploy memory server (inl app_request) ("user", "password") ([], (0, 0))).0
    ≡ ok (
        written
          (pos 200)
          "result: \n- created deployment\n- created service\n- created ingress\n- created autoscaler\n- updated alerts configmap (app-rules)\n- created redis\n- created redis service\n- created serviceaccount\n- created rolebinding\n")
unfolding deploy resource_name create_service_account_if_not_exist create_or_update_role_binding
    create_or_update_service create_or_update_deployment create_or_update_secret
    create_or_update_autoscaler create_or_update_alert_rules create_or_update_redis
    create_or_update_ingress_if_enabled has fetch_manifest download_manifest
    add_default_manifest_values validate_resources validate_image validate_cpu_threshold
    validate_min_is_smaller_than_max validate_replicas_min validate_replicas_max
    validate_deployment_strategy validate_alert_rules validate_request_memory_quantity
    validate_limits_memory_quantity validate_request_cpu_quantity validate_limits_cpu_quantity
    validate_redis_request_memory_quantity validate_redis_limits_memory_quantity
    validate_redis_request_cpu_quantity validate_redis_limits_cpu_quantity validate_manifest lookup
    last_position
deploy_answers = refl
