-- ===== src/Examples/Handlers.antt =====
-- The synchronisation with Fasit and the handlers at work.
use nais_api.Alerts.{
  alerts_config_map_name, alerts_config_map_namespace, remove_rules_from_config_map,
}
use nais_api.Api.{completed, written}
use nais_api.Api.Answers.{Answers}
use nais_api.Api.Deployed.{IsDeployed}
use nais_api.Api.Deployment.{deploy}
use nais_api.Api.Handlers.{delete_application, deployment_status_handler, named, result_lines}
use nais_api.Api.Handlers.Laws.{delete_application-released, status_handler-eq_200}
use nais_api.Api.Laws.{IsAuthenticated, deploy-IsDeployed, deploy-skips_fasit}
use nais_api.Api.Laws.Announced.{Ends, IsTold, deploy-Ends}
use nais_api.Api.Standing.{IsAskable, Leaves, deploy-Leaves}
use nais_api.App.{resource_name}
use nais_api.Creator.Access.{create_or_update_resource, get_existing}
use nais_api.Creator.Accounts.{delete_service_account}
use nais_api.Deleter.{
  delete_autoscaler, delete_config_map_rules, delete_deployment, delete_ingress,
  delete_k8s_resources, delete_redis_deployment, delete_redis_service, delete_secret,
  delete_service, filter_not_found,
}
use nais_api.Deleter.Laws.Released.{deleted_keys}
use nais_api.Deleter.Laws.Steps.{ReleasedKey}
use nais_api.Examples.{app_manifest, app_request}
use nais_api.Examples.Clusters.{existing_objects}
use nais_api.Examples.Keys.{has, is_key, without}
use nais_api.Examples.Memory.{blank_deployment, memory, memory-Contract, memory-Presence}
use nais_api.Examples.Servers.{server, small_fasit}
use nais_api.Fasit.Sync.{create_or_update_fasit_resources}
use nais_api.Fasit.Sync.Laws.{Synced, create_or_update_fasit_resources-Synced}
use nais_api.Kubernetes.Cluster.{IsPresent}
use nais_api.Kubernetes.Objects.{Kind, config_maps}
use nais_api.Manifest.{ExposedResource, NaisManifest}
use nais_api.Prelude.{All, List, String, [], false, inl, refl, some, ◌↔◌, ◌∷◌, ◌≡◌, ◌⊎◌}
use nais_api.Prelude.Int.{pos}
use nais_api.Prelude.Outcome.{GoError, ok}
use nais_api.Request.{Deploy}
use nais_api.Status.Laws.{HasCondition, IsObserved, IsRolledOut}

abbrev exposed_as : String → ExposedResource
exposed_as alias = record {
  alias = alias;
  resource_type = "RestService";
  path = "/api";
  description = "";
  wsdl_group_id = "";
  wsdl_artifact_id = "";
  wsdl_version = "";
  security_token = "";
  all_zones = false;
}

abbrev exposing : NaisManifest
exposing = record app_manifest {
  fasit_resources = record { used = []; exposed = exposed_as "known" ∷ exposed_as "new" ∷ [] };
}

create_or_update_fasit_resources-Synced_example :
    (create_or_update_fasit_resources small_fasit
        (exposed_as "known" ∷ exposed_as "new" ∷ [])
        "app.nav.no"
        "t"
        "t1"
        app_request
        0
      ≡ (ok (pos 7 ∷ pos 9 ∷ []), 2))
    ↔ Synced small_fasit "app.nav.no" "t" "t1" app_request
        (exposed_as "known" ∷ exposed_as "new" ∷ [])
        0
        (pos 7 ∷ pos 9 ∷ [])
        2
create_or_update_fasit_resources-Synced_example =
    create_or_update_fasit_resources-Synced small_fasit "app.nav.no" "t" "t1" app_request
      (exposed_as "known" ∷ exposed_as "new" ∷ []) 0 (pos 7 ∷ pos 9 ∷ []) 2

deploy-IsDeployed_example :
    Answers
      (deploy memory server (inl app_request) ("user", "password") ([], (0, 0)))
      (λ code body t.
        IsAuthenticated memory server ("user", "password")
        × ((r : Deploy) × ((◌≡◌ {A = Deploy ⊎ GoError} (inl app_request) (inl r))
              × IsDeployed memory server (completed "dev" r) [] code body t)))
deploy-IsDeployed_example =
    deploy-IsDeployed memory server (inl app_request) ("user", "password") ([], (0, 0))

deploy-skips_fasit_example :
    (deploy memory server (inl app_request) ("user", "password") ([], (0, 0))).1.1.0 ≡ 0
deploy-skips_fasit_example =
    deploy-skips_fasit memory server app_request ("user", "password") ([], (0, 0)) refl

deploy-Leaves_example :
    Leaves memory memory-Presence server
      (IsAskable memory memory-Presence server (completed "dev" app_request))
      (deploy memory server (inl app_request) ("user", "password") ([], (0, 0)))
deploy-Leaves_example =
    deploy-Leaves memory memory-Presence server app_request ("user", "password") ([], (0, 0))

deploy-Ends_example :
    Ends memory server
      (IsTold memory server (completed "dev" app_request) 0)
      0
      (deploy memory server (inl app_request) ("user", "password") ([], (0, 0)))
deploy-Ends_example = deploy-Ends memory server app_request ("user", "password") ([], (0, 0))

abbrev deleted :
    (body : String) × (left : List (Kind × String × String)) × (delete_application memory "default"
        "app" existing_objects
      ≡ (ok (written (pos 200) body), left))
unfolding delete_application result_lines delete_k8s_resources delete_service delete_deployment
    delete_secret delete_redis_deployment delete_redis_service delete_autoscaler delete_ingress
    delete_config_map_rules delete_service_account get_existing create_or_update_resource
    remove_rules_from_config_map filter_not_found has without is_key resource_name
deleted = (_, _, refl)

delete_application-released_example :
    All (ReleasedKey memory memory-Contract deleted.1) (deleted_keys (named "default" "app"))
    × IsPresent memory config_maps alerts_config_map_namespace alerts_config_map_name
        existing_objects
delete_application-released_example =
    delete_application-released memory memory-Contract "default" "app" existing_objects (pos 200)
      deleted.0 deleted.1 deleted.2

status_handler-eq_200_example :
    ((body : String) × (deployment_status_handler memory
          (λ view. some "view")
          "0xc0"
          (λ s. s)
          "default"
          "app"
          existing_objects
        ≡ ok (written (pos 200) body)))
    ↔ (IsObserved (blank_deployment "default" "app")
        × (¬ HasCondition "Progressing" "ProgressDeadlineExceeded" [])
        × IsRolledOut (pos 3) (blank_deployment "default" "app"))
unfolding has is_key
status_handler-eq_200_example =
    status_handler-eq_200 memory (λ view. some "view") "0xc0" (λ s. s) "default" "app"
      existing_objects (blank_deployment "default" "app") (pos 3) refl refl
