-- ===== src/Deleter.antt =====
-- api/resourcedeleter.go: deleting the objects of an application.
pub mod Laws
use nais_api.Alerts.{
  alerts_config_map_name, alerts_config_map_namespace, remove_rules_from_config_map,
}
use nais_api.App.{Spec, resource_name}
use nais_api.Creator.Access.{create_or_update_resource, get_existing}
use nais_api.Creator.Accounts.{delete_service_account}
use nais_api.Kubernetes.Cluster.{Cluster}
use nais_api.Kubernetes.Objects.{
  ConfigMap, Kind, ObjectOf, autoscalers, config_maps, deployments, ingresses, secrets, services,
}
use nais_api.Prelude.{List, Option, String, [], if◌then◌else◌, none, some, ◌++◌, ◌<>◌, ◌∷◌}
use nais_api.Prelude.Outcome.{GoError, M, Outcome, err, errorf, ok, panic, pure, ◌>>=◌}

-- A result to show, and the error beside it.
abbrev pub Deleted : Type 0
Deleted = String × Option GoError

unfoldable pub filter_not_found : String → GoError → Deleted
filter_not_found message e =
    if e.not_found then (message <> "N/A", none) else (message <> "FAIL", some e)

abbrev pub deletion_of : String → String → Option GoError → Deleted
deletion_of fine message none = (fine, none)
deletion_of fine message (some e) = filter_not_found message e

-- What `deleteK8sResouces` returns: the results so far and the error that stopped it.
abbrev pub Deletions : Type 0
Deletions = List String × Option GoError

abbrev pub account_deleted : List String → Option GoError → Deletions
account_deleted results none = (results ++ "service account: OK" ∷ [], none)
account_deleted results (some e) = (results, some e)

module _ (c : Cluster) where
  abbrev pub delete_named : Kind → String → String → String → String → M c.State Deleted
  delete_named k namespace name fine message s =
      let (e, t) = c.delete k namespace name s in (ok (deletion_of fine message e), t)

  unfoldable pub delete_service : Spec → M c.State Deleted
  unfolding filter_not_found
  delete_service spec =
      delete_named services spec.namespace (resource_name spec) "service: OK" "service: "

  unfoldable pub delete_deployment : Spec → M c.State Deleted
  unfolding filter_not_found
  delete_deployment spec =
      delete_named deployments spec.namespace (resource_name spec) "deployment: OK" "deployment: "

  unfoldable pub delete_secret : Spec → M c.State Deleted
  unfolding filter_not_found
  delete_secret spec =
      delete_named secrets spec.namespace (resource_name spec) "secret: OK" "secret: "

  -- The same kind of object, through the older group of the API.
  unfoldable pub delete_redis_deployment : Spec → M c.State Deleted
  unfolding filter_not_found
  delete_redis_deployment spec =
      delete_named deployments spec.namespace (resource_name spec <> "-redis") "deployment: OK"
        "deployment: "

  unfoldable pub delete_redis_service : Spec → M c.State Deleted
  unfolding filter_not_found
  delete_redis_service spec =
      delete_named services spec.namespace (resource_name spec <> "-redis") "service: OK"
        "service: "

  -- Delete what `get_existing` found; its error, or that of the deletion, is filtered.
  abbrev pub delete_found :
      (k : Kind)
      → Spec
      → String
      → String
      → Outcome (Option (ObjectOf k)) × c.State
      → Outcome Deleted × c.State
  delete_found k spec fine message (ok none, s) = (ok (fine, none), s)
  delete_found k spec fine message (ok (some existing), s) =
      delete_named k spec.namespace (resource_name spec) fine message s
  delete_found k spec fine message (err e, s) = (ok (filter_not_found message e), s)
  delete_found k spec fine message (panic, s) = (panic, s)

  unfoldable pub delete_autoscaler : Spec → M c.State Deleted
  unfolding get_existing filter_not_found
  delete_autoscaler spec s =
      delete_found autoscalers spec "autoscaler: OK" "autoscaler: "
        (get_existing c autoscalers (resource_name spec) spec.namespace s)

  unfoldable pub delete_ingress : Spec → M c.State Deleted
  unfolding get_existing filter_not_found
  delete_ingress spec s =
      delete_found ingresses spec "ingress OK" "ingress: "
        (get_existing c ingresses (resource_name spec) spec.namespace s)

  abbrev pub rules_written : Outcome ConfigMap × c.State → Outcome Deleted × c.State
  rules_written (ok written, s) = (ok ("alert rules: OK", none), s)
  rules_written (err e, s) = (ok (filter_not_found "app alerts: " e), s)
  rules_written (panic, s) = (panic, s)

  -- `removeRulesFromConfigMap` reads through the pointer: nil, for a missing config map, panics.
  abbrev pub remove_rules : Spec → Outcome (Option ConfigMap) × c.State → Outcome Deleted × c.State
  remove_rules spec (ok none, s) = (panic, s)
  remove_rules spec (ok (some existing), s) = rules_written (
      create_or_update_resource c config_maps (remove_rules_from_config_map existing spec)
        alerts_config_map_namespace s)
  remove_rules spec (err e, s) =
      (ok ("app alerts: FAIL", some (errorf ("unable to get existing configmap: " <> e.text))), s)
  remove_rules spec (panic, s) = (panic, s)

  unfoldable pub delete_config_map_rules : Spec → M c.State Deleted
  unfolding get_existing filter_not_found create_or_update_resource remove_rules_from_config_map
  delete_config_map_rules spec s =
      remove_rules spec
        (get_existing c config_maps alerts_config_map_name alerts_config_map_namespace s)

  -- `if err != nil { return results, err }`
  abbrev pub or_return :
      List String → Deleted → (List String → M c.State Deletions) → M c.State Deletions
  or_return results (r, none) next = next (results ++ r ∷ [])
  or_return results (r, some e) next = pure (results ++ r ∷ [], some e)

  -- `if err != nil { results = append(results, err.Error()) }`
  abbrev pub and_note :
      List String → Deleted → (List String → M c.State Deletions) → M c.State Deletions
  and_note results (r, none) next = next (results ++ r ∷ [])
  and_note results (r, some e) next = next (results ++ r ∷ e.text ∷ [])

  unfoldable pub delete_k8s_resources : Spec → M c.State Deletions
  delete_k8s_resources spec = do
    service ← delete_service spec
    or_return [] service λ r1. do
      deployment ← delete_deployment spec
      or_return r1 deployment λ r2. do
        redis ← delete_redis_deployment spec
        and_note r2 redis λ r3. do
          redis_service ← delete_redis_service spec
          and_note r3 redis_service λ r4. do
            secret ← delete_secret spec
            or_return r4 secret λ r5. do
              ingress ← delete_ingress spec
              or_return r5 ingress λ r6. do
                autoscaler ← delete_autoscaler spec
                or_return r6 autoscaler λ r7. do
                  rules ← delete_config_map_rules spec
                  or_return r7 rules λ r8. do
                    account ← delete_service_account c spec
                    pure (account_deleted r8 account)
