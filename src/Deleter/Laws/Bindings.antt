-- ===== src/Deleter/Laws/Bindings.antt =====
-- A deletion leaves the role binding of the application (api/resourcedeleter.go).
use nais_api.Alerts.{
  alerts_config_map_name, alerts_config_map_namespace, remove_rules_from_config_map,
}
use nais_api.App.{Spec, resource_name}
use nais_api.Creator.Access.{create_or_update_resource, found, get_existing}
use nais_api.Creator.Accounts.{delete_service_account}
use nais_api.Deleter.{delete_config_map_rules, delete_k8s_resources, remove_rules, rules_written}
use nais_api.Deleter.Laws.Spared.{
  Held, IsSpared, and_note-Keeps, autoscaler-Keeps, deployment-Keeps, ingress-Keeps,
  or_return-Keeps, redis_deployment-Keeps, redis_service-Keeps, secret-Keeps, service-Keeps,
}
use nais_api.Kubernetes.Cluster.{Cluster, Contract, Reply}
use nais_api.Kubernetes.Objects.{
  ConfigMap, RoleBinding, config_maps, role_bindings, service_accounts,
}
use nais_api.Prelude.{Bool-cases, Option, String, arith, inl, inr, none, refl, some, ◌==◌, ◌∙◌, ◌≡◌}
use nais_api.Prelude.Keeps.{Keeps, Keeps-bind, Keeps-pure}
use nais_api.Prelude.Outcome.{Outcome, err, ok, panic}

role_bindings-IsSpared : IsSpared role_bindings
role_bindings-IsSpared = record {
  no_service = ground arith;
  no_deployment = ground arith;
  no_secret = ground arith;
  no_ingress = ground arith;
  no_autoscaler = ground arith;
}

module _ (c : Cluster) (api : Contract c) (ns n : String) (held : Reply RoleBinding) where
  -- What is read under the name of the role binding.
  abbrev Binding : c.State → Type 0
  Binding = Held c api role_bindings ns n held

  rules_written-keeps :
      (r : Outcome ConfigMap) (s : c.State) → Binding s → Binding (rules_written c (r, s)).1
  rules_written-keeps (ok m) s h = h
  rules_written-keeps (err e) s h = h
  rules_written-keeps panic s h = h

  written-keeps :
      (m : ConfigMap) (s : c.State)
      → Binding s
      → Binding (create_or_update_resource c config_maps m alerts_config_map_namespace s).1
  unfolding create_or_update_resource
  written-keeps m s h = elim (Bool-cases (m.meta.resource_version == "")) [
    | inl new ↦
        rw (new, create_or_update_resource)
          (api.get-create_other role_bindings ns n config_maps alerts_config_map_namespace m s
              (inl (ground arith))
            ∙ h)
    | inr old ↦
        rw (old, create_or_update_resource)
          (api.get-update_other role_bindings ns n config_maps alerts_config_map_namespace m s
              (inl (ground arith))
            ∙ h)
  ]

  remove_rules-keeps :
      (spec : Spec) (r : Outcome (Option ConfigMap)) (s : c.State)
      → Binding s
      → Binding (remove_rules c spec (r, s)).1
  remove_rules-keeps spec (ok none) s h = h
  remove_rules-keeps spec (ok (some m)) s h =
      let (r, t) =
        create_or_update_resource c config_maps (remove_rules_from_config_map m spec)
          alerts_config_map_namespace s in
      rules_written-keeps r t (written-keeps (remove_rules_from_config_map m spec) s h)
  remove_rules-keeps spec (err e) s h = h
  remove_rules-keeps spec panic s h = h

  module _ (spec : Spec) where
    rules-Keeps : Keeps Binding (delete_config_map_rules c spec)
    unfolding delete_config_map_rules get_existing
    rules-Keeps = record {
      at = λ s h.
          remove_rules-keeps spec
            (found (c.get config_maps alerts_config_map_namespace alerts_config_map_name s)) s h;
    }

    account-Keeps : Keeps Binding (delete_service_account c spec)
    unfolding delete_service_account
    account-Keeps = record {
      at = λ s h.
          api.get-delete role_bindings ns n service_accounts spec.namespace (resource_name spec) s
            (inl (ground arith))
          ∙ h;
    }

    ruleset deletion_rules = (
      Keeps-bind, Keeps-pure, or_return-Keeps, and_note-Keeps, service-Keeps, deployment-Keeps,
      redis_deployment-Keeps, redis_service-Keeps, secret-Keeps, ingress-Keeps, autoscaler-Keeps,
      rules-Keeps, account-Keeps, role_bindings-IsSpared,
    )

    delete_k8s_resources-Keeps : Keeps Binding (delete_k8s_resources c spec)
    unfolding delete_k8s_resources
    delete_k8s_resources-Keeps = search deletion_rules depth 40

-- In a cluster that keeps to its API, however a deletion ends, the role binding of the application is
-- read as before: it is not among what is deleted.
pub role_binding-delete_k8s_resources :
    (c : Cluster) (api : Contract c) (spec : Spec) (s : c.State)
    → c.get role_bindings spec.namespace (resource_name spec) (delete_k8s_resources c spec s).1
      ≡ c.get role_bindings spec.namespace (resource_name spec) s
role_binding-delete_k8s_resources c api spec s =
    (delete_k8s_resources-Keeps c api spec.namespace (resource_name spec) _ spec).at s refl
