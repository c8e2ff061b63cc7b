-- ===== src/Deleter/Laws/Spared.antt =====
-- The deletions before that of the alert rules leave the objects of every other kind
-- (api/resourcedeleter.go).
use nais_api.App.{Spec, resource_name}
use nais_api.Creator.Access.{found, get_existing}
use nais_api.Deleter.{
  Deleted, Deletions, and_note, delete_autoscaler, delete_deployment, delete_found, delete_ingress,
  delete_named, delete_redis_deployment, delete_redis_service, delete_secret, delete_service,
  or_return,
}
use nais_api.Kubernetes.Cluster.{Cluster, Contract, Reply}
use nais_api.Kubernetes.Objects.{
  Kind, ObjectOf, autoscalers, deployments, ingresses, secrets, services,
}
use nais_api.Prelude.{List, Option, String, inl, none, some, ◌<>◌, ◌∙◌, ◌≡◌, ◌≢◌}
use nais_api.Prelude.Keeps.{Keeps}
use nais_api.Prelude.Outcome.{M, Outcome, err, ok, panic}

-- None of the kinds that are deleted by the name of the application.
pub record IsSpared (kind : Kind) : Type 0 where
  pub no_service : kind ≢ services
  pub no_deployment : kind ≢ deployments
  pub no_secret : kind ≢ secrets
  pub no_ingress : kind ≢ ingresses
  pub no_autoscaler : kind ≢ autoscalers

module _ (c : Cluster) (api : Contract c) (kind : Kind) (ns n : String)
    (held : Reply (ObjectOf kind)) where
  -- What is read of an object that is not deleted.
  abbrev pub Held : c.State → Type 0
  Held t = c.get kind ns n t ≡ held

  delete_named-Keeps :
      (k : Kind) (ns' n' fine message : String)
      → kind ≢ k
      → Keeps Held (delete_named c k ns' n' fine message)
  delete_named-Keeps k ns' n' fine message other = record {
    at = λ s h. api.get-delete kind ns n k ns' n' s (inl other) ∙ h;
  }

  delete_found-keeps :
      (k : Kind) (spec : Spec) (fine message : String)
      → kind ≢ k
      → (r : Outcome (Option (ObjectOf k))) (s : c.State) → Held s
      → Held (delete_found c k spec fine message (r, s)).1
  delete_found-keeps k spec fine message other (ok none) s h = h
  delete_found-keeps k spec fine message other (ok (some o)) s h =
      (delete_named-Keeps k spec.namespace (resource_name spec) fine message other).at s h
  delete_found-keeps k spec fine message other (err e) s h = h
  delete_found-keeps k spec fine message other panic s h = h

  pub or_return-Keeps :
      (results : List String) (d : Deleted) (next : List String → M c.State Deletions)
      → ((r : List String) → Keeps Held (next r))
      → Keeps Held (or_return c results d next)
  or_return-Keeps results (r, none) next k = k _
  or_return-Keeps results (r, some e) next k = record { at = λ s h. h }

  pub and_note-Keeps :
      (results : List String) (d : Deleted) (next : List String → M c.State Deletions)
      → ((r : List String) → Keeps Held (next r))
      → Keeps Held (and_note c results d next)
  and_note-Keeps results (r, none) next k = k _
  and_note-Keeps results (r, some e) next k = k _

  module _ (spec : Spec) (spared : IsSpared kind) where
    pub service-Keeps : Keeps Held (delete_service c spec)
    unfolding delete_service
    service-Keeps =
        delete_named-Keeps services spec.namespace (resource_name spec) "service: OK" "service: "
          (spared.no_service)

    pub deployment-Keeps : Keeps Held (delete_deployment c spec)
    unfolding delete_deployment
    deployment-Keeps =
        delete_named-Keeps deployments spec.namespace (resource_name spec) "deployment: OK"
          "deployment: " (spared.no_deployment)

    pub redis_deployment-Keeps : Keeps Held (delete_redis_deployment c spec)
    unfolding delete_redis_deployment
    redis_deployment-Keeps =
        delete_named-Keeps deployments spec.namespace (resource_name spec <> "-redis")
          "deployment: OK" "deployment: " (spared.no_deployment)

    pub redis_service-Keeps : Keeps Held (delete_redis_service c spec)
    unfolding delete_redis_service
    redis_service-Keeps =
        delete_named-Keeps services spec.namespace (resource_name spec <> "-redis") "service: OK"
          "service: " (spared.no_service)

    pub secret-Keeps : Keeps Held (delete_secret c spec)
    unfolding delete_secret
    secret-Keeps =
        delete_named-Keeps secrets spec.namespace (resource_name spec) "secret: OK" "secret: "
          (spared.no_secret)

    pub ingress-Keeps : Keeps Held (delete_ingress c spec)
    unfolding delete_ingress get_existing
    ingress-Keeps = record {
      at = λ s h.
          delete_found-keeps ingresses spec "ingress OK" "ingress: " (spared.no_ingress)
            (found (c.get ingresses spec.namespace (resource_name spec) s)) s h;
    }

    pub autoscaler-Keeps : Keeps Held (delete_autoscaler c spec)
    unfolding delete_autoscaler get_existing
    autoscaler-Keeps = record {
      at = λ s h.
          delete_found-keeps autoscalers spec "autoscaler: OK" "autoscaler: " (spared.no_autoscaler)
            (found (c.get autoscalers spec.namespace (resource_name spec) s)) s h;
    }
