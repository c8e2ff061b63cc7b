-- ===== src/Creator/Redirect.antt =====
-- api/service.go: an old service is made to lead to the new application.
use nais_api.App.{Spec, resource_name}
use nais_api.Creator.Access.{replied}
use nais_api.Kubernetes.Cluster.{Cluster}
use nais_api.Kubernetes.Objects.{Service, int_val, services}
use nais_api.Prelude.{[], ◌<>◌, ◌∷◌}
use nais_api.Prelude.Int.{pos}
use nais_api.Prelude.Outcome.{M}

module _ (c : Cluster) where
  unfoldable pub redirect_old_service_to_new_app : Service → Spec → M c.State Service
  unfolding resource_name
  redirect_old_service_to_new_app original spec s = replied (
      c.update services original.meta.namespace
        (record {
          type_meta = record { kind = ""; api_version = "" };
          meta = original.meta;
          spec = record {
            type = "ExternalName";
            selector = [];
            ports =
                record { name = ""; protocol = ""; port = pos 80; target_port = int_val (pos 0) }
                ∷ [];
            external_name = resource_name spec <> "." <> spec.namespace <> ".svc.nais.local";
            cluster_ip = "";
          };
        })
        s)
