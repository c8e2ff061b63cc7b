-- ===== src/Redis.antt =====
-- api/redis.go: the Redis instance of an application.
pub mod Laws
pub mod Selection
use nais_api.App.{Spec, resource_name}
use nais_api.Creator.Access.{create_or_update_resource, get_existing}
use nais_api.Creator.Containers.{create_resource_limits}
use nais_api.Creator.Meta.{add_labels_to_object_meta, generate_object_meta}
use nais_api.Creator.Network.{create_pod_selector}
use nais_api.Creator.Pod.{no_status}
use nais_api.Kubernetes.Cluster.{Cluster}
use nais_api.Kubernetes.Objects.{
  Container, Deployment, DeploymentSpec, PodSpec, ResourceAmounts, Service, deployments, services,
  str_val,
}
use nais_api.Manifest.{Redis}
use nais_api.Manifest.Defaults.{default_port_name}
use nais_api.Prelude.{Option, String, [], if◌then◌else◌, none, some, ◌<>◌, ◌==◌, ◌∷◌}
use nais_api.Prelude.Int.{int32, pos, ℤ}
use nais_api.Prelude.Outcome.{M, Outcome, and_then, lift, ok, wrap, ◌>>=◌}
use nais_api.Prelude.Text.{itoa}

abbrev default_redis_image : String
default_redis_image = "redis:5-alpine"

abbrev default_redis_exporter_image : String
default_redis_exporter_image = "oliver006/redis_exporter:v1.3.4-alpine"

abbrev default_redis_port : ℤ
default_redis_port = pos 6379

abbrev default_redis_exporter_port : ℤ
default_redis_exporter_port = pos 9121

abbrev pub or_default : String → String → String
or_default value default = if value == "" then default else value

unfoldable pub update_default_redis_values : Redis → Redis
update_default_redis_values redis = record redis {
  image = or_default redis.image default_redis_image;
  limits = record {
    cpu = or_default redis.limits.cpu "100m";
    memory = or_default redis.limits.memory "128Mi";
  };
  requests = record {
    cpu = or_default redis.requests.cpu "100m";
    memory = or_default redis.requests.memory "128Mi";
  };
}

abbrev redis_container : String → String → ResourceAmounts → ℤ → Container
redis_container name image amounts port = record {
  name = name;
  image = image;
  resources = amounts;
  image_pull_policy = "IfNotPresent";
  ports = record { container_port = int32 port; name = default_port_name; protocol = "TCP" } ∷ [];
  liveness_probe = none;
  readiness_probe = none;
  env = [];
  pre_stop = none;
  args = [];
  volume_mounts = [];
}

unfoldable pub create_redis_pod_spec : (String → Option String) → Redis → Outcome PodSpec
unfolding create_resource_limits
create_redis_pod_spec quantity_error redis =
    and_then
      (create_resource_limits quantity_error redis.requests.cpu redis.requests.memory
        redis.limits.cpu redis.limits.memory)
      λ amounts.
        and_then (create_resource_limits quantity_error "100m" "100Mi" "100m" "100Mi") λ exporter.
          ok (record {
            containers =
                redis_container "redis" redis.image amounts default_redis_port
                ∷ redis_container "exporter" default_redis_exporter_image exporter
                    default_redis_exporter_port
                ∷ [];
            init_containers = [];
            volumes = [];
            service_account_name = "";
            restart_policy = "";
            dns_policy = "";
          })

unfoldable pub create_redis_deployment_spec :
    (String → Option String) → Spec → Redis → Outcome DeploymentSpec
unfolding create_redis_pod_spec generate_object_meta create_pod_selector itoa
create_redis_deployment_spec quantity_error redis_spec redis =
    and_then (create_redis_pod_spec quantity_error redis) λ pod_spec. ok (record {
      replicas = some (pos 1);
      selector = create_pod_selector redis_spec;
      strategy = record { type = "Recreate"; max_unavailable = none; max_surge = none };
      progress_deadline_seconds = some (pos 300);
      revision_history_limit = some (pos 10);
      template = record {
        meta = record (generate_object_meta redis_spec) {
          annotations = some (
              ("prometheus.io/scrape", "true")
              ∷ ("prometheus.io/port", itoa default_redis_exporter_port)
              ∷ ("prometheus.io/path", "/metrics")
              ∷ []);
        };
        spec = pod_spec;
      };
    })

-- Unlike an application's deployment, an existing one does not keep its replicas.
unfoldable pub redis_deployment_of : Spec → Option Deployment → DeploymentSpec → Deployment
unfolding generate_object_meta
redis_deployment_of redis_spec (some existing) deployment_spec = record existing {
  meta = add_labels_to_object_meta existing.meta redis_spec;
  spec = deployment_spec;
}
redis_deployment_of redis_spec none deployment_spec = record {
  type_meta = record { kind = "Deployment"; api_version = "apps/v1" };
  meta = generate_object_meta redis_spec;
  spec = deployment_spec;
  status = no_status;
}

unfoldable pub create_redis_deployment_def :
    (String → Option String) → Spec → Redis → Option Deployment → Outcome Deployment
unfolding create_redis_deployment_spec redis_deployment_of
create_redis_deployment_def quantity_error redis_spec redis existing =
    and_then (create_redis_deployment_spec quantity_error redis_spec redis)
      (λ deployment_spec. ok (redis_deployment_of redis_spec existing deployment_spec))

-- The identifier of the Redis instance that belongs to an application.
unfoldable pub redis_spec_of : Spec → Spec
redis_spec_of spec = record {
  application = resource_name spec <> "-redis";
  namespace = spec.namespace;
  team = spec.team;
}

unfoldable pub create_redis_service_def : Spec → Service
unfolding generate_object_meta
create_redis_service_def redis_spec = record {
  type_meta = record { kind = "Service"; api_version = "v1" };
  meta = generate_object_meta redis_spec;
  spec = record {
    type = "ClusterIP";
    selector = ("app", resource_name redis_spec) ∷ [];
    ports =
        record {
          name = default_port_name;
          protocol = "TCP";
          port = pos 6379;
          target_port = str_val default_port_name;
        }
        ∷ [];
    external_name = "";
    cluster_ip = "";
  };
}

abbrev redis_service_of : Spec → Option Service → Service
redis_service_of redis_spec none = create_redis_service_def redis_spec
redis_service_of redis_spec (some existing) = existing

module _ (c : Cluster) where
  unfoldable pub create_or_update_redis_instance :
      (String → Option String) → Spec → Redis → M c.State Deployment
  unfolding redis_spec_of create_redis_deployment_def get_existing create_or_update_resource
  create_or_update_redis_instance quantity_error spec redis = do
    let redis_spec = redis_spec_of spec
    existing ←
        wrap "unable to get existing deployment: "
          (get_existing c deployments (resource_name redis_spec) redis_spec.namespace)
    def ← lift (create_redis_deployment_def quantity_error redis_spec redis existing)
    create_or_update_resource c deployments def redis_spec.namespace

  unfoldable pub create_or_update_redis_service : Spec → M c.State Service
  unfolding redis_spec_of create_redis_service_def get_existing create_or_update_resource
  create_or_update_redis_service spec = do
    let redis_spec = redis_spec_of spec
    existing ←
        wrap "unable to get existing service: "
          (get_existing c services (resource_name redis_spec) redis_spec.namespace)
    let def = redis_service_of redis_spec existing
    create_or_update_resource c services
        (record def { meta = add_labels_to_object_meta def.meta redis_spec }) redis_spec.namespace
