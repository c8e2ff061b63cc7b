-- ===== src/Creator/Containers.antt =====
-- The containers of a pod and the volume for certificates (api/resourcecreator.go).
use nais_api.App.{Spec, resource_name}
use nais_api.Fasit.{NaisResource, root_mount_point, to_resource_variable}
use nais_api.Kubernetes.Objects.{
  Container, ContainerProbe, EnvVar, Handler, KeyToPath, PodSpec, ResourceAmounts, Volume,
  VolumeMount, exec, http_get, no_source, secret_source, str_val,
}
use nais_api.Manifest.{NaisManifest, Probe}
use nais_api.Manifest.Defaults.{default_port_name}
use nais_api.Prelude.{
  Bool, List, Option, String, [], false, if◌then◌else◌, map, none, some, true, ◌++◌, ◌<>◌, ◌==◌,
  ◌∷◌,
}
use nais_api.Prelude.Dict.{or_empty}
use nais_api.Prelude.Int.{int32, pos}
use nais_api.Prelude.Outcome.{Outcome, and_then, ok, panic}
use nais_api.Prelude.Text.{replace_char, to_lower}
use nais_api.Request.{Deploy}

-- resource.MustParse
unfoldable pub must_parse : (String → Option String) → String → Outcome String
must_parse quantity_error text = elim (quantity_error text) [ none ↦ ok text | some e ↦ panic ]

unfoldable pub create_resource_limits :
    (String → Option String) → String → String → String → String → Outcome ResourceAmounts
unfolding must_parse
create_resource_limits quantity_error requests_cpu requests_memory limits_cpu limits_memory =
    and_then (must_parse quantity_error requests_cpu) λ rc.
      and_then (must_parse quantity_error requests_memory) λ rm.
        and_then (must_parse quantity_error limits_cpu) λ lc.
          and_then (must_parse quantity_error limits_memory) λ lm. ok (record {
            requests = ("cpu", rc) ∷ ("memory", rm) ∷ [];
            limits = ("cpu", lc) ∷ ("memory", lm) ∷ [];
          })

unfoldable pub create_life_cycle : String → Handler
create_life_cycle path =
    if path == "" then exec ("sleep" ∷ "5" ∷ []) else http_get path (str_val default_port_name)

abbrev pub elector_container : Spec → String → Container
elector_container spec cpu = record {
  name = "elector";
  image = "gcr.io/google_containers/leader-elector:0.5";
  image_pull_policy = "IfNotPresent";
  resources = record { requests = ("cpu", cpu) ∷ []; limits = [] };
  ports = record { container_port = pos 4040; protocol = "TCP"; name = "" } ∷ [];
  args =
      ("--election=" <> resource_name spec)
      ∷ "--http=localhost:4040"
      ∷ ("--election-namespace=" <> spec.namespace)
      ∷ [];
  liveness_probe = none;
  readiness_probe = none;
  env = [];
  pre_stop = none;
  volume_mounts = [];
}

unfoldable pub create_leader_election_container :
    (String → Option String) → Spec → Outcome Container
unfolding must_parse
create_leader_election_container quantity_error spec =
    and_then (must_parse quantity_error "100m") (λ cpu. ok (elector_container spec cpu))

unfoldable pub has_certificate : List NaisResource → Bool
has_certificate [] = false
has_certificate (res ∷ resources) = elim (or_empty res.certificates) [
  | [] ↦ has_certificate resources
  | file ∷ files ↦ true
]

unfoldable pub valid_label_name : String → String
unfolding replace_char to_lower
valid_label_name text = to_lower (replace_char "_" "-" text)

abbrev pub item_of : NaisResource → String × String → KeyToPath
item_of res (k, _) = record { key = to_resource_variable res k; path = to_resource_variable res k }

unfoldable pub certificate_items : List NaisResource → List KeyToPath
certificate_items [] = []
certificate_items (res ∷ resources) =
    map (item_of res) (or_empty res.certificates) ++ certificate_items resources

unfoldable pub create_certificate_volume : Spec → List NaisResource → Volume
unfolding certificate_items valid_label_name
create_certificate_volume spec resources = elim (certificate_items resources) [
  | [] ↦ record { name = ""; source = no_source }
  | item ∷ items ↦ record {
    name = valid_label_name (resource_name spec);
    source = secret_source (resource_name spec) (item ∷ items);
  }
]

unfoldable pub create_certificate_volume_mount : Spec → List NaisResource → VolumeMount
unfolding valid_label_name
create_certificate_volume_mount spec [] = record { name = ""; mount_path = "" }
create_certificate_volume_mount spec (res ∷ resources) = elim res.certificates [
  | some files ↦ record {
    name = valid_label_name (resource_name spec);
    mount_path = root_mount_point;
  }
  | none ↦ create_certificate_volume_mount spec resources
]

abbrev probe_of : Probe → ContainerProbe
probe_of p = record {
  handler = http_get p.path (str_val default_port_name);
  initial_delay_seconds = int32 p.initial_delay;
  period_seconds = int32 p.period_seconds;
  failure_threshold = int32 p.failure_threshold;
  timeout_seconds = int32 p.timeout;
}

-- The pod with the application's container alone.
unfoldable pub main_pod : Spec → Deploy → NaisManifest → List EnvVar → ResourceAmounts → PodSpec
unfolding create_life_cycle
main_pod spec request manifest env_vars amounts = record {
  containers =
      record {
        name = spec.application;
        image = manifest.image <> ":" <> request.version;
        ports =
            record {
              container_port = int32 manifest.port;
              protocol = "TCP";
              name = default_port_name;
            }
            ∷ [];
        resources = amounts;
        liveness_probe = some (probe_of manifest.healthcheck.liveness);
        readiness_probe = some (probe_of manifest.healthcheck.readiness);
        env = env_vars;
        image_pull_policy = "IfNotPresent";
        pre_stop = some (create_life_cycle manifest.pre_stop_hook_path);
        args = [];
        volume_mounts = [];
      }
      ∷ [];
  init_containers = [];
  volumes = [];
  service_account_name = resource_name spec;
  restart_policy = "Always";
  dns_policy = "ClusterFirst";
}
