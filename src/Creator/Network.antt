-- ===== src/Creator/Network.antt =====
-- Services and ingresses (api/resourcecreator.go).
pub mod Laws
use nais_api.App.{Spec, environment_p, resource_name, zone_sbs}
use nais_api.Creator.Meta.{generate_object_meta}
use nais_api.Fasit.{FasitIngress, NaisResource}
use nais_api.Kubernetes.Objects.{Ingress, IngressRule, Service, ServiceSpec, int_val, str_val}
use nais_api.Manifest.{NaisManifest}
use nais_api.Manifest.Defaults.{default_port_name}
use nais_api.Prelude.{List, String, [], if◌then◌else◌, map, not, ◌++◌, ◌<>◌, ◌==◌, ◌∷◌}
use nais_api.Prelude.Dict.{Dict}
use nais_api.Prelude.Int.{pos}
use nais_api.Prelude.Text.{replace_first}
use nais_api.Request.{Deploy}

abbrev pub empty_service_spec : ServiceSpec
empty_service_spec = record {
  type = "";
  selector = [];
  ports = [];
  external_name = "";
  cluster_ip = "";
}

unfoldable pub create_service_def : Spec → Service
unfolding generate_object_meta
create_service_def spec = record {
  type_meta = record { kind = "Service"; api_version = "v1" };
  meta = generate_object_meta spec;
  spec = empty_service_spec;
}

unfoldable pub create_pod_selector : Spec → Dict String
create_pod_selector spec = ("app", spec.application) ∷ []

-- The fields that are set; the others stay as the cluster has them.
unfoldable pub fill_service_spec : Spec → ServiceSpec → ServiceSpec
unfolding create_pod_selector
fill_service_spec spec service_spec = record service_spec {
  type = "ClusterIP";
  selector = create_pod_selector spec;
  ports =
      record {
        name = "http";
        protocol = "TCP";
        port = pos 80;
        target_port = str_val default_port_name;
      }
      ∷ [];
}

unfoldable pub create_ingress_def : Spec → Ingress
unfolding generate_object_meta
create_ingress_def spec = record {
  type_meta = record { kind = "Ingress"; api_version = "extensions/v1beta1" };
  meta = generate_object_meta spec;
  rules = [];
}

unfoldable pub create_ingress_hostname : String → String → String → String
create_ingress_hostname application namespace subdomain =
    if namespace == "default"
    then application <> "." <> subdomain
    else application <> "-" <> namespace <> "." <> subdomain

unfoldable pub create_sbs_public_hostname : Deploy → String
create_sbs_public_hostname request =
    if not (request.fasit_environment == environment_p)
    then "tjenester-" <> request.fasit_environment <> ".nav.no"
    else "tjenester.nav.no"

unfoldable pub create_ingress_rule : String → String → String → IngressRule
unfolding replace_first
create_ingress_rule service_name host path = record {
  host = host;
  service_name = service_name;
  service_port = int_val (pos 80);
  path = replace_first "//" "/" ("/" <> path);
}

abbrev pub ingress_rule_of : Spec → FasitIngress → IngressRule
ingress_rule_of spec i = create_ingress_rule (resource_name spec) i.host i.path

-- The rules of the load balancer configurations among the resources.
unfoldable pub load_balancer_rules : Spec → List NaisResource → List IngressRule
load_balancer_rules spec [] = []
load_balancer_rules spec (res ∷ resources) =
    (if res.resource_type == "LoadBalancerConfig"
      then map (ingress_rule_of spec) res.ingresses
      else [])
    ++ load_balancer_rules spec resources

unfoldable pub create_ingress_rules : Spec → Deploy → String → List NaisResource → List IngressRule
unfolding create_ingress_hostname create_sbs_public_hostname create_ingress_rule load_balancer_rules
create_ingress_rules spec request cluster_subdomain resources =
    create_ingress_rule (resource_name spec)
      (create_ingress_hostname spec.application request.namespace cluster_subdomain) ""
    ∷ ((if request.zone == zone_sbs
          then create_ingress_rule (resource_name spec) (create_sbs_public_hostname request)
              spec.application
            ∷ []
          else [])
        ++ load_balancer_rules spec resources)

unfoldable pub create_ingress_annotations : NaisManifest → Dict String
create_ingress_annotations manifest =
    ("prometheus.io/scrape", "true")
    ∷ ("prometheus.io/path", manifest.healthcheck.liveness.path)
    ∷ []
