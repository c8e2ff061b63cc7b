-- ===== src/Examples.antt =====
-- One application on a small platform, for the examples.
pub mod Memory
pub mod Requests
pub mod Objects
pub mod Clusters
pub mod Servers
pub mod Handlers
pub mod Deployed
pub mod FasitClient
pub mod Settings
pub mod Router
pub mod Events
pub mod Commands
pub mod Waits
pub mod Proxies
pub mod Keys
use nais_api.Api.{environment_class}
use nais_api.App.{Spec}
use nais_api.Creator.Pod.{Platform}
use nais_api.Event.{environment}
use nais_api.Fasit.{NaisResource}
use nais_api.Kubernetes.Objects.{ingresses}
use nais_api.Manifest.{NaisManifest, Probe, empty_manifest, no_amounts}
use nais_api.Prelude.{List, Option, String, [], false, if◌then◌else◌, none, some, true, ◌==◌, ◌∷◌}
use nais_api.Prelude.Int.{pos}
use nais_api.Prelude.Outcome.{ok}
use nais_api.Request.{Deploy}

abbrev pub app_spec : Spec
app_spec = record { application = "app"; namespace = "default"; team = "team" }

abbrev pub app_request : Deploy
app_request = record {
  application = "app";
  version = "1";
  zone = "fss";
  manifest_url = "https://nais.yaml";
  skip_fasit = true;
  fasit_environment = "";
  fasit_username = "";
  fasit_password = "";
  on_behalf_of = "";
  namespace = "default";
  environment = "";
  cluster_name = "dev";
}

abbrev pub app_probe : Probe
app_probe = record {
  path = "alive";
  initial_delay = pos 20;
  period_seconds = pos 10;
  failure_threshold = pos 3;
  timeout = pos 1;
}

abbrev pub app_manifest : NaisManifest
app_manifest = record empty_manifest {
  team = "team";
  image = "registry:5000/app";
  port = pos 8080;
  deployment_strategy = "RollingUpdate";
  healthcheck = record { liveness = app_probe; readiness = app_probe };
  replicas = record { min = pos 2; max = pos 4; cpu_threshold_percentage = pos 50 };
  resources = record {
    limits = record { cpu = "500m"; memory = "512Mi" };
    requests = record { cpu = "200m"; memory = "256Mi" };
  };
  redis = record {
    enabled = true;
    image = "";
    limits = record { cpu = ""; memory = "lots" };
    requests = no_amounts;
  };
  alerts =
      record {
        alert = "down";
        expr = "up == 0";
        for = "1m";
        labels = none;
        annotations = ("action", "look") ∷ [];
      }
      ∷ [];
}

-- Every text but "lots" is a quantity.
abbrev pub test_quantity_error : String → Option String
test_quantity_error text = if text == "lots" then some "unparsable" else none

abbrev pub app_certificate : NaisResource
app_certificate = record {
  id = pos 7;
  name = "nav_truststore";
  resource_type = "certificate";
  scope = record { environment_class = "t"; environment = ""; zone = "" };
  properties = ("store.alias", "nav") ∷ [];
  property_map = [];
  secret = some (("password", "secret") ∷ []);
  certificates = some (("truststore", "bytes") ∷ []);
  ingresses = [];
}

abbrev pub app_load_balancer : NaisResource
app_load_balancer = record {
  id = pos 0;
  name = "";
  resource_type = "LoadBalancerConfig";
  scope = record { environment_class = ""; environment = ""; zone = "" };
  properties = [];
  property_map = [];
  secret = none;
  certificates = none;
  ingresses = record { host = "app.nav.no"; path = "/context" } ∷ [];
}

abbrev pub app_resources : List NaisResource
app_resources = app_certificate ∷ app_load_balancer ∷ []

abbrev pub test_platform : Platform
test_platform = record {
  proxy = record {
    lookup_env = λ name. none;
    parse_url = λ url. ok (record { hostname = url; port = "80" });
  };
  vault = record {
    get_bool = λ name. false;
    get_string = λ name. "value";
    multierror = λ errors. "errors";
  };
  quantity_error = test_quantity_error;
}
