-- ===== src/Manifest/Defaults.antt =====
-- api/defaults.go: the manifest that fills what an application's own leaves empty.
use nais_api.Manifest.{NaisManifest, Probe, empty_manifest, no_amounts}
use nais_api.Prelude.{String, false, ◌<>◌}
use nais_api.Prelude.Int.{pos}

abbrev pub default_port_name : String
default_port_name = "http"

abbrev pub nav_truststore_fasit_alias : String
nav_truststore_fasit_alias = "nav_truststore"

abbrev pub strategy_rolling_update : String
strategy_rolling_update = "RollingUpdate"

abbrev pub strategy_recreate : String
strategy_recreate = "Recreate"

abbrev default_probe : String → Probe
default_probe path = record {
  path = path;
  initial_delay = pos 20;
  period_seconds = pos 10;
  failure_threshold = pos 3;
  timeout = pos 1;
}

unfoldable pub get_default_manifest : String → NaisManifest
get_default_manifest application = record empty_manifest {
  replicas = record { min = pos 2; max = pos 4; cpu_threshold_percentage = pos 50 };
  port = pos 8080;
  deployment_strategy = strategy_rolling_update;
  prometheus = record { enabled = false; port = default_port_name; path = "/metrics" };
  istio = record { enabled = false };
  healthcheck = record { liveness = default_probe "isAlive"; readiness = default_probe "isReady" };
  ingress = record { disabled = false };
  resources = record {
    limits = record { cpu = "500m"; memory = "512Mi" };
    requests = record { cpu = "200m"; memory = "256Mi" };
  };
  leader_election = false;
  redis = record { enabled = false; image = ""; limits = no_amounts; requests = no_amounts };
  secrets = false;
  image = "docker.adeo.no:5000/" <> application;
}
