-- ===== src/Manifest.antt =====
-- api/manifest.go and the configuration types of api/prometheus.go and api/redis.go: the manifest
-- (nais.yaml) of an application.
pub mod Defaults
pub mod Validation
pub mod Download
use nais_api.Prelude.{Bool, List, Option, String, [], false}
use nais_api.Prelude.Dict.{Dict}
use nais_api.Prelude.Int.{pos, ℤ}

pub record Probe : Type 0 where
  pub path : String
  pub initial_delay : ℤ
  pub period_seconds : ℤ
  pub failure_threshold : ℤ
  pub timeout : ℤ

pub record Healthcheck : Type 0 where
  pub liveness : Probe
  pub readiness : Probe

pub record ResourceList : Type 0 where
  pub cpu : String
  pub memory : String

pub record ResourceRequirements : Type 0 where
  pub limits : ResourceList
  pub requests : ResourceList

pub record PrometheusConfig : Type 0 where
  pub enabled : Bool
  pub port : String
  pub path : String

pub record IstioConfig : Type 0 where
  pub enabled : Bool

pub record Vault : Type 0 where
  pub enabled : Bool
  pub sidecar : Bool

pub record IngressConfig : Type 0 where
  pub disabled : Bool

pub record Replicas : Type 0 where
  pub min : ℤ
  pub max : ℤ
  pub cpu_threshold_percentage : ℤ

pub record UsedResource : Type 0 where
  pub alias : String
  pub resource_type : String
  pub property_map : Dict String

pub record ExposedResource : Type 0 where
  pub alias : String
  pub resource_type : String
  pub path : String
  pub description : String
  pub wsdl_group_id : String
  pub wsdl_artifact_id : String
  pub wsdl_version : String
  pub security_token : String
  pub all_zones : Bool

pub record FasitResources : Type 0 where
  pub used : List UsedResource
  pub exposed : List ExposedResource

pub record Redis : Type 0 where
  pub enabled : Bool
  pub image : String
  pub limits : ResourceList
  pub requests : ResourceList

pub record PrometheusAlertRule : Type 0 where
  pub alert : String
  pub expr : String
  pub for : String
  pub labels : Option (Dict String)
  pub annotations : Dict String

pub record NaisManifest : Type 0 where
  pub team : String
  pub image : String
  pub port : ℤ
  pub deployment_strategy : String
  pub healthcheck : Healthcheck
  pub pre_stop_hook_path : String
  pub prometheus : PrometheusConfig
  pub istio : IstioConfig
  pub replicas : Replicas
  pub ingress : IngressConfig
  pub resources : ResourceRequirements
  pub fasit_resources : FasitResources
  pub leader_election : Bool
  pub redis : Redis
  pub alerts : List PrometheusAlertRule
  pub logformat : String
  pub logtransform : String
  pub secrets : Bool
  pub vault : Vault
  pub webproxy : Bool

pub record ValidationError : Type 0 where
  pub error_message : String
  pub fields : Dict String

abbrev pub no_amounts : ResourceList
no_amounts = record { cpu = ""; memory = "" }

abbrev pub no_probe : Probe
no_probe = record {
  path = "";
  initial_delay = pos 0;
  period_seconds = pos 0;
  failure_threshold = pos 0;
  timeout = pos 0;
}

-- The zero value `NaisManifest{}`.
abbrev pub empty_manifest : NaisManifest
empty_manifest = record {
  team = "";
  image = "";
  port = pos 0;
  deployment_strategy = "";
  healthcheck = record { liveness = no_probe; readiness = no_probe };
  pre_stop_hook_path = "";
  prometheus = record { enabled = false; port = ""; path = "" };
  istio = record { enabled = false };
  replicas = record { min = pos 0; max = pos 0; cpu_threshold_percentage = pos 0 };
  ingress = record { disabled = false };
  resources = record { limits = no_amounts; requests = no_amounts };
  fasit_resources = record { used = []; exposed = [] };
  leader_election = false;
  redis = record { enabled = false; image = ""; limits = no_amounts; requests = no_amounts };
  alerts = [];
  logformat = "";
  logtransform = "";
  secrets = false;
  vault = record { enabled = false; sidecar = false };
  webproxy = false;
}
