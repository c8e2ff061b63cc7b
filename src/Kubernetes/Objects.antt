-- ===== src/Kubernetes/Objects.antt =====
-- Kubernetes objects, with the fields that the program reads or writes. What it never touches is not
-- listed. A `map[string]string` that may be nil is an `Option`; so is a pointer.
use nais_api.Prelude.{List, Option, String}
use nais_api.Prelude.Dict.{Dict}
use nais_api.Prelude.Int.{ℤ}

pub record TypeMeta : Type 0 where
  pub kind : String
  pub api_version : String

pub record ObjectMeta : Type 0 where
  pub name : String
  pub namespace : String
  pub resource_version : String
  pub generation : ℤ
  pub labels : Option (Dict String)
  pub annotations : Option (Dict String)

pub data IntOrString : Type 0 where
  int_val : ℤ → IntOrString
  str_val : String → IntOrString

pub record ServicePort : Type 0 where
  pub name : String
  pub protocol : String
  pub port : ℤ
  pub target_port : IntOrString

pub record ServiceSpec : Type 0 where
  pub type : String
  pub selector : Dict String
  pub ports : List ServicePort
  pub external_name : String
  pub cluster_ip : String

pub record Service : Type 0 where
  pub type_meta : TypeMeta
  pub meta : ObjectMeta
  pub spec : ServiceSpec

pub record SecretKeyRef : Type 0 where
  pub name : String
  pub key : String

pub record EnvVar : Type 0 where
  pub name : String
  pub value : String
  pub value_from : Option SecretKeyRef

-- A quantity stands for itself as the text that it was parsed from.
pub record ResourceAmounts : Type 0 where
  pub requests : Dict String
  pub limits : Dict String

pub record ContainerPort : Type 0 where
  pub container_port : ℤ
  pub protocol : String
  pub name : String

pub data Handler : Type 0 where
  http_get : String → IntOrString → Handler
  exec : List String → Handler

pub record ContainerProbe : Type 0 where
  pub handler : Handler
  pub initial_delay_seconds : ℤ
  pub period_seconds : ℤ
  pub failure_threshold : ℤ
  pub timeout_seconds : ℤ

pub record VolumeMount : Type 0 where
  pub name : String
  pub mount_path : String

pub record KeyToPath : Type 0 where
  pub key : String
  pub path : String

pub data VolumeSource : Type 0 where
  no_source : VolumeSource
  secret_source : String → List KeyToPath → VolumeSource
  empty_dir : String → VolumeSource

pub record Volume : Type 0 where
  pub name : String
  pub source : VolumeSource

pub record Container : Type 0 where
  pub name : String
  pub image : String
  pub ports : List ContainerPort
  pub resources : ResourceAmounts
  pub liveness_probe : Option ContainerProbe
  pub readiness_probe : Option ContainerProbe
  pub env : List EnvVar
  pub image_pull_policy : String
  pub pre_stop : Option Handler
  pub args : List String
  pub volume_mounts : List VolumeMount

pub record PodSpec : Type 0 where
  pub containers : List Container
  pub init_containers : List Container
  pub volumes : List Volume
  pub service_account_name : String
  pub restart_policy : String
  pub dns_policy : String

pub record DeploymentStrategy : Type 0 where
  pub type : String
  pub max_unavailable : Option IntOrString
  pub max_surge : Option IntOrString

pub record PodTemplate : Type 0 where
  pub meta : ObjectMeta
  pub spec : PodSpec

pub record DeploymentSpec : Type 0 where
  pub replicas : Option ℤ
  pub selector : Dict String
  pub strategy : DeploymentStrategy
  pub progress_deadline_seconds : Option ℤ
  pub revision_history_limit : Option ℤ
  pub template : PodTemplate

pub record Condition : Type 0 where
  pub type : String
  pub reason : String

pub record DeploymentStatus : Type 0 where
  pub observed_generation : ℤ
  pub replicas : ℤ
  pub updated_replicas : ℤ
  pub available_replicas : ℤ
  pub conditions : List Condition

pub record Deployment : Type 0 where
  pub type_meta : TypeMeta
  pub meta : ObjectMeta
  pub spec : DeploymentSpec
  pub status : DeploymentStatus

pub record Secret : Type 0 where
  pub type_meta : TypeMeta
  pub meta : ObjectMeta
  pub content : Dict String
  pub type : String

pub record ConfigMap : Type 0 where
  pub meta : ObjectMeta
  pub content : Option (Dict String)

pub record AutoscalerSpec : Type 0 where
  pub min_replicas : Option ℤ
  pub max_replicas : ℤ
  pub target_cpu : Option ℤ
  pub target_api_version : String
  pub target_kind : String
  pub target_name : String

pub record Autoscaler : Type 0 where
  pub type_meta : TypeMeta
  pub meta : ObjectMeta
  pub spec : AutoscalerSpec

pub record IngressRule : Type 0 where
  pub host : String
  pub service_name : String
  pub service_port : IntOrString
  pub path : String

pub record Ingress : Type 0 where
  pub type_meta : TypeMeta
  pub meta : ObjectMeta
  pub rules : List IngressRule

pub record ServiceAccount : Type 0 where
  pub type_meta : TypeMeta
  pub meta : ObjectMeta

pub record RoleRef : Type 0 where
  pub kind : String
  pub name : String

pub record Subject : Type 0 where
  pub kind : String
  pub name : String
  pub namespace : String

pub record RoleBinding : Type 0 where
  pub meta : ObjectMeta
  pub subjects : List Subject
  pub role_ref : RoleRef

pub data Kind : Type 0 where
  services deployments secrets config_maps autoscalers ingresses service_accounts role_bindings :
      Kind

-- The type of a kind's objects.
abbrev pub ObjectOf : Kind → Type 0
ObjectOf services = Service
ObjectOf deployments = Deployment
ObjectOf secrets = Secret
ObjectOf config_maps = ConfigMap
ObjectOf autoscalers = Autoscaler
ObjectOf ingresses = Ingress
ObjectOf service_accounts = ServiceAccount
ObjectOf role_bindings = RoleBinding

abbrev pub meta_of : (k : Kind) → ObjectOf k → ObjectMeta
meta_of services o = o.meta
meta_of deployments o = o.meta
meta_of secrets o = o.meta
meta_of config_maps o = o.meta
meta_of autoscalers o = o.meta
meta_of ingresses o = o.meta
meta_of service_accounts o = o.meta
meta_of role_bindings o = o.meta
