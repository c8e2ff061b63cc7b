-- ===== src/Creator/Environment.antt =====
-- The environment variables of an application's container (api/resourcecreator.go).
pub mod Laws
pub mod Unique
use nais_api.App.{Spec, resource_name}
use nais_api.Fasit.{NaisResource, mount_point, to_environment_variable, to_resource_variable}
use nais_api.Kubernetes.Objects.{EnvVar, SecretKeyRef}
use nais_api.Manifest.{NaisManifest}
use nais_api.Manifest.Validation.{or_then}
use nais_api.Prelude.{
  Bool, List, Option, String, [], false, if◌then◌else◌, map, none, some, ◌++◌, ◌<>◌, ◌==◌, ◌∷◌,
}
use nais_api.Prelude.Dict.{or_empty}
use nais_api.Prelude.Outcome.{GoError, Outcome, and_then, err, errorf, ok, panic}
use nais_api.Prelude.Text.{to_lower, to_upper}
use nais_api.Proxy.{Address, java_proxy_options}
use nais_api.Request.{Deploy}

abbrev pub create_env_var : String → String → EnvVar
create_env_var key value = record { name = key; value = value; value_from = none }

unfoldable pub create_default_environment_variables : Deploy → List EnvVar
create_default_environment_variables r =
    create_env_var "APP_NAME" r.application
    ∷ create_env_var "APP_VERSION" r.version
    ∷ create_env_var "APP_ENVIRONMENT" r.namespace
    ∷ ((if r.skip_fasit
          then []
          else create_env_var "FASIT_ENVIRONMENT_NAME" r.fasit_environment ∷ [])
        ++ create_env_var "NAIS_NAMESPACE" r.namespace
          ∷ create_env_var "NAIS_APP_NAME" r.application
          ∷ create_env_var "NAIS_APP_IMAGE" r.version
          ∷ create_env_var "NAIS_CLUSTER_NAME" r.cluster_name
          ∷ [])

abbrev same_key : Option SecretKeyRef → Option SecretKeyRef → Bool
same_key none _ = false
same_key (some a) none = false
same_key (some a) (some b) = a.key == b.key

abbrev key_of : Option SecretKeyRef → String
key_of none = ""
key_of (some a) = a.key

abbrev advice : String
advice = " Change the Fasit alias or use propertyMap to create unique variable names"

-- The complaint about `new` beside an existing variable.
unfoldable pub clash : EnvVar → EnvVar → String → NaisResource → Option GoError
clash existing new property res =
    if new.name == existing.name
    then some (
        errorf (
          "found duplicate environment variable " <> existing.name <> " when adding " <> property
          <> " for " <> res.name <> " (" <> res.resource_type <> ")" <> advice))
    else if same_key new.value_from existing.value_from
    then some (
        errorf (
          "found duplicate secret key ref "
          <> key_of existing.value_from
          <> " between "
          <> existing.name
          <> " and "
          <> new.name
          <> " when adding "
          <> property
          <> " for "
          <> res.name
          <> " ("
          <> res.resource_type
          <> ")"
          <> advice))
    else none

unfoldable pub check_for_duplicates : List EnvVar → EnvVar → String → NaisResource → Option GoError
unfolding clash
check_for_duplicates [] new property res = none
check_for_duplicates (existing ∷ env_vars) new property res =
    or_then (clash existing new property res) (check_for_duplicates env_vars new property res)

-- Check a variable and append it.
unfoldable pub add_variable : NaisResource → String × EnvVar → List EnvVar → Outcome (List EnvVar)
add_variable res (property, new) env_vars = elim (check_for_duplicates env_vars new property res) [
  | some e ↦ err e
  | none ↦ ok (env_vars ++ new ∷ [])
]

unfoldable pub add_variables :
    NaisResource → List (String × EnvVar) → List EnvVar → Outcome (List EnvVar)
unfolding add_variable
add_variables res [] env_vars = ok env_vars
add_variables res (item ∷ items) env_vars =
    and_then (add_variable res item env_vars) (add_variables res items)

abbrev pub property_variable : NaisResource → String × String → String × EnvVar
property_variable res (k, v) = (k, create_env_var (to_environment_variable res k) v)

abbrev pub secret_variable : Spec → NaisResource → String × String → String × EnvVar
secret_variable spec res (k, _) = (
  k,
  record {
    name = to_environment_variable res k;
    value = "";
    value_from = some (record { name = resource_name spec; key = to_resource_variable res k });
  },
)

abbrev pub certificate_variable : NaisResource → String × String → String × EnvVar
certificate_variable res (k, _) =
    (k, create_env_var (to_environment_variable res k) (mount_point res k))

-- The three loops over a resource: properties, secrets, certificates.
unfoldable pub resource_variables : Spec → NaisResource → List (String × EnvVar)
resource_variables spec res =
    map (property_variable res) res.properties
    ++ (map (secret_variable spec res) (or_empty res.secret)
        ++ map (certificate_variable res) (or_empty res.certificates))

unfoldable pub add_resources : Spec → List NaisResource → List EnvVar → Outcome (List EnvVar)
unfolding add_variables resource_variables
add_resources spec [] env_vars = ok env_vars
add_resources spec (res ∷ resources) env_vars =
    and_then (add_variables res (resource_variables spec res) env_vars)
      (add_resources spec resources)

-- One variable under the upper-case name and one under the lower-case name.
unfoldable pub append_dual_case_env_var : List EnvVar → String → String → List EnvVar
unfolding to_upper to_lower
append_dual_case_env_var env_vars key value =
    env_vars ++ create_env_var (to_upper key) value ∷ create_env_var (to_lower key) value ∷ []

-- The process environment and url.Parse are parameters.
pub record ProxySettings : Type 0 where
  pub lookup_env : String → Option String
  pub parse_url : String → Outcome Address

-- os.Getenv: the empty text for what is not set
abbrev getenv : ProxySettings → String → String
getenv p name = elim (p.lookup_env name) [ none ↦ "" | some value ↦ value ]

unfoldable pub get_env_dual_case : ProxySettings → String → String
unfolding to_upper to_lower
get_env_dual_case p name = elim (p.lookup_env (to_upper name)) [
  | some value ↦ value
  | none ↦ getenv p (to_lower name)
]

-- The variables that are not for the Java virtual machine.
unfoldable pub with_proxy_variables : String → String → List EnvVar → List EnvVar
unfolding append_dual_case_env_var
with_proxy_variables proxy_url no_proxy env_vars =
    let proxied =
      if proxy_url == ""
      then env_vars
      else append_dual_case_env_var (append_dual_case_env_var env_vars "HTTP_PROXY" proxy_url)
          "HTTPS_PROXY" proxy_url in
    if no_proxy == "" then proxied else append_dual_case_env_var proxied "NO_PROXY" no_proxy

abbrev pub with_java_options : List EnvVar → Outcome String → Outcome (List EnvVar)
with_java_options env_vars (ok options) =
    if options == ""
    then ok env_vars
    else ok (env_vars ++ create_env_var "JAVA_PROXY_OPTIONS" options ∷ [])
with_java_options env_vars (err e) =
    err (errorf ("while converting webproxy settings to Java format: " <> e.text))
with_java_options env_vars panic = panic

unfoldable pub create_proxy_environment_variables :
    ProxySettings → List EnvVar → Outcome (List EnvVar)
unfolding get_env_dual_case with_proxy_variables java_proxy_options
create_proxy_environment_variables p env_vars =
    let proxy_url = get_env_dual_case p "NAIS_POD_HTTP_PROXY" in
    let no_proxy = get_env_dual_case p "NAIS_POD_NO_PROXY" in
    with_java_options (with_proxy_variables proxy_url no_proxy env_vars)
      (java_proxy_options p.parse_url proxy_url no_proxy)

-- What stands before the variables of the resources.
unfoldable pub base_variables : Spec → Deploy → NaisManifest → List EnvVar
unfolding create_default_environment_variables
base_variables spec r manifest =
    create_default_environment_variables r
    ++ (if manifest.redis.enabled
        then create_env_var "REDIS_HOST" ("rfs-" <> resource_name spec) ∷ []
        else [])

unfoldable pub create_environment_variables :
    ProxySettings → Spec → Deploy → NaisManifest → List NaisResource → Outcome (List EnvVar)
unfolding base_variables add_resources create_proxy_environment_variables
create_environment_variables p spec r manifest resources =
    and_then (add_resources spec resources (base_variables spec r manifest)) λ env_vars.
      if manifest.webproxy then create_proxy_environment_variables p env_vars else ok env_vars
