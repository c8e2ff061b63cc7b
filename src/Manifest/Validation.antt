-- ===== src/Manifest/Validation.antt =====
-- api/manifest.go, `ValidateManifest` and the checks that it runs, with `validateAlertRules` of
-- api/prometheus.go.
pub mod Laws
pub mod Valid
use nais_api.Manifest.{
  ExposedResource, NaisManifest, PrometheusAlertRule, ResourceList, UsedResource, ValidationError,
}
use nais_api.Manifest.Defaults.{strategy_recreate, strategy_rolling_update}
use nais_api.Prelude.{
  Bool, List, Option, String, [], if◌then◌else◌, ltb, none, not, some, ◌&&◌, ◌<>◌, ◌==◌, ◌||◌, ◌∷◌,
}
use nais_api.Prelude.Dict.{Dict, lookup}
use nais_api.Prelude.Int.{eqb_ℤ, ltb_ℤ, pos}
use nais_api.Prelude.Text.{itoa, last_position}

abbrev Check : Type 0
Check = NaisManifest → Option ValidationError

-- A check that some value is given.
unfoldable pub unnamed_resource : String → String → Option ValidationError
unnamed_resource alias resource_type =
    if resource_type == "" || alias == ""
    then some (record {
      error_message = "Alias and ResourceType must be specified";
      fields = ("Alias", alias) ∷ [];
    })
    else none

-- The first complaint, if there is one.
abbrev pub or_then {ℓ} : {A : Type ℓ} → Option A → Option A → Option A
or_then (some a) later = some a
or_then none later = later

unfoldable pub check_exposed : List ExposedResource → Option ValidationError
unfolding unnamed_resource
check_exposed [] = none
check_exposed (r ∷ rs) = or_then (unnamed_resource r.alias r.resource_type) (check_exposed rs)

unfoldable pub check_used : List UsedResource → Option ValidationError
unfolding unnamed_resource
check_used [] = none
check_used (r ∷ rs) = or_then (unnamed_resource r.alias r.resource_type) (check_used rs)

unfoldable pub validate_resources : NaisManifest → Option ValidationError
unfolding check_exposed check_used
validate_resources m =
    or_then (check_exposed m.fasit_resources.exposed) (check_used m.fasit_resources.used)

-- strings.LastIndex(image, ":") > strings.LastIndex(image, "/")
unfoldable pub validate_image : NaisManifest → Option ValidationError
validate_image m =
    if ltb (last_position "/" m.image) (last_position ":" m.image)
    then some
        (record { error_message = "Image cannot contain tag"; fields = ("Image", m.image) ∷ [] })
    else none

unfoldable pub validate_cpu_threshold : NaisManifest → Option ValidationError
validate_cpu_threshold m =
    let threshold = m.replicas.cpu_threshold_percentage in
    if ltb_ℤ threshold (pos 10) || ltb_ℤ (pos 90) threshold
    then some (record {
      error_message = "CpuThreshold must be between 10 and 90.";
      fields = ("Replicas.CpuThreshold", itoa threshold) ∷ [];
    })
    else none

unfoldable pub validate_min_is_smaller_than_max : NaisManifest → Option ValidationError
validate_min_is_smaller_than_max m =
    if ltb_ℤ m.replicas.max m.replicas.min
    then some (record {
      error_message = "Replicas.Min is larger than Replicas.Max.";
      fields = ("Replicas.Max", itoa m.replicas.max) ∷ ("Replicas.Min", itoa m.replicas.min) ∷ [];
    })
    else none

unfoldable pub validate_replicas_min : NaisManifest → Option ValidationError
validate_replicas_min m =
    if eqb_ℤ m.replicas.min (pos 0)
    then some (record {
      error_message = "Replicas.Min is not set";
      fields = ("Replicas.Min", itoa m.replicas.min) ∷ [];
    })
    else none

unfoldable pub validate_replicas_max : NaisManifest → Option ValidationError
validate_replicas_max m =
    if eqb_ℤ m.replicas.max (pos 0)
    then some (record {
      error_message = "Replicas.Max is not set";
      fields = ("Replicas.Max", itoa m.replicas.max) ∷ [];
    })
    else none

unfoldable pub validate_deployment_strategy : NaisManifest → Option ValidationError
validate_deployment_strategy m =
    if not (
      m.deployment_strategy == strategy_rolling_update
      || m.deployment_strategy == strategy_recreate)
    then some (record {
      error_message = "Not valid DeploymentStrategy, use RollingUpdate or Recreate";
      fields = ("DeploymentStrategy", m.deployment_strategy) ∷ [];
    })
    else none

unfoldable pub check_alert_rule : PrometheusAlertRule → Option ValidationError
check_alert_rule rule =
    if rule.alert == ""
    then some
        (record { error_message = "Alert must be specified"; fields = ("Alert", rule.alert) ∷ [] })
    else if rule.expr == ""
    then some
        (record { error_message = "Expr must be specified"; fields = ("Expr", rule.expr) ∷ [] })
    else elim (lookup "action" rule.annotations) [
      | some action ↦ none
      | none ↦ some (record {
        error_message = "An annotation named action must be specified";
        fields = ("annotations[action]", "") ∷ [];
      })
    ]

unfoldable pub check_alert_rules : List PrometheusAlertRule → Option ValidationError
unfolding check_alert_rule
check_alert_rules [] = none
check_alert_rules (rule ∷ rules) = or_then (check_alert_rule rule) (check_alert_rules rules)

unfoldable pub validate_alert_rules : NaisManifest → Option ValidationError
unfolding check_alert_rules
validate_alert_rules m = check_alert_rules m.alerts

unfoldable pub is_empty_list : ResourceList → Bool
is_empty_list r = r.cpu == "" && r.memory == ""

-- `quantity_error` is the error of `ParseQuantity` of k8s.io/apimachinery, none for a quantity.
module _ (quantity_error : String → Option String) where
  unfoldable pub check_quantity : String → String → Option ValidationError
  check_quantity key value = elim (quantity_error value) [
    | none ↦ none
    | some e ↦
        some (record { error_message = "not a valid quantity. " <> e; fields = (key, value) ∷ [] })
  ]

  unfoldable pub validate_request_memory_quantity : NaisManifest → Option ValidationError
  unfolding check_quantity
  validate_request_memory_quantity m =
      check_quantity "Resources.Requests.Memory" m.resources.requests.memory

  unfoldable pub validate_limits_memory_quantity : NaisManifest → Option ValidationError
  unfolding check_quantity
  validate_limits_memory_quantity m =
      check_quantity "Resources.Limits.Memory" m.resources.limits.memory

  unfoldable pub validate_request_cpu_quantity : NaisManifest → Option ValidationError
  unfolding check_quantity
  validate_request_cpu_quantity m = check_quantity "Resources.Request.Cpu" m.resources.requests.cpu

  unfoldable pub validate_limits_cpu_quantity : NaisManifest → Option ValidationError
  unfolding check_quantity
  validate_limits_cpu_quantity m = check_quantity "Resources.Limits.Cpu" m.resources.limits.cpu

  -- `if <list> != *new(ResourceList) && <value> != ""`
  abbrev check_redis : ResourceList → String → String → Option ValidationError
  check_redis guard key value =
      if not (is_empty_list guard) && not (value == "") then check_quantity key value else none

  unfoldable pub validate_redis_request_memory_quantity : NaisManifest → Option ValidationError
  unfolding check_quantity is_empty_list
  validate_redis_request_memory_quantity m =
      check_redis m.redis.requests "Redis.Requests.Memory" m.redis.requests.memory

  unfoldable pub validate_redis_limits_memory_quantity : NaisManifest → Option ValidationError
  unfolding check_quantity is_empty_list
  validate_redis_limits_memory_quantity m =
      check_redis m.redis.requests "Redis.Limits.Memory" m.redis.limits.memory

  unfoldable pub validate_redis_request_cpu_quantity : NaisManifest → Option ValidationError
  unfolding check_quantity is_empty_list
  validate_redis_request_cpu_quantity m =
      check_redis m.redis.limits "Redis.Request.Cpu" m.redis.requests.cpu

  unfoldable pub validate_redis_limits_cpu_quantity : NaisManifest → Option ValidationError
  unfolding check_quantity is_empty_list
  validate_redis_limits_cpu_quantity m =
      check_redis m.redis.limits "Redis.Limits.Cpu" m.redis.limits.cpu

  abbrev validations : List Check
  validations =
      validate_image ∷ validate_replicas_max ∷ validate_replicas_min
      ∷ validate_min_is_smaller_than_max ∷ validate_cpu_threshold ∷ validate_request_memory_quantity
      ∷ validate_limits_memory_quantity ∷ validate_request_cpu_quantity
      ∷ validate_limits_cpu_quantity ∷ validate_resources ∷ validate_alert_rules
      ∷ validate_deployment_strategy ∷ validate_redis_request_memory_quantity
      ∷ validate_redis_limits_memory_quantity ∷ validate_redis_request_cpu_quantity
      ∷ validate_redis_limits_cpu_quantity ∷ []

  abbrev run_checks : List Check → NaisManifest → List ValidationError
  run_checks [] m = []
  run_checks (check ∷ checks) m =
      let rest = run_checks checks m in elim (check m) [ none ↦ rest | some e ↦ e ∷ rest ]

  unfoldable pub validate_manifest : NaisManifest → List ValidationError
  validate_manifest m = run_checks validations m

-- `Error` of the collected errors
unfoldable pub describe_fields : Dict String → String
describe_fields [] = ""
describe_fields ((k, v) ∷ fields) = (" - " <> k <> ": " <> v <> ".\n") <> describe_fields fields

unfoldable pub describe_errors : List ValidationError → String
unfolding describe_fields
describe_errors [] = ""
describe_errors (e ∷ es) =
    (e.error_message <> "\n" <> describe_fields e.fields) <> describe_errors es
