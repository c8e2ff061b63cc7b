-- ===== src/Manifest/Validation/Valid.antt =====
-- What a valid manifest is, apart from the checks (api/manifest.go, api/prometheus.go).
use nais_api.Manifest.{
  ExposedResource, NaisManifest, PrometheusAlertRule, ResourceList, UsedResource,
}
use nais_api.Manifest.Defaults.{strategy_recreate, strategy_rolling_update}
use nais_api.Prelude.{All, Option, String, none, ◌≡◌, ◌≢◌, ◌≤◌, ◌⊎◌}
use nais_api.Prelude.Dict.{lookup}
use nais_api.Prelude.Int.{pos, ◌≤ℤ◌}
use nais_api.Prelude.Text.{last_position}

abbrev pub IsNamed : String → String → Type 0
IsNamed alias resource_type = (resource_type ≢ "") × (alias ≢ "")

abbrev pub IsFullRule : PrometheusAlertRule → Type 0
IsFullRule rule = (rule.alert ≢ "") × (rule.expr ≢ "") × (lookup "action" rule.annotations ≢ none)

-- The condition that guards a check of a Redis quantity fails, or the quantity is good.
abbrev pub IsUnguardedOr : ResourceList → String → Type 0 → Type 0
IsUnguardedOr guard value P = ((guard.cpu ≡ "") × (guard.memory ≡ "")) ⊎ ((value ≡ "") ⊎ P)

module _ (quantity_error : String → Option String) where
  pub record IsValid (m : NaisManifest) : Type 0 where
    pub image_untagged : last_position ":" m.image ≤ last_position "/" m.image
    pub max_set : m.replicas.max ≢ pos 0
    pub min_set : m.replicas.min ≢ pos 0
    pub min_le_max : m.replicas.min ≤ℤ m.replicas.max
    pub threshold_low : pos 10 ≤ℤ m.replicas.cpu_threshold_percentage
    pub threshold_high : m.replicas.cpu_threshold_percentage ≤ℤ pos 90
    pub request_memory : quantity_error m.resources.requests.memory ≡ none
    pub limit_memory : quantity_error m.resources.limits.memory ≡ none
    pub request_cpu : quantity_error m.resources.requests.cpu ≡ none
    pub limit_cpu : quantity_error m.resources.limits.cpu ≡ none
    pub exposed_named :
        All (λ (r : ExposedResource). IsNamed r.alias r.resource_type) m.fasit_resources.exposed
    pub used_named :
        All (λ (r : UsedResource). IsNamed r.alias r.resource_type) m.fasit_resources.used
    pub alerts_complete : All IsFullRule m.alerts
    pub strategy_known :
        (m.deployment_strategy ≡ strategy_rolling_update)
        ⊎ (m.deployment_strategy ≡ strategy_recreate)
    pub redis_request_memory :
        IsUnguardedOr m.redis.requests m.redis.requests.memory
          (quantity_error m.redis.requests.memory ≡ none)
    pub redis_limit_memory :
        IsUnguardedOr m.redis.requests m.redis.limits.memory
          (quantity_error m.redis.limits.memory ≡ none)
    pub redis_request_cpu :
        IsUnguardedOr m.redis.limits m.redis.requests.cpu
          (quantity_error m.redis.requests.cpu ≡ none)
    pub redis_limit_cpu :
        IsUnguardedOr m.redis.limits m.redis.limits.cpu (quantity_error m.redis.limits.cpu ≡ none)
