-- ===== src/Manifest/Validation/Laws.antt =====
-- What a manifest without validation errors satisfies (api/manifest.go).
use nais_api.Manifest.{
  ExposedResource, NaisManifest, PrometheusAlertRule, ResourceList, UsedResource, ValidationError,
}
use nais_api.Manifest.Defaults.{strategy_recreate, strategy_rolling_update}
use nais_api.Manifest.Validation.{
  check_alert_rule, check_alert_rules, check_exposed, check_quantity, check_redis, check_used,
  is_empty_list, run_checks, unnamed_resource, validate_alert_rules, validate_cpu_threshold,
  validate_deployment_strategy, validate_image, validate_limits_cpu_quantity,
  validate_limits_memory_quantity, validate_manifest, validate_min_is_smaller_than_max,
  validate_redis_limits_cpu_quantity, validate_redis_limits_memory_quantity,
  validate_redis_request_cpu_quantity, validate_redis_request_memory_quantity,
  validate_replicas_max, validate_replicas_min, validate_request_cpu_quantity,
  validate_request_memory_quantity, validate_resources, validations,
}
use nais_api.Manifest.Validation.Valid.{IsFullRule, IsNamed, IsUnguardedOr, IsValid}
use nais_api.Prelude.{All, List, Option, String, [], arith, eq_iff, none, refl, ◌↔◌, ◌∷◌, ◌≡◌}

unnamed_resource-eq_none :
    (alias type : String) → (unnamed_resource alias type ≡ none) ↔ IsNamed alias type
unfolding unnamed_resource
unnamed_resource-eq_none alias type = ground (arith, eq_iff type "", eq_iff alias "")

check_exposed-eq_none :
    (rs : List ExposedResource)
    → (check_exposed rs ≡ none) ↔ All (λ r. IsNamed r.alias r.resource_type) rs
unfolding check_exposed
check_exposed-eq_none [] = (λ _. tt, λ _. refl)
check_exposed-eq_none (r ∷ rs) =
    ground (arith, eq_iff r.resource_type "", eq_iff r.alias "", check_exposed-eq_none rs)

check_used-eq_none :
    (rs : List UsedResource)
    → (check_used rs ≡ none) ↔ All (λ r. IsNamed r.alias r.resource_type) rs
unfolding check_used
check_used-eq_none [] = (λ _. tt, λ _. refl)
check_used-eq_none (r ∷ rs) =
    ground (arith, eq_iff r.resource_type "", eq_iff r.alias "", check_used-eq_none rs)

check_alert_rule-eq_none :
    (rule : PrometheusAlertRule) → (check_alert_rule rule ≡ none) ↔ IsFullRule rule
unfolding check_alert_rule
check_alert_rule-eq_none rule = ground (arith, eq_iff rule.alert "", eq_iff rule.expr "")

check_alert_rules-eq_none :
    (rules : List PrometheusAlertRule) → (check_alert_rules rules ≡ none) ↔ All IsFullRule rules
unfolding check_alert_rules
check_alert_rules-eq_none [] = (λ _. tt, λ _. refl)
check_alert_rules-eq_none (rule ∷ rules) =
    ground (arith, eq_iff rule.alert "", eq_iff rule.expr "", check_alert_rules-eq_none rules)

infixr 2 ◌&◌
abbrev ◌&◌ {ℓ} : {A B : Type ℓ} → A → B → A × B
a & b = (a, b)

module _ (quantity_error : String → Option String) (m : NaisManifest) where
  run_checks-eq_nil :
      (checks : List (NaisManifest → Option ValidationError))
      → (run_checks quantity_error checks m ≡ []) ↔ All (λ check. check m ≡ none) checks
  run_checks-eq_nil [] = (λ _. tt, λ _. refl)
  run_checks-eq_nil (check ∷ checks) = ground (arith, run_checks-eq_nil checks)

  validate_resources-eq_none : (validate_resources m ≡ none) ↔ (
      All (λ (r : ExposedResource). IsNamed r.alias r.resource_type) m.fasit_resources.exposed
      × All (λ (r : UsedResource). IsNamed r.alias r.resource_type) m.fasit_resources.used)
  unfolding validate_resources
  validate_resources-eq_none = ground (
    arith,
    check_exposed-eq_none m.fasit_resources.exposed,
    check_used-eq_none m.fasit_resources.used,
  )

  check_redis-eq_none :
      (guard : ResourceList) (key value : String)
      → (check_redis quantity_error guard key value ≡ none)
        ↔ IsUnguardedOr guard value (quantity_error value ≡ none)
  unfolding check_quantity is_empty_list
  check_redis-eq_none guard key value =
      ground (arith, eq_iff guard.cpu "", eq_iff guard.memory "", eq_iff value "")

  passed_of_valid :
      IsValid quantity_error m → All (λ check. check m ≡ none) (validations quantity_error)
  passed_of_valid v =
      (unfold validate_image in ground (arith, v.image_untagged))
      & (unfold validate_replicas_max in ground (arith, v.max_set))
      & (unfold validate_replicas_min in ground (arith, v.min_set))
      & (unfold validate_min_is_smaller_than_max in ground (arith, v.min_le_max))
      & (unfold validate_cpu_threshold in ground (arith, v.threshold_low, v.threshold_high))
      & (unfold validate_request_memory_quantity in ground (arith, v.request_memory))
      & (unfold validate_limits_memory_quantity in ground (arith, v.limit_memory))
      & (unfold validate_request_cpu_quantity in ground (arith, v.request_cpu))
      & (unfold validate_limits_cpu_quantity in ground (arith, v.limit_cpu))
      & (validate_resources-eq_none.1 (v.exposed_named, v.used_named))
      & (unfold validate_alert_rules in (check_alert_rules-eq_none m.alerts).1 v.alerts_complete)
      & (unfold validate_deployment_strategy in
          ground (
            arith,
            v.strategy_known,
            eq_iff m.deployment_strategy strategy_rolling_update,
            eq_iff m.deployment_strategy strategy_recreate,
          ))
      & (unfold validate_redis_request_memory_quantity in
          (check_redis-eq_none _ _ _).1 v.redis_request_memory)
      & (unfold validate_redis_limits_memory_quantity in
          (check_redis-eq_none _ _ _).1 v.redis_limit_memory)
      & (unfold validate_redis_request_cpu_quantity in
          (check_redis-eq_none _ _ _).1 v.redis_request_cpu)
      & (unfold validate_redis_limits_cpu_quantity in
          (check_redis-eq_none _ _ _).1 v.redis_limit_cpu)
      & tt

  IsValid-of_passed :
      All (λ check. check m ≡ none) (validations quantity_error) → IsValid quantity_error m
  IsValid-of_passed
        (
          image,
          (
            max_set,
            (
              min_set,
              (
                ordered,
                (
                  threshold,
                  (
                    request_memory,
                    (
                      limit_memory,
                      (
                        request_cpu,
                        (
                          limit_cpu,
                          (
                            named,
                            (alerts, (strategy, (redis_rm, (redis_lm, (redis_rc, (redis_lc, _)))))),
                          ),
                        ),
                      ),
                    ),
                  ),
                ),
              ),
            ),
          ),
        ) =
      record {
        image_untagged = unfold validate_image in ground arith;
        max_set = unfold validate_replicas_max in ground arith;
        min_set = unfold validate_replicas_min in ground arith;
        min_le_max = unfold validate_min_is_smaller_than_max in ground arith;
        threshold_low = unfold validate_cpu_threshold in ground arith;
        threshold_high = unfold validate_cpu_threshold in ground arith;
        request_memory = unfold validate_request_memory_quantity in ground arith;
        limit_memory = unfold validate_limits_memory_quantity in ground arith;
        request_cpu = unfold validate_request_cpu_quantity in ground arith;
        limit_cpu = unfold validate_limits_cpu_quantity in ground arith;
        exposed_named = (validate_resources-eq_none.0 named).0;
        used_named = (validate_resources-eq_none.0 named).1;
        alerts_complete =
            unfold validate_alert_rules in (check_alert_rules-eq_none m.alerts).0 alerts;
        strategy_known =
            unfold validate_deployment_strategy in
            ground (
              arith,
              eq_iff m.deployment_strategy strategy_rolling_update,
              eq_iff m.deployment_strategy strategy_recreate,
            );
        redis_request_memory =
            unfold validate_redis_request_memory_quantity in (check_redis-eq_none _ _ _).0 redis_rm;
        redis_limit_memory =
            unfold validate_redis_limits_memory_quantity in (check_redis-eq_none _ _ _).0 redis_lm;
        redis_request_cpu =
            unfold validate_redis_request_cpu_quantity in (check_redis-eq_none _ _ _).0 redis_rc;
        redis_limit_cpu =
            unfold validate_redis_limits_cpu_quantity in (check_redis-eq_none _ _ _).0 redis_lc;
      }

  -- `ValidateManifest` reports no error exactly for the manifests that `IsValid` describes.
  pub validate_manifest-eq_nil :
      (validate_manifest quantity_error m ≡ []) ↔ IsValid quantity_error m
  unfolding validate_manifest
  validate_manifest-eq_nil = (
    λ h. IsValid-of_passed ((run_checks-eq_nil (validations quantity_error)).0 h),
    λ v. (run_checks-eq_nil (validations quantity_error)).1 (passed_of_valid v),
  )
