-- ===== src/Redis/Laws.antt =====
-- When the Redis pod can be made, and under which name it is reached (api/redis.go and api/manifest.go).
use nais_api.Creator.Containers.{create_resource_limits, must_parse}
use nais_api.Creator.Pod.Calm.{IsQuantity, amounts_of, create_resource_limits-eq_ok}
use nais_api.Kubernetes.Objects.{Container}
use nais_api.Manifest.{NaisManifest, Redis, ResourceList, ValidationError, no_amounts}
use nais_api.Manifest.Validation.{
  is_empty_list, validate_redis_limits_cpu_quantity, validate_redis_limits_memory_quantity,
  validate_redis_request_cpu_quantity, validate_redis_request_memory_quantity,
}
use nais_api.Prelude.{
  Bool, Bool-cases, Option, String, [], arith, eq_iff, false, if◌then◌else◌, inl, inr, map, none,
  refl, some, ◌&&◌, ◌==◌, ◌∷◌, ◌≡◌, ◌≢◌,
}
use nais_api.Prelude.Outcome.{and_then, ok, panic}
use nais_api.Redis.{create_redis_pod_spec, or_default, update_default_redis_values}

-- What the amount of Redis comes to be: the manifest's, or the default for an empty one.
redis_amount-IsQuantity :
    (quantity_error : String → Option String) (value default : String)
    → IsQuantity quantity_error default
    → ((value ≢ "") → IsQuantity quantity_error value)
    → IsQuantity quantity_error (or_default value default)
redis_amount-IsQuantity quantity_error value default hd hv = elim (Bool-cases (value == "")) [
  | inl e ↦ rw e hd
  | inr e ↦ rw e (hv λ p. ground (arith, e, p, eq_iff value ""))
]

-- The amounts which the program itself fills in are quantities.
pub record DefaultsAreQuantities (quantity_error : String → Option String) : Type 0 where
  pub cpu : quantity_error "100m" ≡ none
  pub memory : quantity_error "128Mi" ≡ none
  pub exporter_memory : quantity_error "100Mi" ≡ none

-- Each amount is empty or a quantity.
abbrev pub IsGivenWell : (String → Option String) → ResourceList → Type 0
IsGivenWell quantity_error r =
    ((r.cpu ≢ "") → quantity_error r.cpu ≡ none)
    × ((r.memory ≢ "") → quantity_error r.memory ≡ none)

module _ (quantity_error : String → Option String) (redis : Redis) where
  -- If every amount of the manifest's Redis is empty or a quantity, then the Redis pod is made, with
  -- the default for each empty amount.
  pub create_redis_pod_spec-eq_ok :
      DefaultsAreQuantities quantity_error
      → IsGivenWell quantity_error redis.requests
      → IsGivenWell quantity_error redis.limits
      → and_then
          (create_redis_pod_spec quantity_error (update_default_redis_values redis))
          (λ pod. ok (map (λ (c : Container). c.resources) pod.containers))
        ≡ ok (
            amounts_of
              (or_default redis.requests.cpu "100m")
              (or_default redis.requests.memory "128Mi")
              (or_default redis.limits.cpu "100m")
              (or_default redis.limits.memory "128Mi")
            ∷ amounts_of "100m" "100Mi" "100m" "100Mi"
            ∷ [])
  unfolding create_redis_pod_spec update_default_redis_values
  create_redis_pod_spec-eq_ok d requests limits =
      rw
        (
          create_resource_limits-eq_ok quantity_error (or_default redis.requests.cpu "100m")
              (or_default redis.requests.memory "128Mi") (or_default redis.limits.cpu "100m")
              (or_default redis.limits.memory "128Mi")
              (redis_amount-IsQuantity quantity_error redis.requests.cpu "100m" d.cpu requests.0)
              (redis_amount-IsQuantity quantity_error redis.requests.memory "128Mi" d.memory
                requests.1)
              (redis_amount-IsQuantity quantity_error redis.limits.cpu "100m" d.cpu limits.0)
              (redis_amount-IsQuantity quantity_error redis.limits.memory "128Mi" d.memory
                limits.1),
          create_resource_limits-eq_ok quantity_error "100m" "100Mi" "100m" "100Mi" d.cpu
              d.exporter_memory d.cpu d.exporter_memory,
        )
        refl

-- The four checks that the validation makes of Redis.
abbrev pub PassesRedisChecks : (String → Option String) → NaisManifest → Type 0
PassesRedisChecks quantity_error m =
    (validate_redis_request_memory_quantity quantity_error m ≡ none)
    × (validate_redis_limits_memory_quantity quantity_error m ≡ none)
    × (validate_redis_request_cpu_quantity quantity_error m ≡ none)
    × (validate_redis_limits_cpu_quantity quantity_error m ≡ none)

module _ (quantity_error : String → Option String) (m : NaisManifest) where
  unasked :
      (asked : Bool) (e : Option ValidationError) → (if asked && false then e else none) ≡ none
  unasked asked e = ground arith

  bad_limit-panics :
      DefaultsAreQuantities quantity_error
      → m.redis.requests ≡ no_amounts
      → m.redis.limits.cpu ≡ ""
      → m.redis.limits.memory ≢ ""
      → (e : String) → quantity_error m.redis.limits.memory ≡ some e
      → create_redis_pod_spec quantity_error (update_default_redis_values m.redis) ≡ panic
  unfolding create_redis_pod_spec update_default_redis_values create_resource_limits must_parse
  bad_limit-panics d requests cpu given e bad = elim (Bool-cases (m.redis.limits.memory == "")) [
    | inl p ↦ absurd (given (ground (arith, p, eq_iff m.redis.limits.memory "")))
    | inr p ↦ rw (requests, cpu, p, d.cpu, d.memory, bad, must_parse) refl
  ]

  -- A memory limit for Redis is not looked at if no request is given: the checks pass, and if the
  -- limit is not a quantity, then making the pod panics.
  pub redis_memory_limit-unchecked :
      DefaultsAreQuantities quantity_error
      → m.redis.requests ≡ no_amounts
      → m.redis.limits.cpu ≡ ""
      → m.redis.limits.memory ≢ ""
      → (e : String) → quantity_error m.redis.limits.memory ≡ some e
      → PassesRedisChecks quantity_error m
        × (create_redis_pod_spec quantity_error (update_default_redis_values m.redis) ≡ panic)
  unfolding validate_redis_request_memory_quantity validate_redis_limits_memory_quantity
      validate_redis_request_cpu_quantity validate_redis_limits_cpu_quantity is_empty_list
  redis_memory_limit-unchecked d requests cpu given e bad = (
    (rw requests refl, rw requests refl, rw requests (unasked _ _), rw cpu (unasked _ _)),
    bad_limit-panics d requests cpu given e bad,
  )
