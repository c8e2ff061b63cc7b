-- ===== src/Creator/Pod/Calm.antt =====
-- Why the pod of a valid manifest is made without a panic (api/resourcecreator.go).
use nais_api.App.{Spec}
use nais_api.Creator.Containers.{
  create_leader_election_container, create_resource_limits, main_pod, must_parse,
}
use nais_api.Creator.Environment.{
  ProxySettings, add_resources, add_variable, add_variables, base_variables, check_for_duplicates,
  create_environment_variables, create_proxy_environment_variables, get_env_dual_case,
  resource_variables, with_java_options, with_proxy_variables,
}
use nais_api.Creator.Pod.{
  Platform, create_pod_spec, with_certificates, with_leader_election, with_vault,
}
use nais_api.Fasit.{NaisResource}
use nais_api.Kubernetes.Objects.{EnvVar, PodSpec, ResourceAmounts}
use nais_api.Manifest.{NaisManifest}
use nais_api.Manifest.Validation.Valid.{IsValid}
use nais_api.Prelude.{
  Bool-cases, List, Option, String, [], arith, inl, inr, none, refl, some, ◌&&◌, ◌==◌, ◌||◌, ◌∷◌,
  ◌≡◌, ◌≢◌,
}
use nais_api.Prelude.Outcome.{GoError, Outcome, and_then, and_then-ne_panic, err, ok, panic}
use nais_api.Proxy.{Address, JavaOption, formatted, http_opts, java_proxy_options, proxy_options}
use nais_api.Request.{Deploy}
use nais_api.Vault.{
  VaultSettings, add_vault_containers, config_errors, new_initializer, read_config, vault_enabled,
}

err-ne_panic : {A : Type 0} (e : GoError) → (Path (Outcome A) (err e) panic) → ⊥
err-ne_panic e h = cc

ok-ne_panic : {A : Type 0} (a : A) → (Path (Outcome A) (ok a) panic) → ⊥
ok-ne_panic a h = cc

add_variables-ne_panic :
    (res : NaisResource) (items : List (String × EnvVar)) (env_vars : List EnvVar)
    → add_variables res items env_vars ≢ panic
unfolding add_variables
add_variables-ne_panic res [] env_vars = ok-ne_panic env_vars
add_variables-ne_panic res ((property, new) ∷ items) env_vars =
    and_then-ne_panic (add_variable res (property, new) env_vars) (add_variables res items)
      (go (check_for_duplicates env_vars new property res) refl) (add_variables-ne_panic res items)
  where
    go :
        (o : Option GoError)
        → check_for_duplicates env_vars new property res ≡ o
        → add_variable res (property, new) env_vars ≢ panic
    go none p h = cc (rw (p, add_variable) at h)
    go (some e) p h = cc (rw (p, add_variable) at h)

add_resources-ne_panic :
    (spec : Spec) (resources : List NaisResource) (env_vars : List EnvVar)
    → add_resources spec resources env_vars ≢ panic
unfolding add_resources
add_resources-ne_panic spec [] env_vars = ok-ne_panic env_vars
add_resources-ne_panic spec (res ∷ resources) env_vars =
    and_then-ne_panic (add_variables res (resource_variables spec res) env_vars)
      (add_resources spec resources)
      (add_variables-ne_panic res (resource_variables spec res) env_vars)
      (add_resources-ne_panic spec resources)

-- url.Parse returns, for every text.
abbrev pub ParsesUrls : ProxySettings → Type 0
ParsesUrls p = (url : String) → p.parse_url url ≢ panic

module _ (p : ProxySettings) (calm : ParsesUrls p) where
  proxy_options-ne_panic :
      (flags : List JavaOption) (u : Address) → proxy_options p.parse_url flags u ≢ panic
  proxy_options-ne_panic flags u h = ground (arith, h)

  http_opts-ne_panic :
      (flags : List JavaOption) (proxy_url : String) → http_opts p.parse_url flags proxy_url ≢ panic
  unfolding http_opts
  http_opts-ne_panic flags proxy_url = elim (Bool-cases (proxy_url == "")) [
    | inl e ↦ rw e (ok-ne_panic flags)
    | inr e ↦ rw e (
        and_then-ne_panic (p.parse_url proxy_url) (proxy_options p.parse_url flags) (calm proxy_url)
          (proxy_options-ne_panic flags))
  ]

  formatted-ne_panic :
      (no_proxy : String) (o : Outcome (List JavaOption))
      → o ≢ panic
      → formatted p.parse_url no_proxy o ≢ panic
  formatted-ne_panic no_proxy (ok flags) h = λ e. cc
  formatted-ne_panic no_proxy (err x) h = λ e. cc
  formatted-ne_panic no_proxy panic h = absurd (h refl)

  with_java_options-ne_panic :
      (env_vars : List EnvVar) (o : Outcome String)
      → o ≢ panic
      → with_java_options env_vars o ≢ panic
  with_java_options-ne_panic env_vars (ok options) h = λ e. ground (arith, e)
  with_java_options-ne_panic env_vars (err x) h = λ e. cc
  with_java_options-ne_panic env_vars panic h = absurd (h refl)

  create_proxy_environment_variables-ne_panic :
      (env_vars : List EnvVar) → create_proxy_environment_variables p env_vars ≢ panic
  unfolding create_proxy_environment_variables java_proxy_options
  create_proxy_environment_variables-ne_panic env_vars =
      let proxy_url = get_env_dual_case p "NAIS_POD_HTTP_PROXY" in
      let no_proxy = get_env_dual_case p "NAIS_POD_NO_PROXY" in
      with_java_options-ne_panic (with_proxy_variables proxy_url no_proxy env_vars)
        (java_proxy_options p.parse_url proxy_url no_proxy)
        (formatted-ne_panic no_proxy (http_opts p.parse_url [] proxy_url)
          (http_opts-ne_panic [] proxy_url))

  create_environment_variables-ne_panic :
      (spec : Spec) (r : Deploy) (manifest : NaisManifest) (resources : List NaisResource)
      → create_environment_variables p spec r manifest resources ≢ panic
  unfolding create_environment_variables
  create_environment_variables-ne_panic spec r manifest resources =
      and_then-ne_panic (add_resources spec resources (base_variables spec r manifest)) _
        (add_resources-ne_panic spec resources (base_variables spec r manifest))
        λ env_vars. elim (Bool-cases manifest.webproxy) [
          | inl e ↦ rw e (create_proxy_environment_variables-ne_panic env_vars)
          | inr e ↦ rw e (ok-ne_panic env_vars)
        ]

abbrev pub amounts_of : String → String → String → String → ResourceAmounts
amounts_of requests_cpu requests_memory limits_cpu limits_memory = record {
  requests = ("cpu", requests_cpu) ∷ ("memory", requests_memory) ∷ [];
  limits = ("cpu", limits_cpu) ∷ ("memory", limits_memory) ∷ [];
}

module _ (quantity_error : String → Option String) where
  -- The text is a quantity.
  abbrev pub IsQuantity : String → Type 0
  IsQuantity text = quantity_error text ≡ none

  must_parse-IsQuantity :
      (text : String) → IsQuantity text → must_parse quantity_error text ≡ ok text
  unfolding must_parse
  must_parse-IsQuantity text h = rw (h, must_parse) refl

  -- Amounts that are quantities are taken as they are.
  pub create_resource_limits-eq_ok :
      (requests_cpu requests_memory limits_cpu limits_memory : String)
      → IsQuantity requests_cpu
      → IsQuantity requests_memory
      → IsQuantity limits_cpu
      → IsQuantity limits_memory
      → create_resource_limits quantity_error requests_cpu requests_memory limits_cpu limits_memory
        ≡ ok (amounts_of requests_cpu requests_memory limits_cpu limits_memory)
  unfolding create_resource_limits
  create_resource_limits-eq_ok rc rm lc lm hrc hrm hlc hlm =
      rw
        (
          must_parse-IsQuantity rc hrc,
          must_parse-IsQuantity rm hrm,
          must_parse-IsQuantity lc hlc,
          must_parse-IsQuantity lm hlm,
        )
        refl

  with_leader_election-ne_panic :
      IsQuantity "100m"
      → (spec : Spec) (manifest : NaisManifest) (pod : PodSpec)
      → with_leader_election quantity_error spec manifest pod ≢ panic
  unfolding with_leader_election create_leader_election_container
  with_leader_election-ne_panic h spec manifest pod = elim (Bool-cases manifest.leader_election) [
    | inl e ↦ rw (e, must_parse-IsQuantity "100m" h) (ok-ne_panic _)
    | inr e ↦ rw e (ok-ne_panic pod)
  ]

with_vault-ne_panic :
    (v : VaultSettings) (spec : Spec) (manifest : NaisManifest) (pod : PodSpec)
    → with_vault v spec manifest pod ≢ panic
unfolding with_vault new_initializer
with_vault-ne_panic v spec manifest pod =
    elim (Bool-cases (vault_enabled v && (manifest.secrets || manifest.vault.enabled))) [
      | inl e ↦ rw e (go (config_errors (read_config v manifest.vault.sidecar)) refl)
      | inr e ↦ rw e (ok-ne_panic pod)
    ]
  where
    go :
        (es : List GoError)
        → config_errors (read_config v manifest.vault.sidecar) ≡ es
        → and_then
            (new_initializer v spec manifest.vault.sidecar)
            (λ initializer. ok (add_vault_containers initializer pod))
          ≢ panic
    go [] e h = cc (rw (e, new_initializer) at h)
    go (x ∷ es) e h = cc (rw (e, new_initializer) at h)

-- If url.Parse returns and "100m" is a quantity, then the pod of a valid manifest is made, or an
-- error says why not: no quantity in it makes MustParse panic.
pub create_pod_spec-ne_panic :
    (p : Platform) (spec : Spec) (request : Deploy) (manifest : NaisManifest)
    (resources : List NaisResource)
    → ParsesUrls p.proxy
    → IsQuantity p.quantity_error "100m"
    → IsValid p.quantity_error manifest
    → create_pod_spec p spec request manifest resources ≢ panic
unfolding create_pod_spec
create_pod_spec-ne_panic p spec request manifest resources calm elector valid =
    and_then-ne_panic (create_environment_variables p.proxy spec request manifest resources) _
      (create_environment_variables-ne_panic p.proxy calm spec request manifest resources)
      λ env_vars.
        rw
          (create_resource_limits-eq_ok p.quantity_error _ _ _ _ valid.request_cpu
            valid.request_memory valid.limit_cpu valid.limit_memory)
          (let pod : PodSpec = main_pod spec request manifest env_vars (
              amounts_of manifest.resources.requests.cpu manifest.resources.requests.memory
                manifest.resources.limits.cpu manifest.resources.limits.memory) in
            and_then-ne_panic (with_leader_election p.quantity_error spec manifest pod)
              (λ pod. with_vault p.vault spec manifest (with_certificates spec resources pod))
              (with_leader_election-ne_panic p.quantity_error elector spec manifest pod)
              λ pod.
                with_vault-ne_panic p.vault spec manifest (with_certificates spec resources pod))
