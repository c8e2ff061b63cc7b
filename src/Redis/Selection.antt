-- ===== src/Redis/Selection.antt =====
-- Which pods the service of Redis leads to, and under which name (api/redis.go).
use Prim.Native.String.{count}
use text.Mathlib.TextLemmas.{length-append as count-append}
use nais_api.App.{Spec, resource_name}
use nais_api.Creator.Environment.{
  base_variables, create_default_environment_variables, create_env_var,
}
use nais_api.Creator.Meta.{
  add_labels_to_object_meta, create_object_meta, generate_object_meta, label, label-add_labels,
}
use nais_api.Creator.Network.{create_pod_selector}
use nais_api.Creator.Pod.Laws.{SelectsItsPods}
use nais_api.Kubernetes.Objects.{Deployment, DeploymentSpec, EnvVar, PodSpec}
use nais_api.Manifest.{NaisManifest, Redis}
use nais_api.Prelude.{
  All, All-append, Bool, Option, String, [], ap, arith, eq_iff, false, if◌then◌else◌, none, refl,
  some, subst, true, ◌<>◌, ◌==◌, ◌∷◌, ◌≡◌, ◌≢◌,
}
use nais_api.Prelude.Int.{pos}
use nais_api.Prelude.Outcome.{Outcome, and_then, err, ok, ok-inj, panic}
use nais_api.Prelude.Text.{itoa}
use nais_api.Redis.{
  create_redis_deployment_def, create_redis_deployment_spec, create_redis_pod_spec,
  create_redis_service_def, default_redis_exporter_port, redis_deployment_of, redis_spec_of,
}
use nais_api.Request.{Deploy}

module _ (redis_spec : Spec) where
  abbrev deployment_spec_with : PodSpec → DeploymentSpec
  deployment_spec_with pod_spec = record {
    replicas = some (pos 1);
    selector = create_pod_selector redis_spec;
    strategy = record { type = "Recreate"; max_unavailable = none; max_surge = none };
    progress_deadline_seconds = some (pos 300);
    revision_history_limit = some (pos 10);
    template = record {
      meta = record (generate_object_meta redis_spec) {
        annotations = some (
            ("prometheus.io/scrape", "true")
            ∷ ("prometheus.io/port", itoa default_redis_exporter_port)
            ∷ ("prometheus.io/path", "/metrics")
            ∷ []);
      };
      spec = pod_spec;
    };
  }

  abbrev IsSelected : Deployment → Type 0
  IsSelected d =
      All (λ (k, v). label k d.spec.template.meta ≡ some v)
        (create_redis_service_def redis_spec).spec.selector
      × SelectsItsPods d.spec

  app_label : label "app" (generate_object_meta redis_spec) ≡ some redis_spec.application
  unfolding generate_object_meta
  app_label =
      label-add_labels (create_object_meta (resource_name redis_spec) redis_spec.namespace)
        redis_spec "app"

  redis_deployment_of-IsSelected :
      (existing : Option Deployment) (pod_spec : PodSpec)
      → IsSelected (redis_deployment_of redis_spec existing (deployment_spec_with pod_spec))
  unfolding redis_deployment_of create_redis_service_def create_pod_selector resource_name
  redis_deployment_of-IsSelected none pod_spec = ((app_label, tt), (app_label, tt))
  redis_deployment_of-IsSelected (some d) pod_spec = ((app_label, tt), (app_label, tt))

-- Both the service of an application's Redis and its deployment select the pods of that deployment.
pub redis_service-selects :
    (quantity_error : String → Option String) (spec : Spec) (redis : Redis)
    (existing : Option Deployment) (d : Deployment)
    → create_redis_deployment_def quantity_error (redis_spec_of spec) redis existing ≡ ok d
    → All
        (λ (k, v). label k d.spec.template.meta ≡ some v)
        (create_redis_service_def (redis_spec_of spec)).spec.selector
      × SelectsItsPods d.spec
unfolding create_redis_deployment_def create_redis_deployment_spec
redis_service-selects quantity_error spec redis existing d h =
    go (create_redis_pod_spec quantity_error redis) h
  where
    go :
        (r : Outcome PodSpec)
        → and_then
            (and_then r (λ pod_spec. ok (deployment_spec_with (redis_spec_of spec) pod_spec)))
            (λ deployment_spec.
              ok (redis_deployment_of (redis_spec_of spec) existing deployment_spec))
          ≡ ok d
        → IsSelected (redis_spec_of spec) d
    go (ok pod_spec) e =
        subst (IsSelected (redis_spec_of spec)) (ok-inj _ d e)
          (redis_deployment_of-IsSelected (redis_spec_of spec) existing pod_spec)
    go (err x) e = cc
    go panic e = cc

host_is_no_service : (n : String) → "rfs-" <> n ≢ n <> "-redis"
host_is_no_service n p =
    omega (arith, ap count p, count-append "rfs-" n, count-append n "-redis", affixes.0, affixes.1)
  where
    affixes : (count "rfs-" ≡ 4) × (count "-redis" ≡ 6)
    affixes = (refl, refl)

-- Where a name is not the one looked for, nothing is claimed.
other_name : {A : Type 0} (name other : String) → (name == other) ≡ false → name ≡ other → A
other_name name other e p = absurd (ground (arith, e, p, eq_iff name other))

module _ (spec : Spec) (r : Deploy) (manifest : NaisManifest) where
  abbrev IsNoService : EnvVar → Type 0
  IsNoService v =
      v.name ≡ "REDIS_HOST" → v.value ≢ (create_redis_service_def (redis_spec_of spec)).meta.name

  default_variables-IsNoService : All IsNoService (create_default_environment_variables r)
  unfolding create_default_environment_variables
  default_variables-IsNoService = go r.skip_fasit refl
    where
      go : (b : Bool) → r.skip_fasit ≡ b → All IsNoService (create_default_environment_variables r)
      go true p =
          rw (p, create_default_environment_variables)
            (
              other_name _ _ refl,
              (
                other_name _ _ refl,
                (
                  other_name _ _ refl,
                  (
                    other_name _ _ refl,
                    (other_name _ _ refl, (other_name _ _ refl, (other_name _ _ refl, tt))),
                  ),
                ),
              ),
            )
      go false p =
          rw (p, create_default_environment_variables)
            (
              other_name _ _ refl,
              (
                other_name _ _ refl,
                (
                  other_name _ _ refl,
                  (
                    other_name _ _ refl,
                    (
                      other_name _ _ refl,
                      (other_name _ _ refl, (other_name _ _ refl, (other_name _ _ refl, tt))),
                    ),
                  ),
                ),
              ),
            )

  redis_variable-IsNoService :
      (enabled : Bool)
      → All IsNoService
          (if enabled then create_env_var "REDIS_HOST" ("rfs-" <> resource_name spec) ∷ [] else [])
  unfolding create_redis_service_def redis_spec_of resource_name generate_object_meta
      create_object_meta add_labels_to_object_meta
  redis_variable-IsNoService true = ((λ _. host_is_no_service spec.application), tt)
  redis_variable-IsNoService false = tt

  -- The variable REDIS_HOST never names the Redis service that is made for the application.
  pub redis_host-ne_service :
      All
        (λ (v : EnvVar).
          v.name ≡ "REDIS_HOST"
          → v.value ≢ (create_redis_service_def (redis_spec_of spec)).meta.name)
        (base_variables spec r manifest)
  unfolding base_variables
  redis_host-ne_service =
      All-append IsNoService (create_default_environment_variables r) _
        default_variables-IsNoService (redis_variable-IsNoService manifest.redis.enabled)
