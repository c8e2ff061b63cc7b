-- ===== src/Creator/Apply/Laws.antt =====
-- Which objects a creation gives back (api/resourcecreator.go).
use nais_api.Alerts.{
  PrometheusAlertGroups, add_rules_to_config_map, alerts_config_map_name,
  alerts_config_map_namespace,
}
use nais_api.App.{Spec}
use nais_api.Creator.Access.{create_or_update_resource, get_existing}
use nais_api.Creator.Accounts.{
  create_or_update_role_binding, create_role_ref, create_service_account_if_not_exist,
}
use nais_api.Creator.Apply.{
  DeploymentResult, create_or_update_alert_rules, create_or_update_autoscaler,
  create_or_update_deployment, create_or_update_ingress, create_or_update_ingress_if_enabled,
  create_or_update_k8s_resources, create_or_update_redis, create_or_update_secret,
  create_or_update_service, or_new,
}
use nais_api.Creator.Meta.{create_object_meta}
use nais_api.Creator.Pod.{Platform}
use nais_api.Fasit.{NaisResource}
use nais_api.Kubernetes.Cluster.{Cluster}
use nais_api.Kubernetes.Objects.{Deployment, Service, config_maps}
use nais_api.Manifest.{NaisManifest, PrometheusAlertRule}
use nais_api.Prelude.{
  Bool, Bool-cases, List, Option, String, [], false, inl, inr, none, refl, some, true, ◌↔◌, ◌∷◌,
  ◌≡◌, ◌≢◌,
}
use nais_api.Prelude.Keeps.{Post, Post-continue, Post-wrap}
use nais_api.Prelude.Outcome.{M, Outcome, err, lift, ok, panic, wrap, ◌>>=◌}
use nais_api.Redis.{
  create_or_update_redis_instance, create_or_update_redis_service, update_default_redis_values,
}
use nais_api.Request.{Deploy}

-- The parts that the manifest asks for, and those that every application has.
pub record IsAsRequested (manifest : NaisManifest) (d : DeploymentResult) : Type 0 where
  pub ingress : (d.ingress ≡ none) ↔ (manifest.ingress.disabled ≡ true)
  pub redis : (d.redis ≡ none) ↔ (manifest.redis.enabled ≡ false)
  pub redis_service : (d.redis_service ≡ none) ↔ (manifest.redis.enabled ≡ false)
  pub alerts : (d.alerts_config_map ≡ none) ↔ (manifest.alerts ≡ [])
  pub deployment : d.deployment ≢ none
  pub service : d.service ≢ none
  pub autoscaler : d.autoscaler ≢ none
  pub service_account : d.service_account ≢ none
  pub role_binding : d.role_binding ≢ none

some-ne_none : {A : Type 0} (a : A) → some a ≢ none
some-ne_none a h = cc

-- An action of which nothing is asked.
pub Post-any : {S A : Type 0} (r : Outcome A × S) → Post r (λ _ _. Unit)
Post-any (ok a, s) = tt
Post-any (err e, s) = tt
Post-any (panic, s) = tt

module _ {S A B : Type 0} where
  pub then_any :
      (m : M S A) (f : A → M S B) (Q : B → S → Type 0) (s : S)
      → ((a : A) (t : S) → Post (f a t) Q)
      → Post ((m >>= f) s) Q
  then_any m f Q s k = Post-continue (m s) f (λ _ _. Unit) Q (Post-any (m s)) (λ a t _. k a t)

module _ (c : Cluster) (p : Platform) (marshal : PrometheusAlertGroups → Outcome String)
    (spec : Spec) (manifest : NaisManifest) where
  abbrev RedisAsAsked : Option Deployment × Option Service → Type 0
  RedisAsAsked (redis, redis_service) =
      ((redis ≡ none) ↔ (manifest.redis.enabled ≡ false))
      × ((redis_service ≡ none) ↔ (manifest.redis.enabled ≡ false))

  create_or_update_redis-Post :
      (s : c.State) → Post (create_or_update_redis c p spec manifest s) (λ r _. RedisAsAsked r)
  unfolding create_or_update_redis
  create_or_update_redis-Post s = elim (Bool-cases manifest.redis.enabled) [
    | inl e ↦ rw e (
        then_any
          (wrap "failed while creating or updating Redis instance: " (
            create_or_update_redis_instance c p.quantity_error spec
              (update_default_redis_values manifest.redis)))
          _ _ s
          λ redis t.
            then_any
              (wrap "failed while creating or updating Redis service: "
                (create_or_update_redis_service c spec))
              _ _ t λ redis_service t'. ((λ h. cc, λ h. cc), (λ h. cc, λ h. cc)))
    | inr e ↦ rw e ((λ _. refl, λ _. refl), (λ _. refl, λ _. refl))
  ]

  create_or_update_alert_rules-Post :
      (s : c.State)
      → Post
          (create_or_update_alert_rules c marshal spec manifest s)
          (λ r _. (r ≡ none) ↔ (manifest.alerts ≡ []))
  unfolding create_or_update_alert_rules
  create_or_update_alert_rules-Post s = go manifest.alerts refl
    where
      go :
          (alerts : List PrometheusAlertRule)
          → manifest.alerts ≡ alerts
          → Post
              (create_or_update_alert_rules c marshal spec manifest s)
              (λ r _. (r ≡ none) ↔ (manifest.alerts ≡ []))
      go [] e = rw (e, create_or_update_alert_rules) (λ _. refl, λ _. refl)
      go (rule ∷ rules) e =
          rw (e, create_or_update_alert_rules)
            (then_any
              (wrap "unable to get existing configmap: "
                (get_existing c config_maps alerts_config_map_name alerts_config_map_namespace))
              _ _ s
              λ existing t.
                then_any
                  (wrap "failed to add alert rules to configmap: " (
                    lift (
                      add_rules_to_config_map marshal spec
                        (or_new
                          (record {
                            meta =
                                create_object_meta alerts_config_map_name
                                  alerts_config_map_namespace;
                            content = none;
                          })
                          existing)
                        manifest)))
                  _ _ t
                  λ updated t'.
                    then_any
                      (create_or_update_resource c config_maps updated alerts_config_map_namespace)
                      _ _ t' λ written t''. (λ h. cc, λ h. cc))

  create_or_update_ingress_if_enabled-Post :
      (request : Deploy) (subdomain : String) (resources : List NaisResource) (s : c.State)
      → Post
          (create_or_update_ingress_if_enabled c spec manifest request subdomain resources s)
          (λ r _. (r ≡ none) ↔ (manifest.ingress.disabled ≡ true))
  unfolding create_or_update_ingress_if_enabled
  create_or_update_ingress_if_enabled-Post request subdomain resources s =
      elim (Bool-cases manifest.ingress.disabled) [
        | inl e ↦ rw e (λ _. refl, λ _. refl)
        | inr e ↦ rw e (
            then_any
              (wrap "failed while creating ingress: "
                (create_or_update_ingress c spec manifest request subdomain resources))
              _ _ s λ written t. (λ h. cc, λ h. cc))
      ]

-- A creation that returns no error gives back the deployment, the service, the autoscaler, the account
-- and the role binding; the ingress unless it is disabled; Redis with its service if it is enabled; and
-- the alerts if there are any.
pub create_or_update_k8s_resources-IsAsRequested :
    (c : Cluster) (p : Platform) (marshal : PrometheusAlertGroups → Outcome String) (spec : Spec)
    (request : Deploy) (manifest : NaisManifest) (resources : List NaisResource)
    (subdomain : String) (istio : Bool) (s : c.State)
    → Post
        (create_or_update_k8s_resources c p marshal spec request manifest resources subdomain istio
          s)
        (λ d _. IsAsRequested manifest d)
unfolding create_or_update_k8s_resources
create_or_update_k8s_resources-IsAsRequested c p marshal spec request manifest resources subdomain
      istio s =
    then_any
      (wrap "failed while creating service account: " (create_service_account_if_not_exist c spec))
      _ _ s
      λ account s1.
        then_any
          (wrap "failed while creating role binding: " (
            create_or_update_role_binding c spec
              (create_role_ref "ClusterRole" "serviceaccount-in-app-namespace")))
          _ _ s1
          λ binding s2.
            then_any (wrap "failed while creating service: " (create_or_update_service c spec)) _ _
              s2
              λ service s3.
                Post-continue (create_or_update_redis c p spec manifest s3) _
                  (λ r _. RedisAsAsked c p marshal spec manifest r) _
                  (create_or_update_redis-Post c p marshal spec manifest s3)
                  λ (redis, redis_service) s4 hr.
                    then_any
                      (wrap "failed while creating or updating deployment: "
                        (create_or_update_deployment c p spec request manifest resources istio))
                      _ _ s4
                      λ deployment s5.
                        then_any
                          (wrap "failed while creating or updating secret: "
                            (create_or_update_secret c spec resources))
                          _ _ s5
                          λ secret s6.
                            then_any
                              (wrap "failed while creating or updating autoscaler: "
                                (create_or_update_autoscaler c spec manifest))
                              _ _ s6
                              λ autoscaler s7.
                                Post-continue
                                  (wrap
                                    "failed while creating or updating alerts configmap (app-rules) "
                                    (create_or_update_alert_rules c marshal spec manifest) s7)
                                  _ (λ r _. (r ≡ none) ↔ (manifest.alerts ≡ [])) _
                                  (Post-wrap
                                    "failed while creating or updating alerts configmap (app-rules) "
                                    (create_or_update_alert_rules c marshal spec manifest s7) _
                                    (create_or_update_alert_rules-Post c p marshal spec manifest
                                      s7))
                                  λ alerts s8 ha.
                                    Post-continue
                                      (create_or_update_ingress_if_enabled c spec manifest request
                                        subdomain resources s8)
                                      _ (λ r _. (r ≡ none) ↔ (manifest.ingress.disabled ≡ true)) _
                                      (create_or_update_ingress_if_enabled-Post c p marshal spec
                                        manifest request subdomain resources s8)
                                      λ ingress s9 hi. record {
                                        ingress = hi;
                                        redis = hr.0;
                                        redis_service = hr.1;
                                        alerts = ha;
                                        deployment = some-ne_none deployment;
                                        service = some-ne_none service;
                                        autoscaler = some-ne_none autoscaler;
                                        service_account = some-ne_none account;
                                        role_binding = some-ne_none binding;
                                      }
