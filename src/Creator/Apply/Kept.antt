-- ===== src/Creator/Apply/Kept.antt =====
-- What the writes of a creation put into the cluster and leave there (api/resourcecreator.go).
use nais_api.Alerts.{
  PrometheusAlertGroups, add_rules_to_config_map, alerts_config_map_name,
  alerts_config_map_namespace,
}
use nais_api.App.{Spec, resource_name}
use nais_api.Creator.Access.{create_or_update_resource, get_existing, replied}
use nais_api.Creator.Apply.{
  create_or_update_alert_rules, create_or_update_autoscaler, create_or_update_ingress,
  create_or_update_ingress_if_enabled, create_or_update_secret, or_new, write_secret,
}
use nais_api.Creator.Meta.{create_object_meta}
use nais_api.Creator.Storage.{create_secret_def}
use nais_api.Fasit.{NaisResource}
use nais_api.Kubernetes.Cluster.{Cluster, IsPresent, Presence, Reply}
use nais_api.Kubernetes.Objects.{
  Kind, ObjectOf, Secret, autoscalers, config_maps, ingresses, meta_of, secrets,
}
use nais_api.Manifest.{NaisManifest, PrometheusAlertRule}
use nais_api.Prelude.{
  Bool-cases, List, Option, String, [], inl, inr, none, refl, some, ◌==◌, ◌∷◌, ◌≡◌,
}
use nais_api.Prelude.Keeps.{Keeps, Keeps-bind, Keeps-lift, Keeps-pure, Keeps-wrap, Post}
use nais_api.Prelude.Outcome.{Outcome}
use nais_api.Request.{Deploy}

module _ (c : Cluster) (api : Presence c) where
  replied-Post :
      {k : Kind} (ns n : String) (o : Reply (ObjectOf k) × c.State)
      → ((o' : ObjectOf k) → o.0 ≡ inl o' → IsPresent c k ns n o.1)
      → Post (replied o) (λ _ t. IsPresent c k ns n t)
  replied-Post ns n (inl o, s) h = h o refl
  replied-Post ns n (inr e, s) h = tt

  -- An object that is written, without an error, is there.
  pub create_or_update_resource-Post :
      (k : Kind) (o : ObjectOf k) (ns : String) (s : c.State)
      → Post (create_or_update_resource c k o ns s) (λ _ t. IsPresent c k ns (meta_of k o).name t)
  unfolding create_or_update_resource
  create_or_update_resource-Post k o ns s =
      elim (Bool-cases ((meta_of k o).resource_version == "")) [
        | inl e ↦
            rw (e, create_or_update_resource)
              (replied-Post ns (meta_of k o).name (c.create k ns o s)
                (λ o' h. api.present_of_create k ns o o' s h))
        | inr e ↦
            rw (e, create_or_update_resource)
              (replied-Post ns (meta_of k o).name (c.update k ns o s)
                (λ o' h. api.present_of_update k ns o o' s h))
      ]

  module _ (k : Kind) (ns n : String) where
    abbrev Present : c.State → Type 0
    Present = IsPresent c k ns n

    write-Keeps :
        (k' : Kind) (o : ObjectOf k') (ns' : String)
        → Keeps Present (create_or_update_resource c k' o ns')
    unfolding create_or_update_resource
    write-Keeps k' o ns' = record {
      at = λ s h. elim (Bool-cases ((meta_of k' o).resource_version == "")) [
        | inl e ↦ rw (e, create_or_update_resource) (api.present-create k ns n k' ns' o s h)
        | inr e ↦ rw (e, create_or_update_resource) (api.present-update k ns n k' ns' o s h)
      ];
    }

    read-Keeps : (k' : Kind) (n' ns' : String) → Keeps Present (get_existing c k' n' ns')
    unfolding get_existing
    read-Keeps k' n' ns' = record { at = λ s h. h }

    pub secret-Keeps :
        (spec : Spec) (resources : List NaisResource)
        → Keeps Present (create_or_update_secret c spec resources)
    unfolding create_or_update_secret
    secret-Keeps spec resources =
        Keeps-bind _ _ (Keeps-wrap _ _ (read-Keeps _ _ _))
          (λ existing. written (create_secret_def spec resources existing))
      where
        written : (def : Option Secret) → Keeps Present (write_secret c spec def)
        written none = Keeps-pure none
        written (some def) =
            Keeps-bind (create_or_update_resource c secrets def spec.namespace) _
              (write-Keeps secrets def spec.namespace) (λ o. Keeps-pure (some o))

    pub autoscaler-Keeps :
        (spec : Spec) (manifest : NaisManifest)
        → Keeps Present (create_or_update_autoscaler c spec manifest)
    unfolding create_or_update_autoscaler
    autoscaler-Keeps spec manifest =
        Keeps-bind _ _ (Keeps-wrap _ _ (read-Keeps autoscalers (resource_name spec) spec.namespace))
          (λ existing. write-Keeps autoscalers _ spec.namespace)

    some_alerts-Keeps :
        (marshal : PrometheusAlertGroups → Outcome String) (spec : Spec) (manifest : NaisManifest)
        (alerts : List PrometheusAlertRule)
        → manifest.alerts ≡ alerts
        → Keeps Present (create_or_update_alert_rules c marshal spec manifest)
    unfolding create_or_update_alert_rules
    some_alerts-Keeps marshal spec manifest [] e =
        rw (e, create_or_update_alert_rules) (Keeps-pure none)
    some_alerts-Keeps marshal spec manifest (rule ∷ rules) e =
        rw (e, create_or_update_alert_rules)
          (Keeps-bind _ _
            (Keeps-wrap _ _
              (read-Keeps config_maps alerts_config_map_name alerts_config_map_namespace))
            λ existing.
              Keeps-bind _ _
                (Keeps-wrap "failed to add alert rules to configmap: " _ (
                  Keeps-lift (
                    add_rules_to_config_map marshal spec
                      (or_new
                        (record {
                          meta =
                              create_object_meta alerts_config_map_name alerts_config_map_namespace;
                          content = none;
                        })
                        existing)
                      manifest)))
                λ updated.
                  Keeps-bind _ _ (write-Keeps config_maps updated alerts_config_map_namespace)
                    λ o. Keeps-pure (some o))

    pub alerts-Keeps :
        (marshal : PrometheusAlertGroups → Outcome String) (spec : Spec) (manifest : NaisManifest)
        → Keeps Present (create_or_update_alert_rules c marshal spec manifest)
    alerts-Keeps marshal spec manifest =
        some_alerts-Keeps marshal spec manifest manifest.alerts refl

    pub ingress-Keeps :
        (spec : Spec) (manifest : NaisManifest) (request : Deploy) (subdomain : String)
        (resources : List NaisResource)
        → Keeps Present
            (create_or_update_ingress_if_enabled c spec manifest request subdomain resources)
    unfolding create_or_update_ingress_if_enabled create_or_update_ingress
    ingress-Keeps spec manifest request subdomain resources =
        elim (Bool-cases manifest.ingress.disabled) [
          | inl e ↦ rw e (Keeps-pure _)
          | inr e ↦ rw e (
              Keeps-bind _ _
                (Keeps-wrap _ _ (
                  Keeps-bind _ _
                    (Keeps-wrap _ _ (read-Keeps ingresses (resource_name spec) spec.namespace))
                    (λ existing. write-Keeps ingresses _ spec.namespace)))
                (λ o. Keeps-pure (some o)))
        ]
