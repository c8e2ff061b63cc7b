-- ===== src/Creator/Network/Laws.antt =====
-- Where the ingress and the service of an application lead (api/resourcecreator.go).
use text.Mathlib.Text.{starts_with}
use text.Mathlib.TextPositions.{starts_with-append}
use text.Mathlib.TextLemmas.{cons-append, nil-append}
use nais_api.App.{Spec, resource_name, zone_sbs}
use nais_api.Creator.Meta.{add_labels_to_object_meta, create_object_meta, generate_object_meta}
use nais_api.Creator.Network.{
  create_ingress_hostname, create_ingress_rule, create_ingress_rules, create_sbs_public_hostname,
  create_service_def, fill_service_spec, ingress_rule_of, load_balancer_rules,
}
use nais_api.Fasit.{FasitIngress, NaisResource}
use nais_api.Kubernetes.Objects.{
  IngressRule, IntOrString, Service, ServicePort, ServiceSpec, int_val,
}
use nais_api.Prelude.{
  All, All-append, Bool-cases, List, String, [], ap, inl, inr, map, refl, subst, sym, true, ◌<>◌,
  ◌==◌, ◌∙◌, ◌∷◌, ◌≡◌, ◌⊎◌,
}
use nais_api.Prelude.Text.{replace_first}
use nais_api.Request.{Deploy}

-- The service has the port.
abbrev pub HasPort : IntOrString → List ServicePort → Type 0
HasPort port [] = ⊥
HasPort port (p ∷ ps) = (int_val p.port ≡ port) ⊎ HasPort port ps

-- The rule leads from a rooted path to a port of the service.
abbrev pub LeadsTo : Service → IngressRule → Type 0
LeadsTo service rule =
    (rule.service_name ≡ service.meta.name)
    × HasPort rule.service_port service.spec.ports
    × (starts_with rule.path "/" ≡ true)

cons-rooted : (t : String) → starts_with (String.◌∷◌ "/" t) "/" ≡ true
cons-rooted t =
    subst (λ s. starts_with s "/" ≡ true)
      (cons-append "/" "" t ∙ ap (λ s. String.◌∷◌ "/" s) (nil-append t)) (starts_with-append "/" t)

replace_first-rooted :
    (t : String) → starts_with (replace_first "//" "/" (String.◌∷◌ "/" t)) "/" ≡ true
unfolding replace_first
replace_first-rooted t = elim (Bool-cases (starts_with (String.◌∷◌ "/" t) "//")) [
  | inl e ↦ rw e (starts_with-append "/" _)
  | inr e ↦ rw e (cons-rooted (replace_first "//" "/" t))
]

slashed_path-rooted :
    (path : String) → starts_with (replace_first "//" "/" ("/" <> path)) "/" ≡ true
slashed_path-rooted path =
    subst (λ s. starts_with (replace_first "//" "/" s) "/" ≡ true) (sym (cons-append "/" "" path))
      (replace_first-rooted ("" <> path))

module _ (spec : Spec) where
  -- The service as `createOrUpdateService` writes it, over any existing specification.
  abbrev pub filled : ServiceSpec → Service
  filled existing = record (create_service_def spec) { spec = fill_service_spec spec existing }

  create_ingress_rule-LeadsTo :
      (existing : ServiceSpec) (host path : String)
      → LeadsTo (filled existing) (create_ingress_rule (resource_name spec) host path)
  unfolding create_ingress_rule create_service_def fill_service_spec generate_object_meta
      create_object_meta add_labels_to_object_meta
  create_ingress_rule-LeadsTo existing host path = (refl, inl refl, slashed_path-rooted path)

  rules_of-LeadsTo :
      (existing : ServiceSpec) (fasit_ingresses : List FasitIngress)
      → All (LeadsTo (filled existing)) (map (ingress_rule_of spec) fasit_ingresses)
  rules_of-LeadsTo existing [] = tt
  rules_of-LeadsTo existing (i ∷ more) =
      (create_ingress_rule-LeadsTo existing i.host i.path, rules_of-LeadsTo existing more)

  load_balancer_rules-LeadsTo :
      (existing : ServiceSpec) (resources : List NaisResource)
      → All (LeadsTo (filled existing)) (load_balancer_rules spec resources)
  unfolding load_balancer_rules
  load_balancer_rules-LeadsTo existing [] = tt
  load_balancer_rules-LeadsTo existing (res ∷ resources) =
      elim (Bool-cases (res.resource_type == "LoadBalancerConfig")) [
        | inl e ↦ rw e (
            All-append (LeadsTo (filled existing)) (map (ingress_rule_of spec) res.ingresses) _
              (rules_of-LeadsTo existing res.ingresses)
              (load_balancer_rules-LeadsTo existing resources))
        | inr e ↦ rw e (load_balancer_rules-LeadsTo existing resources)
      ]

  -- Every rule of the ingress leads from a path that starts with a slash to a port of the service
  -- that is made for the application.
  pub create_ingress_rules-LeadsTo :
      (existing : ServiceSpec) (request : Deploy) (subdomain : String)
      (resources : List NaisResource)
      → All (LeadsTo (filled existing)) (create_ingress_rules spec request subdomain resources)
  unfolding create_ingress_rules
  create_ingress_rules-LeadsTo existing request subdomain resources = (
    create_ingress_rule-LeadsTo existing
        (create_ingress_hostname spec.application request.namespace subdomain) "",
    elim (Bool-cases (request.zone == zone_sbs)) [
      | inl e ↦ rw e (
        create_ingress_rule-LeadsTo existing (create_sbs_public_hostname request) spec.application,
        load_balancer_rules-LeadsTo existing resources,
      )
      | inr e ↦ rw e (load_balancer_rules-LeadsTo existing resources)
    ],
  )
