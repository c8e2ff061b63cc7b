-- ===== src/Deleter/Laws/Rules.antt =====
-- A deletion needs the config map of the alert rules (api/resourcedeleter.go).
use nais_api.Alerts.{alerts_config_map_name, alerts_config_map_namespace}
use nais_api.App.{Spec}
use nais_api.Creator.Access.{found, get_existing}
use nais_api.Deleter.{
  Deleted, Deletions, and_note, delete_config_map_rules, delete_k8s_resources, or_return,
  remove_rules,
}
use nais_api.Deleter.Laws.Spared.{
  Held, IsSpared, autoscaler-Keeps, deployment-Keeps, ingress-Keeps, redis_deployment-Keeps,
  redis_service-Keeps, secret-Keeps, service-Keeps,
}
use nais_api.Kubernetes.Cluster.{Cluster, Contract, IsPresent, Reply}
use nais_api.Kubernetes.Objects.{ConfigMap, config_maps}
use nais_api.Prelude.{Bool-cases, List, String, arith, inl, inr, none, refl, some, ◌≡◌}
use nais_api.Prelude.Keeps.{Keeps, Post}
use nais_api.Prelude.Outcome.{M, Outcome, continue, err, ok, panic, ◌>>=◌}

config_maps-IsSpared : IsSpared config_maps
config_maps-IsSpared = record {
  no_service = ground arith;
  no_deployment = ground arith;
  no_secret = ground arith;
  no_ingress = ground arith;
  no_autoscaler = ground arith;
}

module _ (c : Cluster) (api : Contract c) (held : Reply ConfigMap) where
  -- The config map is read as at the start.
  abbrev Kept : c.State → Type 0
  Kept = Held c api config_maps alerts_config_map_namespace alerts_config_map_name held

  -- The config map could be read.
  abbrev IsThere : Type 0
  IsThere = (m : ConfigMap) × (held ≡ inl m)

  -- The action returns without an error only if the config map could be read.
  record Needs (m : M c.State Deletions) : Type 0 where
    at : (s : c.State) → Kept s → Post (m s) (λ d t. d.1 ≡ none → IsThere)

  Needs-bind :
      {A : Type 0} (m : M c.State A) (f : A → M c.State Deletions)
      → Keeps Kept m
      → ((a : A) → Needs (f a))
      → Needs (m >>= f)
  Needs-bind m f k n = record { at = λ s h. continued f n (m s) (k.at s h) }
    where
      continued :
          {A : Type 0} (f : A → M c.State Deletions)
          → ((a : A) → Needs (f a))
          → (r : Outcome A × c.State) → Kept r.1
          → Post (continue r f) (λ d t. d.1 ≡ none → IsThere)
      continued f n (ok a, s) h = (n a).at s h
      continued f n (err e, s) h = tt
      continued f n (panic, s) h = tt

  Needs-or_return :
      (results : List String) (d : Deleted) (next : List String → M c.State Deletions)
      → ((r : List String) → Needs (next r))
      → Needs (or_return c results d next)
  Needs-or_return results (r, none) next n = n _
  Needs-or_return results (r, some e) next n = record { at = λ s h p. cc }

  Needs-and_note :
      (results : List String) (d : Deleted) (next : List String → M c.State Deletions)
      → ((r : List String) → Needs (next r))
      → Needs (and_note c results d next)
  Needs-and_note results (r, none) next n = n _
  Needs-and_note results (r, some e) next n = n _

  always : (X : Type 0) → X → (r : Outcome Deletions × c.State) → Post r (λ d t. d.1 ≡ none → X)
  always X x (ok d, s) = λ p. x
  always X x (err e, s) = tt
  always X x (panic, s) = tt

  module _ (spec : Spec) where
    Needs-rules :
        (results : List String) (next : List String → M c.State Deletions)
        → Needs (delete_config_map_rules c spec >>= λ d. or_return c results d next)
    unfolding delete_config_map_rules get_existing
    Needs-rules results next = record { at = λ s h. rw h (go held refl s) }
      where
        go :
            (r : Reply ConfigMap)
            → held ≡ r
            → (s : c.State)
            → Post
                (continue (remove_rules c spec (found r, s)) (λ d. or_return c results d next))
                (λ d t. d.1 ≡ none → IsThere)
        go (inl m) p s = always IsThere (m, p) _
        go (inr e) p s = elim (Bool-cases e.not_found) [ inl q ↦ rw q tt | inr q ↦ rw q (λ x. cc) ]

    ruleset needing_rules = (
      Needs-bind, Needs-or_return, Needs-and_note, Needs-rules, service-Keeps, deployment-Keeps,
      redis_deployment-Keeps, redis_service-Keeps, secret-Keeps, ingress-Keeps, autoscaler-Keeps,
      config_maps-IsSpared,
    )

    delete_k8s_resources-Needs : Needs (delete_k8s_resources c spec)
    unfolding delete_k8s_resources
    delete_k8s_resources-Needs = search needing_rules depth 40

-- In a cluster that keeps to its API, a deletion that returns without an error has found the config
-- map of the alert rules.
pub delete_k8s_resources-needs_rules :
    (c : Cluster) (api : Contract c) (spec : Spec) (s : c.State) (results : List String)
    (t : c.State)
    → delete_k8s_resources c spec s ≡ (ok (results, none), t)
    → IsPresent c config_maps alerts_config_map_namespace alerts_config_map_name s
delete_k8s_resources-needs_rules c api spec s results t h =
    (rw h at ((delete_k8s_resources-Needs c api _ spec).at s refl)) refl
