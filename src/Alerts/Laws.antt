-- ===== src/Alerts/Laws.antt =====
-- The entries of the alerts config map (api/prometheus.go).
use text.Mathlib.TextLemmas.{append_cancel_right}
use nais_api.Alerts.{
  PrometheusAlertGroups, add_rules_to_config_map, create_deployment_prefix, published_rules,
  remove_rules_from_config_map,
}
use nais_api.App.{Spec}
use nais_api.Kubernetes.Objects.{ConfigMap}
use nais_api.Manifest.{NaisManifest}
use nais_api.Prelude.{
  Bool, Option, String, [], ap, arith, eq_iff, false, if◌then◌else◌, none, refl, some, sym, true,
  ◌<>◌, ◌==◌, ◌∙◌, ◌∷◌, ◌≡◌, ◌≢◌,
}
use nais_api.Prelude.Dict.{Dict, insert, lookup, lookup-erase, lookup-insert, or_empty}
use nais_api.Prelude.Outcome.{Outcome, ok}

abbrev pub rules_key : Spec → String
rules_key spec = create_deployment_prefix spec <> ".yml"

-- The entry of a config map under a key.
abbrev pub entry : String → ConfigMap → Option String
entry key m = lookup key (or_empty m.content)

module _ (marshal : PrometheusAlertGroups → Outcome String) (spec : Spec) where
  entry-add_rules_to_config_map :
      (m : ConfigMap) (manifest : NaisManifest) (text : String)
      → marshal (record {
        groups =
            record { name = create_deployment_prefix spec; rules = published_rules spec manifest }
            ∷ [];
      })
        ≡ ok text
      → (updated : ConfigMap) × (add_rules_to_config_map marshal spec m manifest ≡ ok updated)
        × (updated.meta ≡ m.meta)
        × ((key : String)
            → entry key updated ≡ (if rules_key spec == key then some text else entry key m))
  unfolding add_rules_to_config_map
  entry-add_rules_to_config_map m manifest text h = (
    record m { content = some (insert (rules_key spec) text (or_empty m.content)) },
    rw h,
    refl,
    λ key. lookup-insert (rules_key spec) key text (or_empty m.content),
  )

entry-remove_rules_from_config_map :
    (m : ConfigMap) (spec : Spec) (key : String)
    → entry key (remove_rules_from_config_map m spec)
      ≡ (if rules_key spec == key then none else entry key m)
unfolding remove_rules_from_config_map
entry-remove_rules_from_config_map m spec key = go m.content refl
  where
    go :
        (content : Option (Dict String))
        → m.content ≡ content
        → entry key (remove_rules_from_config_map m spec)
          ≡ (if rules_key spec == key then none else entry key m)
    go none p = rw (p, remove_rules_from_config_map) (unfold lookup in ground arith)
    go (some entries) p =
        rw (p, remove_rules_from_config_map) (lookup-erase (rules_key spec) key entries)

unless_same :
    (same : Bool) (added kept : Option String)
    → (if same then none else (if same then added else kept)) ≡ (if same then none else kept)
unless_same true added kept = refl
unless_same false added kept = refl

-- Where the rules can be marshalled, publishing writes them under the application's key. Removing
-- takes away the entry under that key, also one that was just published. Every other entry stays.
pub entry-rules :
    (marshal : PrometheusAlertGroups → Outcome String) (spec : Spec) (m : ConfigMap)
    (manifest : NaisManifest) (text : String)
    → marshal (record {
      groups =
          record { name = create_deployment_prefix spec; rules = published_rules spec manifest }
          ∷ [];
    })
      ≡ ok text
    → (updated : ConfigMap) × (add_rules_to_config_map marshal spec m manifest ≡ ok updated)
      × (updated.meta ≡ m.meta)
      × ((key : String)
          → (entry key updated ≡ (if rules_key spec == key then some text else entry key m))
            × (entry key (remove_rules_from_config_map updated spec)
                ≡ (if rules_key spec == key then none else entry key m))
            × (entry key (remove_rules_from_config_map m spec)
                ≡ (if rules_key spec == key then none else entry key m)))
entry-rules marshal spec m manifest text h =
    let (after, is_made, same_meta, added) =
      entry-add_rules_to_config_map marshal spec m manifest text h in
    (
      after,
      is_made,
      same_meta,
      λ key. (
        added key,
        entry-remove_rules_from_config_map after spec key
            ∙ (ap (λ o. if rules_key spec == key then none else o) (added key)
                ∙ unless_same (rules_key spec == key) (some text) (entry key m)),
        entry-remove_rules_from_config_map m spec key,
      ),
    )

rules_key-without_team :
    (spec : Spec) → spec.team ≢ "" → rules_key (record spec { team = "" }) ≢ rules_key spec
unfolding create_deployment_prefix
rules_key-without_team spec h p = h (
    sym (
      append_cancel_right "" spec.team ("-" <> spec.application <> "-" <> spec.namespace)
        (append_cancel_right _ _ ".yml" p)))

-- Without the team, as `deleteApplication` names an application, the rules that were published for
-- an application with a team are left.
pub entry-remove_without_team :
    (m : ConfigMap) (spec : Spec)
    → spec.team ≢ ""
    → entry (rules_key spec) (remove_rules_from_config_map m (record spec { team = "" }))
      ≡ entry (rules_key spec) m
entry-remove_without_team m spec h =
    entry-remove_rules_from_config_map m (record spec { team = "" }) (rules_key spec)
    ∙ ground (
      arith,
      rules_key-without_team spec h,
      eq_iff (rules_key (record spec { team = "" })) (rules_key spec),
    )
