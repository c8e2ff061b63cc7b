-- ===== src/Alerts.antt =====
-- api/prometheus.go: the alert rules of an application in the shared config map.
pub mod Laws
use nais_api.App.{Spec}
use nais_api.Kubernetes.Objects.{ConfigMap}
use nais_api.Manifest.{NaisManifest, PrometheusAlertRule}
use nais_api.Prelude.{List, String, [], if◌then◌else◌, map, none, some, ◌<>◌, ◌==◌, ◌∷◌}
use nais_api.Prelude.Dict.{erase, insert, or_empty}
use nais_api.Prelude.Outcome.{Outcome, and_then, ok}
use nais_api.Prelude.Text.{replace_all}

pub record PrometheusAlertGroup : Type 0 where
  pub name : String
  pub rules : List PrometheusAlertRule

pub record PrometheusAlertGroups : Type 0 where
  pub groups : List PrometheusAlertGroup

abbrev pub alerts_config_map_namespace : String
alerts_config_map_namespace = "nais"

abbrev pub alerts_config_map_name : String
alerts_config_map_name = "app-rules"

unfoldable pub prefix_alert_name : String → String → String
prefix_alert_name prefix alert_name = prefix <> "_" <> alert_name

unfoldable pub prefix_alert_names : List PrometheusAlertRule → String → List PrometheusAlertRule
unfolding prefix_alert_name
prefix_alert_names [] prefix = []
prefix_alert_names (rule ∷ rules) prefix =
    record rule { alert = prefix_alert_name prefix rule.alert } ∷ prefix_alert_names rules prefix

unfoldable pub substitute_namespace_variables :
    List PrometheusAlertRule → String → List PrometheusAlertRule
unfolding replace_all
substitute_namespace_variables [] namespace = []
substitute_namespace_variables (rule ∷ rules) namespace =
    record rule { expr = replace_all "$namespace" namespace rule.expr }
    ∷ substitute_namespace_variables rules namespace

abbrev label_team : String → PrometheusAlertRule → PrometheusAlertRule
label_team team rule = record rule { labels = some (insert "team" team (or_empty rule.labels)) }

unfoldable pub add_team_label : List PrometheusAlertRule → String → List PrometheusAlertRule
add_team_label rules team = if team == "" then rules else map (label_team team) rules

unfoldable pub create_deployment_prefix : Spec → String
create_deployment_prefix spec = spec.team <> "-" <> spec.application <> "-" <> spec.namespace

-- The rules as they are written to the config map.
unfoldable pub published_rules : Spec → NaisManifest → List PrometheusAlertRule
unfolding create_deployment_prefix add_team_label prefix_alert_names substitute_namespace_variables
published_rules spec manifest =
    substitute_namespace_variables
      (prefix_alert_names (add_team_label manifest.alerts manifest.team)
        (create_deployment_prefix spec))
      spec.namespace

-- `marshal` is yaml.Marshal on the groups.
unfoldable pub add_rules_to_config_map :
    (PrometheusAlertGroups → Outcome String) → Spec → ConfigMap → NaisManifest → Outcome ConfigMap
unfolding published_rules create_deployment_prefix
add_rules_to_config_map marshal spec config_map manifest =
    let prefix = create_deployment_prefix spec in
    let group : PrometheusAlertGroup = record {
      name = prefix;
      rules = published_rules spec manifest;
    } in
    and_then (marshal (record { groups = group ∷ [] })) (λ text. ok (record config_map {
      content = some (insert (prefix <> ".yml") text (or_empty config_map.content));
    }))

-- A config map whose data is nil is left as it is.
unfoldable pub remove_rules_from_config_map : ConfigMap → Spec → ConfigMap
unfolding create_deployment_prefix
remove_rules_from_config_map config_map spec = record config_map {
  content = elim config_map.content [
    | none ↦ none
    | some entries ↦ some (erase (create_deployment_prefix spec <> ".yml") entries)
  ];
}
