-- ===== src/Creator/Storage.antt =====
-- Secrets and autoscalers (api/resourcecreator.go).
pub mod Laws
use nais_api.App.{Spec, resource_name}
use nais_api.Creator.Meta.{add_labels_to_object_meta, generate_object_meta}
use nais_api.Fasit.{NaisResource, to_resource_variable}
use nais_api.Kubernetes.Objects.{Autoscaler, AutoscalerSpec, Secret}
use nais_api.Prelude.{List, Option, String, [], none, some, ◌∷◌}
use nais_api.Prelude.Dict.{Dict, insert, or_empty}
use nais_api.Prelude.Int.{int32, ℤ}

-- data[res.ToResourceVariable(k)] = v for each entry
unfoldable pub put_entries : NaisResource → Dict String → Dict String → Dict String
put_entries res [] content = content
put_entries res ((k, v) ∷ entries) content =
    put_entries res entries (insert (to_resource_variable res k) v content)

unfoldable pub secret_data_from : List NaisResource → Dict String → Dict String
unfolding put_entries
secret_data_from [] content = content
secret_data_from (res ∷ resources) content =
    secret_data_from resources
      (put_entries res (or_empty res.certificates) (put_entries res (or_empty res.secret) content))

unfoldable pub create_secret_data : List NaisResource → Dict String
unfolding secret_data_from
create_secret_data resources = secret_data_from resources []

-- An existing secret is updated. A new one is made only if it has content.
unfoldable pub create_secret_def : Spec → List NaisResource → Option Secret → Option Secret
unfolding generate_object_meta create_secret_data
create_secret_def spec resources (some existing) = some (record existing {
  meta = add_labels_to_object_meta existing.meta spec;
  content = create_secret_data resources;
})
create_secret_def spec resources none = elim (create_secret_data resources) [
  | [] ↦ none
  | entry ∷ entries ↦ some (record {
    type_meta = record { kind = "Secret"; api_version = "v1" };
    meta = generate_object_meta spec;
    content = entry ∷ entries;
    type = "Opaque";
  })
]

unfoldable pub create_autoscaler_spec : ℤ → ℤ → ℤ → String → AutoscalerSpec
unfolding int32
create_autoscaler_spec min max cpu_target_percentage object_name = record {
  min_replicas = some (int32 min);
  max_replicas = int32 max;
  target_cpu = some (int32 cpu_target_percentage);
  target_api_version = "extensions/v1beta1";
  target_kind = "Deployment";
  target_name = object_name;
}

unfoldable pub create_or_update_autoscaler_def : Spec → ℤ → ℤ → ℤ → Option Autoscaler → Autoscaler
unfolding create_autoscaler_spec generate_object_meta
create_or_update_autoscaler_def spec min max cpu (some existing) = record existing {
  meta = add_labels_to_object_meta existing.meta spec;
  spec = create_autoscaler_spec min max cpu (resource_name spec);
}
create_or_update_autoscaler_def spec min max cpu none = record {
  type_meta = record { kind = "HorizontalPodAutoscaler"; api_version = "autoscaling/v1" };
  meta = generate_object_meta spec;
  spec = create_autoscaler_spec min max cpu (resource_name spec);
}
