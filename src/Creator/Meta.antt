-- ===== src/Creator/Meta.antt =====
-- Names and labels of the objects (api/resourcecreator.go).
use nais_api.App.{Spec, resource_name}
use nais_api.Kubernetes.Objects.{ObjectMeta}
use nais_api.Prelude.{Option, String, if◌then◌else◌, none, some, ◌==◌, ◌≡◌}
use nais_api.Prelude.Dict.{insert, lookup, lookup-insert, or_empty}
use nais_api.Prelude.Int.{pos}

unfoldable pub create_object_meta : String → String → ObjectMeta
create_object_meta object_name namespace = record {
  name = object_name;
  namespace = namespace;
  resource_version = "";
  generation = pos 0;
  labels = none;
  annotations = none;
}

unfoldable pub add_labels_to_object_meta : ObjectMeta → Spec → ObjectMeta
add_labels_to_object_meta meta spec = record meta {
  labels = some (
      insert "team" spec.team (
        insert "environment" spec.namespace
          (insert "app" spec.application (or_empty meta.labels))));
}

unfoldable pub generate_object_meta : Spec → ObjectMeta
unfolding create_object_meta add_labels_to_object_meta
generate_object_meta spec =
    add_labels_to_object_meta (create_object_meta (resource_name spec) spec.namespace) spec

-- An object made by the program, and one that the cluster returned, have these labels.
abbrev pub label : String → ObjectMeta → Option String
label key meta = lookup key (or_empty meta.labels)

module _ (meta : ObjectMeta) (spec : Spec) where
  -- The labels `app`, `environment` and `team` are those of the application; every other label is
  -- the one that was there.
  pub label-add_labels :
      (key : String)
      → label key (add_labels_to_object_meta meta spec) ≡ (
          if "team" == key
          then some spec.team
          else if "environment" == key
          then some spec.namespace
          else if "app" == key
          then some spec.application
          else label key meta)
  unfolding add_labels_to_object_meta
  label-add_labels key = rw (lookup-insert, lookup-insert, lookup-insert)
