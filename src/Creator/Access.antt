-- ===== src/Creator/Access.antt =====
-- Reading what exists, and the choice between create and update (api/resourcecreator.go). The source
-- has one function for each kind, all alike.
use nais_api.Kubernetes.Cluster.{Cluster, Reply, outcome}
use nais_api.Kubernetes.Objects.{Kind, ObjectOf, meta_of}
use nais_api.Prelude.{Option, String, if◌then◌else◌, inl, inr, none, some, ◌<>◌, ◌==◌}
use nais_api.Prelude.Outcome.{M, Outcome, err, errorf, ok}

abbrev pub found : {A : Type 0} → Reply A → Outcome (Option A)
found (inl o) = ok (some o)
found (inr e) = if e.not_found then ok none else err (errorf ("unexpected error: " <> e.text))

abbrev pub replied : {S A : Type 0} → Reply A × S → Outcome A × S
replied (r, s) = (outcome r, s)

module _ (c : Cluster) where
  -- getExistingService, getExistingSecret, …: nil for an object that is not found
  unfoldable pub get_existing : (k : Kind) → String → String → M c.State (Option (ObjectOf k))
  get_existing k name namespace s = (found (c.get k namespace name s), s)

  -- createOrUpdateServiceResource, createOrUpdateSecretResource, …
  unfoldable pub create_or_update_resource :
      (k : Kind) → ObjectOf k → String → M c.State (ObjectOf k)
  create_or_update_resource k o namespace s =
      if (meta_of k o).resource_version == ""
      then replied (c.create k namespace o s)
      else replied (c.update k namespace o s)
