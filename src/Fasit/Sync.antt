-- ===== src/Fasit/Sync.antt =====
-- api/fasit.go: what a deployment reads from Fasit and writes to it, over any client.
pub mod Laws
use nais_api.AppError.{AppError, describe}
use nais_api.Fasit.{NaisResource, ResourceRequest, Scope}
use nais_api.Manifest.{ExposedResource, NaisManifest, UsedResource}
use nais_api.Manifest.Defaults.{nav_truststore_fasit_alias}
use nais_api.Prelude.{
  List, Option, String, [], if◌then◌else◌, inl, inr, map, none, some, ◌++◌, ◌<>◌, ◌==◌, ◌∷◌, ◌⊎◌,
}
use nais_api.Prelude.Int.{eqb_ℤ, ltb_ℤ, pos, ℤ}
use nais_api.Prelude.Outcome.{GoError, M, Outcome, err, errorf, lift, ok, panic, pure, ◌>>=◌}
use nais_api.Request.{Deploy}

-- FasitClientAdapter. A call reads and changes the state of Fasit.
pub record Adapter (S : Type 0) : Type 0 where
  pub get_scoped_resource :
      ResourceRequest → String → String → String → M S (NaisResource ⊎ AppError)
  pub create_resource : ExposedResource → String → String → String → Deploy → M S ℤ
  pub update_resource : NaisResource → ExposedResource → String → String → String → Deploy → M S ℤ
  pub get_fasit_environment_class : String → M S String
  pub get_fasit_application : String → M S Unit
  pub get_scoped_resources :
      List ResourceRequest → String → String → String → M S (List NaisResource)
  pub get_load_balancer_config : String → String → M S (Option NaisResource)
  pub create_application_instance : Deploy → String → String → List ℤ → List ℤ → M S Unit

-- An AppError that is returned as an error.
abbrev pub as_error : AppError → GoError
as_error e = errorf (describe e)

-- fmt.Errorf("<before>%s)", err)
abbrev pub wrap_in_brackets : {S A : Type 0} → String → Outcome A × S → Outcome A × S
wrap_in_brackets before (ok a, s) = (ok a, s)
wrap_in_brackets before (err e, s) = (err (errorf (before <> e.text <> ")")), s)
wrap_in_brackets before (panic, s) = (panic, s)

abbrev pub described : ExposedResource → String
described r = r.alias <> " of type " <> r.resource_type <> " with path " <> r.path <> ". ("

abbrev pub request_of : ExposedResource → ResourceRequest
request_of r = record { alias = r.alias; resource_type = r.resource_type; property_map = [] }

unfoldable pub default_resource_requests : List ResourceRequest
default_resource_requests =
    record {
      alias = nav_truststore_fasit_alias;
      resource_type = "certificate";
      property_map = ("keystore", "NAV_TRUSTSTORE_PATH") ∷ [];
    }
    ∷ []

-- getResourceIds: the load balancer configuration has no id.
unfoldable pub get_resource_ids : List NaisResource → List ℤ
get_resource_ids [] = []
get_resource_ids (r ∷ used) =
    let rest = get_resource_ids used in
    if r.resource_type == "LoadBalancerConfig" then rest else r.id ∷ rest

unfoldable pub generate_scope : ExposedResource → NaisResource → String → String → String → Scope
generate_scope r existing class environment zone =
    if r.all_zones
    then record { environment_class = class; environment = environment; zone = "" }
    else if ltb_ℤ (pos 0) existing.id
    then existing.scope
    else record { environment_class = class; environment = environment; zone = zone }

module _ {S : Type 0} (fasit : Adapter S) where
  -- One resource: made if Fasit answers 404, updated if it is there.
  abbrev pub sync_found :
      String
      → String
      → String
      → Deploy
      → ExposedResource
      → Outcome (NaisResource ⊎ AppError) × S
      → Outcome ℤ × S
  sync_found hostname class environment request r (ok (inl existing), s) =
      wrap_in_brackets ("failed updating resource: " <> described r)
        (fasit.update_resource existing r class environment hostname request s)
  sync_found hostname class environment request r (ok (inr e), s) =
      if eqb_ℤ e.status_code (pos 404)
      then wrap_in_brackets ("failed creating resource: " <> described r)
          (fasit.create_resource r class environment hostname request s)
      else (err (as_error e), s)
  sync_found hostname class environment request r (err e, s) = (err e, s)
  sync_found hostname class environment request r (panic, s) = (panic, s)

  unfoldable pub create_or_update_fasit_resource :
      String → String → String → Deploy → ExposedResource → M S ℤ
  unfolding describe
  create_or_update_fasit_resource hostname class environment request r s =
      sync_found hostname class environment request r
        (fasit.get_scoped_resource (request_of r) environment request.application request.zone s)

  unfoldable pub create_or_update_fasit_resources :
      List ExposedResource → String → String → String → Deploy → M S (List ℤ)
  unfolding create_or_update_fasit_resource
  create_or_update_fasit_resources [] hostname class environment request = pure []
  create_or_update_fasit_resources (r ∷ rs) hostname class environment request =
      create_or_update_fasit_resource hostname class environment request r >>= λ id.
      create_or_update_fasit_resources rs hostname class environment request >>= λ ids.
      pure (id ∷ ids)

  -- A load balancer that cannot be read is only warned of.
  abbrev pub add_load_balancer :
      List NaisResource → Outcome (Option NaisResource) × S → Outcome (List NaisResource) × S
  add_load_balancer resources (ok (some config), s) = (ok (resources ++ config ∷ []), s)
  add_load_balancer resources (ok none, s) = (ok resources, s)
  add_load_balancer resources (err e, s) = (ok resources, s)
  add_load_balancer resources (panic, s) = (panic, s)

  abbrev pub used_request : UsedResource → ResourceRequest
  used_request u = record {
    alias = u.alias;
    resource_type = u.resource_type;
    property_map = u.property_map;
  }

  unfoldable pub fetch_fasit_resources :
      String → String → String → List UsedResource → M S (List NaisResource)
  unfolding default_resource_requests
  fetch_fasit_resources application environment zone used = do
    resources ←
        fasit.get_scoped_resources (default_resource_requests ++ map used_request used) environment
          application zone
    λ s. add_load_balancer resources (fasit.get_load_balancer_config application environment s)

  abbrev pub exposed_ids : List ExposedResource → String → String → String → Deploy → M S (List ℤ)
  exposed_ids [] hostname class environment request = pure []
  exposed_ids (r ∷ rs) hostname class environment request =
      if hostname == ""
      then lift
          (err (errorf "unable to create resources when no ingress nor loadbalancer is specified"))
      else create_or_update_fasit_resources (r ∷ rs) hostname class environment request

  unfoldable pub update_fasit :
      Deploy → List NaisResource → NaisManifest → String → String → String → String → M S Unit
  unfolding create_or_update_fasit_resources get_resource_ids
  update_fasit request used manifest hostname class environment domain = do
    ids ← exposed_ids manifest.fasit_resources.exposed hostname class environment request
    fasit.create_application_instance request environment domain ids (get_resource_ids used)
