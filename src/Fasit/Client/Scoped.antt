-- ===== src/Fasit/Client/Scoped.antt =====
-- api/fasit.go: how the client reads scoped resources.
use nais_api.AppError.{AppError, app_error, describe}
use nais_api.Fasit.{NaisResource, ResourceRequest}
use nais_api.Fasit.Client.{
  FasitResource, Net, application_properties, do_request, get_request, resolve_certificates,
  resolve_secret,
}
use nais_api.Prelude.{
  List, Option, String, [], if◌then◌else◌, inl, inr, none, some, ◌<>◌, ◌==◌, ◌∷◌, ◌⊎◌,
}
use nais_api.Prelude.Dict.{Dict}
use nais_api.Prelude.Outcome.{M, Outcome, err, errorf, ok, panic, pure, wrap, ◌>>=◌}

module _ {S : Type 0} (net : Net S) (fasit_url username password : String) where
  abbrev resolved_secret : Dict (Dict String) → M S (Option (Dict String))
  resolved_secret [] = pure none
  resolved_secret (first ∷ others) =
      wrap "unable to resolve secret: " (resolve_secret net (first ∷ others) username password)
      >>= λ found. pure (some found)

  abbrev resolved_files : Dict String → M S (Option (Dict String))
  resolved_files [] = pure none
  resolved_files (file ∷ files) =
      wrap "unable to resolve Certificates: " (resolve_certificates net (file ∷ files)) >>= λ found.
      pure (some found)

  abbrev files_of : FasitResource → Dict String
  files_of r = if r.resource_type == "certificate" then r.certificates else []

  unfoldable pub map_to_nais_resource : FasitResource → Dict String → M S NaisResource
  unfolding resolve_secret resolve_certificates application_properties
  map_to_nais_resource r property_map = do
    secret ← resolved_secret r.secrets
    certificates ← resolved_files (files_of r)
    pure (record {
      id = r.id;
      name = r.alias;
      resource_type = r.resource_type;
      scope = r.scope;
      properties =
          if r.resource_type == "applicationproperties"
          then application_properties net r.properties
          else r.properties;
      property_map = property_map;
      secret = secret;
      certificates = certificates;
      ingresses = [];
    })

  abbrev pub mapped : Outcome NaisResource × S → Outcome (NaisResource ⊎ AppError) × S
  mapped (ok resource, s) = (ok (inl resource), s)
  mapped (err e, s) =
      (ok (inr (app_error (some e) "unable to map response to Nais resource" 500)), s)
  mapped (panic, s) = (panic, s)

  abbrev pub scoped_received :
      Dict String → (String ⊎ AppError) × S → Outcome (NaisResource ⊎ AppError) × S
  scoped_received property_map (inr e, s) = (ok (inr e), s)
  scoped_received property_map (inl body, s) = elim (net.parse_resource body) [
    | inr e ↦ (ok (inr (app_error (some e) "could not unmarshal body" 500)), s)
    | inl r ↦ mapped (map_to_nais_resource r property_map s)
  ]

  abbrev pub scoped_query : ResourceRequest → String → String → String → Dict String
  scoped_query request environment application zone =
      ("alias", request.alias)
      ∷ ("type", request.resource_type)
      ∷ ("environment", environment)
      ∷ ("application", application)
      ∷ ("zone", zone)
      ∷ []

  unfoldable pub get_scoped_resource :
      ResourceRequest → String → String → String → M S (NaisResource ⊎ AppError)
  unfolding do_request map_to_nais_resource
  get_scoped_resource request environment application zone s =
      elim (net.request_error "GET" (fasit_url <> "/api/v2/scopedresource")) [
        | some e ↦ (
          ok (
              inr (
                app_error (some (errorf ("could not create request: " <> e.text)))
                  "unable to create request" 500)),
          s,
        )
        | none ↦ scoped_received request.property_map (
            do_request net
              (get_request (fasit_url <> "/api/v2/scopedresource")
                (scoped_query request environment application zone))
              s)
      ]

  abbrev one_scoped :
      ResourceRequest → Outcome (NaisResource ⊎ AppError) × S → Outcome NaisResource × S
  one_scoped request (ok (inl resource), s) = (ok resource, s)
  one_scoped request (ok (inr e), s) = (
    err (
        errorf (
          "unable to get resource "
          <> request.alias
          <> " ("
          <> request.resource_type
          <> "). "
          <> describe e)),
    s,
  )
  one_scoped request (err e, s) = (err e, s)
  one_scoped request (panic, s) = (panic, s)

  unfoldable pub get_scoped_resources :
      List ResourceRequest → String → String → String → M S (List NaisResource)
  unfolding get_scoped_resource describe
  get_scoped_resources [] environment application zone = pure []
  get_scoped_resources (request ∷ requests) environment application zone =
      (λ s. one_scoped request (get_scoped_resource request environment application zone s))
      >>= λ resource. get_scoped_resources requests environment application zone >>= λ resources.
          pure (resource ∷ resources)
