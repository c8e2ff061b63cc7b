-- ===== src/Examples/Requests.antt =====
-- Requests and manifests at work.
use nais_api.Examples.{app_manifest, app_request, test_quantity_error}
use nais_api.Manifest.{NaisManifest}
use nais_api.Manifest.Defaults.{get_default_manifest}
use nais_api.Manifest.Download.{
  Outside, download_manifest, generate_manifest, generated, manifest_urls, response, unreachable,
}
use nais_api.Manifest.Download.Laws.{
  IsCalm, concluded, download_manifest-eq_concluded, fetch_errors, first_fetched,
  generate_manifest-eq_generated,
}
use nais_api.Manifest.Validation.{validate_manifest}
use nais_api.Manifest.Validation.Laws.{validate_manifest-eq_nil}
use nais_api.Manifest.Validation.Valid.{IsValid}
use nais_api.Prelude.{Bool, List, String, [], false, if◌then◌else◌, true, ℕ, ◌==◌, ◌↔◌, ◌≡◌, ◌≢◌}
use nais_api.Prelude.Outcome.{ok, panic}
use nais_api.Request.{validate}
use nais_api.Request.Laws.{IsAccepted, validate-eq-nil}

abbrev pub no_complaint : String → List String
no_complaint name = []

validate-eq-nil_example :
    (validate no_complaint app_request ≡ []) ↔ IsAccepted no_complaint app_request
validate-eq-nil_example = validate-eq-nil no_complaint app_request

validate_manifest-eq_nil_example :
    (validate_manifest test_quantity_error app_manifest ≡ [])
    ↔ IsValid test_quantity_error app_manifest
validate_manifest-eq_nil_example = validate_manifest-eq_nil test_quantity_error app_manifest

abbrev pub outside : Outside
outside = record {
  http_get = λ url.
      if url == "https://nais.yaml" then response 200 (ok "app") else unreachable "no such host";
  parse_yaml = λ text. ok app_manifest;
  merge = λ m defaults. ok m;
  quantity_error = test_quantity_error;
}

served :
    (b : Bool) (status : ℕ)
    → (if b then response 200 (ok "app") else unreachable "no such host") ≢ response status panic
served true status h = cc
served false status h = cc

outside-IsCalm : IsCalm outside
outside-IsCalm = record {
  yaml = λ text h. cc;
  body = λ url status. served (url == "https://nais.yaml") status;
}

download_manifest-eq_concluded_example :
    download_manifest outside app_request
    ≡ concluded
        (first_fetched outside (manifest_urls app_request))
        (fetch_errors outside (manifest_urls app_request))
download_manifest-eq_concluded_example =
    download_manifest-eq_concluded outside outside-IsCalm app_request

generate_manifest-eq_generated_example :
    (generate_manifest outside app_request ≡ generated app_manifest) ↔ (
      ((d : NaisManifest) × (download_manifest outside app_request ≡ generated d)
        × (outside.merge d (get_default_manifest app_request.application) ≡ ok app_manifest))
      × IsValid outside.quantity_error app_manifest)
generate_manifest-eq_generated_example =
    generate_manifest-eq_generated outside app_request app_manifest
