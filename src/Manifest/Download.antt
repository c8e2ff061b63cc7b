-- ===== src/Manifest/Download.antt =====
-- api/manifest.go, `GenerateManifest`: download, defaults, validation. The web, the YAML reader and
-- `mergo.Merge` are parameters.
pub mod Laws
use nais_api.Manifest.{NaisManifest, ValidationError, empty_manifest}
use nais_api.Manifest.Defaults.{get_default_manifest}
use nais_api.Manifest.Validation.{validate_manifest}
use nais_api.Prelude.{List, Option, String, [], if◌then◌else◌, ltb, ℕ, ◌++◌, ◌<>◌, ◌==◌, ◌∷◌}
use nais_api.Prelude.Int.{pos}
use nais_api.Prelude.Outcome.{GoError, Outcome, err, errorf, ok, panic}
use nais_api.Prelude.Text.{itoa}
use nais_api.Request.{Deploy}

-- What `http.Get` and the reading of the body give.
pub data WebReply : Type 0 where
  unreachable : String → WebReply
  response : ℕ → Outcome String → WebReply

pub record Outside : Type 0 where
  pub http_get : String → WebReply
  pub parse_yaml : String → Outcome NaisManifest
  pub merge : NaisManifest → NaisManifest → Outcome NaisManifest
  pub quantity_error : String → Option String

unfoldable pub create_manifest_url : String → String → List String
create_manifest_url application version =
    ("https://repo.adeo.no/repository/raw/nais/" <> application <> "/" <> version <> "/nais.yaml")
    ∷ ("http://nexus.adeo.no/nexus/service/local/repositories/m2internal/content/nais/"
        <> application <> "/" <> version <> "/nais.yaml")
    ∷ ("http://nexus.adeo.no/nexus/service/local/repositories/m2internal/content/nais/"
        <> application
        <> "/"
        <> version
        <> "/"
        <> (application <> "-" <> version)
        <> ".yaml")
    ∷ []

-- The urls that are tried, in order.
unfoldable pub manifest_urls : Deploy → List String
unfolding create_manifest_url
manifest_urls r =
    if r.manifest_url == ""
    then create_manifest_url r.application r.version
    else r.manifest_url ∷ []

-- `GenerateManifest` returns a manifest or one of these. The errors of the urls are those that
-- multierror collects.
pub data Generated : Type 0 where
  generated : NaisManifest → Generated
  not_downloaded : List GoError → Generated
  not_merged : GoError → Generated
  invalid : List ValidationError → Generated
  panicked : Generated

module _ (o : Outside) where
  unfoldable pub read_manifest : String → Outcome String → Outcome NaisManifest
  read_manifest url (err e) = err e
  read_manifest url panic = panic
  read_manifest url (ok body) = elim (o.parse_yaml body) [
    | ok manifest ↦ ok manifest
    | err e ↦ err (errorf ("unable to unmarshal " <> e.text <> " from URL: " <> url))
    | panic ↦ panic
  ]

  unfoldable pub fetch_manifest : String → Outcome NaisManifest
  unfolding read_manifest
  fetch_manifest url = elim (o.http_get url) [
    | unreachable e ↦ err (errorf ("HTTP GET failed for url: " <> url <> ". " <> e))
    | response status body ↦
        if ltb 299 status
        then err (
            errorf (
              "got HTTP status code "
              <> itoa (pos status)
              <> " fetching manifest from URL: "
              <> url))
        else read_manifest url body
  ]

  -- The loop over the urls, with the errors met so far. Without any url the error is nil, and the
  -- manifest that is returned is the empty one.
  unfoldable pub download_from : List String → List GoError → Generated
  download_from [] [] = generated empty_manifest
  download_from [] (e ∷ errors) = not_downloaded (e ∷ errors)
  download_from (url ∷ urls) errors = elim (fetch_manifest url) [
    | ok manifest ↦ generated manifest
    | err e ↦ download_from urls (errors ++ e ∷ [])
    | panic ↦ panicked
  ]

  unfoldable pub download_manifest : Deploy → Generated
  unfolding download_from manifest_urls
  download_manifest r = download_from (manifest_urls r) []

  unfoldable pub add_default_manifest_values : NaisManifest → String → Outcome NaisManifest
  unfolding get_default_manifest
  add_default_manifest_values manifest application =
      o.merge manifest (get_default_manifest application)

  abbrev report : NaisManifest → List ValidationError → Generated
  report manifest [] = generated manifest
  report manifest (e ∷ es) = invalid (e ∷ es)

  abbrev merged : Outcome NaisManifest → Generated
  merged (ok manifest) = report manifest (validate_manifest o.quantity_error manifest)
  merged (err e) = not_merged e
  merged panic = panicked

  unfoldable pub generate_manifest : Deploy → Generated
  generate_manifest r = elim (download_manifest r) [
    | generated manifest ↦ merged (add_default_manifest_values manifest r.application)
    | not_downloaded errors ↦ not_downloaded errors
    | not_merged e ↦ not_merged e
    | invalid es ↦ invalid es
    | panicked ↦ panicked
  ]
