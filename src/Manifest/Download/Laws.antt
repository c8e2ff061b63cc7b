-- ===== src/Manifest/Download/Laws.antt =====
-- What `GenerateManifest` returns (api/manifest.go).
use mathlib.Core.List.{append-nil, append_assoc}
use nais_api.Manifest.{NaisManifest, ValidationError}
use nais_api.Manifest.Defaults.{get_default_manifest}
use nais_api.Manifest.Download.{
  Generated, Outside, WebReply, add_default_manifest_values, download_from, download_manifest,
  fetch_manifest, generate_manifest, generated, invalid, manifest_urls, merged, not_downloaded,
  not_merged, panicked, read_manifest, report, response, unreachable,
}
use nais_api.Manifest.Validation.{validate_manifest}
use nais_api.Manifest.Validation.Laws.{validate_manifest-eq_nil}
use nais_api.Manifest.Validation.Valid.{IsValid}
use nais_api.Prelude.{
  List, Option, String, [], ap, arith, none, refl, some, ℕ, ◌++◌, ◌↔◌, ◌∙◌, ◌∷◌, ◌≡◌, ◌≢◌,
}
use nais_api.Prelude.Outcome.{GoError, Outcome, err, ok, panic}
use nais_api.Request.{Deploy}

-- The manifest of the first url that answers with one.
abbrev pub first_fetched : Outside → List String → Option NaisManifest
first_fetched o [] = none
first_fetched o (url ∷ urls) = elim (fetch_manifest o url) [
  | ok manifest ↦ some manifest
  | err e ↦ first_fetched o urls
  | panic ↦ none
]

-- The errors of the urls, in order.
abbrev pub fetch_errors : Outside → List String → List GoError
fetch_errors o [] = []
fetch_errors o (url ∷ urls) = elim (fetch_manifest o url) [
  | ok manifest ↦ []
  | err e ↦ e ∷ fetch_errors o urls
  | panic ↦ []
]

abbrev pub concluded : Option NaisManifest → List GoError → Generated
concluded (some m) errors = generated m
concluded none errors = not_downloaded errors

-- Reading from the web and the YAML reader do not panic.
pub record IsCalm (o : Outside) : Type 0 where
  pub yaml : (body : String) → o.parse_yaml body ≢ panic
  pub body : (url : String) (status : ℕ) → o.http_get url ≢ response status panic

module _ (o : Outside) where
  read_manifest-ne_panic :
      (url : String) (body : Outcome String)
      → ((text : String) → o.parse_yaml text ≢ panic)
      → body ≢ panic
      → read_manifest o url body ≢ panic
  unfolding read_manifest
  read_manifest-ne_panic url (ok text) yaml calm = ground (arith, yaml text)
  read_manifest-ne_panic url (err e) yaml calm = ground arith
  read_manifest-ne_panic url panic yaml calm = absurd (calm refl)

  fetch_manifest-ne_panic : IsCalm o → (url : String) → fetch_manifest o url ≢ panic
  unfolding fetch_manifest
  fetch_manifest-ne_panic calm url = go (o.http_get url) refl
    where
      go : (reply : WebReply) → o.http_get url ≡ reply → fetch_manifest o url ≢ panic
      go (unreachable e) p = rw (p, fetch_manifest) (ground arith)
      go (response status body) p =
          rw (p, fetch_manifest)
            (ground (
              arith,
              read_manifest-ne_panic url body calm.yaml
                  (λ q. calm.body url status (p ∙ ap (λ b. response status b) q)),
            ))

  -- Once an error has been met, the loop ends with a manifest or with all errors.
  download_from-cons :
      IsCalm o
      → (urls : List String) (e : GoError) (errors : List GoError)
      → download_from o urls (e ∷ errors)
        ≡ concluded (first_fetched o urls) (e ∷ (errors ++ fetch_errors o urls))
  unfolding download_from
  download_from-cons calm [] e errors = rw append-nil
  download_from-cons calm (url ∷ urls) e errors =
      go (fetch_manifest o url) refl (λ f. download_from-cons calm urls e (errors ++ f ∷ []))
    where
      go :
          (r : Outcome NaisManifest)
          → fetch_manifest o url ≡ r
          → ((f : GoError)
              → download_from o urls (e ∷ (errors ++ f ∷ []))
                ≡ concluded
                    (first_fetched o urls)
                    (e ∷ ((errors ++ f ∷ []) ++ fetch_errors o urls)))
          → download_from o (url ∷ urls) (e ∷ errors)
            ≡ concluded (first_fetched o (url ∷ urls)) (e ∷ (errors ++ fetch_errors o (url ∷ urls)))
      go (ok m) p ih = rw (p, download_from, first_fetched)
      go (err f) p ih = rw (p, download_from, first_fetched, fetch_errors) (ih f ∙ rw append_assoc)
      go panic p ih = absurd (fetch_manifest-ne_panic calm url p)

  download_from-eq_concluded :
      IsCalm o
      → (url : String) (urls : List String)
      → download_from o (url ∷ urls) []
        ≡ concluded (first_fetched o (url ∷ urls)) (fetch_errors o (url ∷ urls))
  unfolding download_from
  download_from-eq_concluded calm url urls = go (fetch_manifest o url) refl
    where
      go :
          (r : Outcome NaisManifest)
          → fetch_manifest o url ≡ r
          → download_from o (url ∷ urls) []
            ≡ concluded (first_fetched o (url ∷ urls)) (fetch_errors o (url ∷ urls))
      go (ok m) p = rw (p, download_from, first_fetched)
      go (err f) p =
          rw (p, download_from, first_fetched, fetch_errors) (download_from-cons calm urls f [])
      go panic p = absurd (fetch_manifest-ne_panic calm url p)

  nonempty-eq_concluded :
      IsCalm o
      → (urls : List String) → urls ≢ []
      → download_from o urls [] ≡ concluded (first_fetched o urls) (fetch_errors o urls)
  nonempty-eq_concluded calm [] given = absurd (given refl)
  nonempty-eq_concluded calm (url ∷ urls) given = download_from-eq_concluded calm url urls

  manifest_urls-ne_nil : (r : Deploy) → manifest_urls r ≢ []
  unfolding manifest_urls
  manifest_urls-ne_nil r = ground arith

  -- If the libraries do not panic, the download is the manifest of the first url that has one, and
  -- otherwise fails with the errors of all the urls, in order.
  pub download_manifest-eq_concluded :
      IsCalm o
      → (r : Deploy)
      → download_manifest o r
        ≡ concluded (first_fetched o (manifest_urls r)) (fetch_errors o (manifest_urls r))
  unfolding download_manifest
  download_manifest-eq_concluded calm r =
      nonempty-eq_concluded calm (manifest_urls r) (manifest_urls-ne_nil r)

  report-eq_generated :
      (d m : NaisManifest) (es : List ValidationError)
      → (report o d es ≡ generated m) ↔ ((d ≡ m) × (es ≡ []))
  report-eq_generated d m [] = (λ h. (cc, refl), λ h. ap generated h.0)
  report-eq_generated d m (e ∷ es) = (λ h. cc, λ h. cc (h.1))

  merged-eq_generated :
      (r : Outcome NaisManifest) (m : NaisManifest)
      → merged o r ≡ generated m
      → (r ≡ ok m) × (validate_manifest o.quantity_error m ≡ [])
  merged-eq_generated (ok d) m h =
      let (e, v) = (report-eq_generated d m _).0 h in (ap ok e, rw e at v)
  merged-eq_generated (err e) m h = cc
  merged-eq_generated panic m h = cc

  -- A manifest is returned exactly if it is what the merge makes of the downloaded manifest and the
  -- defaults of the application, and it is valid.
  pub generate_manifest-eq_generated :
      (r : Deploy) (m : NaisManifest)
      → (generate_manifest o r ≡ generated m) ↔ (
          ((d : NaisManifest) × (download_manifest o r ≡ generated d)
            × (o.merge d (get_default_manifest r.application) ≡ ok m))
          × IsValid o.quantity_error m)
  unfolding generate_manifest
  generate_manifest-eq_generated r m = (go (download_manifest o r) refl, back)
    where
      go :
          (g : Generated)
          → download_manifest o r ≡ g
          → generate_manifest o r ≡ generated m
          → ((d : NaisManifest) × (download_manifest o r ≡ generated d)
              × (o.merge d (get_default_manifest r.application) ≡ ok m))
            × IsValid o.quantity_error m
      go (generated d) p h =
          let (e, v) = merged-eq_generated _ m (rw (p, generate_manifest) at h) in
          (
            (d, p, unfold add_default_manifest_values in e),
            (validate_manifest-eq_nil o.quantity_error m).0 v,
          )
      go (not_downloaded es) p h = cc (rw (p, generate_manifest) at h)
      go (not_merged e) p h = cc (rw (p, generate_manifest) at h)
      go (invalid es) p h = cc (rw (p, generate_manifest) at h)
      go panicked p h = cc (rw (p, generate_manifest) at h)

      back :
          ((d : NaisManifest) × (download_manifest o r ≡ generated d)
              × (o.merge d (get_default_manifest r.application) ≡ ok m))
            × IsValid o.quantity_error m
          → generate_manifest o r ≡ generated m
      back ((d, p, q), v) =
          rw (p, generate_manifest)
            (unfold add_default_manifest_values in
              rw (q, (validate_manifest-eq_nil o.quantity_error m).1 v))
