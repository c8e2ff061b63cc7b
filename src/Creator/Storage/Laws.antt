-- ===== src/Creator/Storage/Laws.antt =====
-- Every key that the environment or a volume refers to is in the secret (api/resourcecreator.go).
use mathlib.Core.List.{map-append}
use nais_api.App.{Spec}
use nais_api.Creator.Containers.{certificate_items, item_of}
use nais_api.Creator.Environment.{
  certificate_variable, property_variable, resource_variables, secret_variable,
}
use nais_api.Creator.Environment.Laws.{resources_environment}
use nais_api.Creator.Storage.{create_secret_data, put_entries, secret_data_from}
use nais_api.Fasit.{NaisResource, to_resource_variable}
use nais_api.Kubernetes.Objects.{EnvVar, KeyToPath, SecretKeyRef}
use nais_api.Prelude.{
  All, All-append, List, String, [], arith, eq_refl, map, none, some, ◌∷◌, ◌≡◌, ◌≢◌,
}
use nais_api.Prelude.Dict.{Dict, insert, lookup, lookup-insert, or_empty}

abbrev pub IsStored : String → Dict String → Type 0
IsStored key content = lookup key content ≢ none

insert-IsStored :
    (k key v : String) (content : Dict String)
    → IsStored key content
    → IsStored key (insert k v content)
insert-IsStored k key v content h = rw lookup-insert (ground (arith, h))

insert-IsStored_self : (k v : String) (content : Dict String) → IsStored k (insert k v content)
insert-IsStored_self k v content = rw lookup-insert (ground (arith, eq_refl k))

-- Every name under which the entries are put.
abbrev pub AllStored : NaisResource → Dict String → Dict String → Type 0
AllStored res entries content =
    All (λ (e : String × String). IsStored (to_resource_variable res e.0) content) entries

module _ (res : NaisResource) where
  put_entries-IsStored :
      (entries content : Dict String) (key : String)
      → IsStored key content
      → IsStored key (put_entries res entries content)
  unfolding put_entries
  put_entries-IsStored [] content key h = h
  put_entries-IsStored ((k, v) ∷ entries) content key h =
      put_entries-IsStored entries (insert (to_resource_variable res k) v content) key
        (insert-IsStored (to_resource_variable res k) key v content h)

  put_entries-AllStored :
      (entries content : Dict String) → AllStored res entries (put_entries res entries content)
  unfolding put_entries
  put_entries-AllStored [] content = tt
  put_entries-AllStored ((k, v) ∷ entries) content = (
    put_entries-IsStored entries (insert (to_resource_variable res k) v content)
        (to_resource_variable res k) (insert-IsStored_self (to_resource_variable res k) v content),
    put_entries-AllStored entries (insert (to_resource_variable res k) v content),
  )

secret_data_from-IsStored :
    (resources : List NaisResource) (content : Dict String) (key : String)
    → IsStored key content
    → IsStored key (secret_data_from resources content)
unfolding secret_data_from
secret_data_from-IsStored [] content key h = h
secret_data_from-IsStored (res ∷ resources) content key h =
    secret_data_from-IsStored resources _ key (
      put_entries-IsStored res (or_empty res.certificates) _ key
        (put_entries-IsStored res (or_empty res.secret) content key h))

All-map {ℓ} :
    {A : Type ℓ} (P Q : A → Type 0) (xs : List A) → ((x : A) → P x → Q x) → All P xs → All Q xs
All-map P Q [] f h = tt
All-map P Q (x ∷ xs) f h = (f x h.0, All-map P Q xs f h.1)

-- The secrets and the certificates of every resource are in the content.
abbrev pub IsComplete : List NaisResource → Dict String → Type 0
IsComplete resources content =
    All
      (λ (res : NaisResource).
        AllStored res (or_empty res.secret) content
        × AllStored res (or_empty res.certificates) content)
      resources

secret_data_from-IsComplete :
    (resources : List NaisResource) (content : Dict String)
    → IsComplete resources (secret_data_from resources content)
unfolding secret_data_from
secret_data_from-IsComplete [] content = tt
secret_data_from-IsComplete (res ∷ resources) content =
    let with_secrets = put_entries res (or_empty res.secret) content in
    let with_files = put_entries res (or_empty res.certificates) with_secrets in
    (
      (
        All-map _ _ (or_empty res.secret)
            (λ e h. secret_data_from-IsStored resources with_files (to_resource_variable res e.0) (
              put_entries-IsStored res (or_empty res.certificates) with_secrets
                (to_resource_variable res e.0) h))
            (put_entries-AllStored res (or_empty res.secret) content),
        All-map _ _ (or_empty res.certificates)
            (λ e h. secret_data_from-IsStored resources with_files (to_resource_variable res e.0) h)
            (put_entries-AllStored res (or_empty res.certificates) with_secrets),
      ),
      secret_data_from-IsComplete resources with_files,
    )

-- The key of the secret that a variable refers to, if it refers to one.
abbrev pub IsResolved : Dict String → EnvVar → Type 0
IsResolved content v = (ref : SecretKeyRef) → v.value_from ≡ some ref → IsStored ref.key content

module _ (spec : Spec) (content : Dict String) where
  properties-IsResolved :
      (res : NaisResource) (entries : Dict String)
      → All (IsResolved content) (map (λ (_, v). v) (map (property_variable res) entries))
  properties-IsResolved res [] = tt
  properties-IsResolved res (e ∷ entries) = (λ ref p. cc, properties-IsResolved res entries)

  certificates-IsResolved :
      (res : NaisResource) (entries : Dict String)
      → All (IsResolved content) (map (λ (_, v). v) (map (certificate_variable res) entries))
  certificates-IsResolved res [] = tt
  certificates-IsResolved res (e ∷ entries) = (λ ref p. cc, certificates-IsResolved res entries)

  secrets-IsResolved :
      (res : NaisResource) (entries : Dict String)
      → AllStored res entries content
      → All (IsResolved content) (map (λ (_, v). v) (map (secret_variable spec res) entries))
  secrets-IsResolved res [] h = tt
  secrets-IsResolved res ((k, v) ∷ entries) h = (
    λ ref p. let e : to_resource_variable res k ≡ ref.key = ground arith in rw (← e) h.0,
    secrets-IsResolved res entries h.1,
  )

  variables-IsResolved :
      (res : NaisResource)
      → AllStored res (or_empty res.secret) content
      → All (IsResolved content) (map (λ (_, v). v) (resource_variables spec res))
  unfolding resource_variables
  variables-IsResolved res h =
      rw (map-append, map-append)
        (All-append (IsResolved content) _ _ (properties-IsResolved res res.properties) (
          All-append (IsResolved content) _ _ (secrets-IsResolved res (or_empty res.secret) h)
            (certificates-IsResolved res (or_empty res.certificates))))

  environment_of_complete :
      (resources : List NaisResource)
      → IsComplete resources content
      → All (IsResolved content) (resources_environment spec resources)
  environment_of_complete [] h = tt
  environment_of_complete (res ∷ resources) h =
      All-append (IsResolved content) _ _ (variables-IsResolved res h.0.0)
        (environment_of_complete resources h.1)

-- Every variable that refers to the secret refers to a key which the secret holds.
pub environment-IsResolved :
    (spec : Spec) (resources : List NaisResource)
    → All (IsResolved (create_secret_data resources)) (resources_environment spec resources)
unfolding create_secret_data
environment-IsResolved spec resources =
    environment_of_complete spec (create_secret_data resources) resources
      (secret_data_from-IsComplete resources [])

items-IsStored :
    (content : Dict String) (res : NaisResource) (entries : Dict String)
    → AllStored res entries content
    → All (λ (i : KeyToPath). IsStored i.key content) (map (item_of res) entries)
items-IsStored content res [] h = tt
items-IsStored content res (e ∷ entries) h = (h.0, items-IsStored content res entries h.1)

certificate_items_of_complete :
    (content : Dict String) (resources : List NaisResource)
    → IsComplete resources content
    → All (λ (i : KeyToPath). IsStored i.key content) (certificate_items resources)
unfolding certificate_items
certificate_items_of_complete content [] h = tt
certificate_items_of_complete content (res ∷ resources) h =
    All-append (λ (i : KeyToPath). IsStored i.key content) _ _
      (items-IsStored content res (or_empty res.certificates) h.0.1)
      (certificate_items_of_complete content resources h.1)

-- Every file of the certificate volume is a key which the secret holds.
pub certificate_items-IsStored :
    (resources : List NaisResource)
    → All
        (λ (i : KeyToPath). IsStored i.key (create_secret_data resources))
        (certificate_items resources)
unfolding create_secret_data
certificate_items-IsStored resources =
    certificate_items_of_complete (create_secret_data resources) resources
      (secret_data_from-IsComplete resources [])
