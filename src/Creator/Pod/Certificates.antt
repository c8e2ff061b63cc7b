-- ===== src/Creator/Pod/Certificates.antt =====
-- The mounts of the certificates have their volume (api/resourcecreator.go).
use nais_api.App.{Spec, resource_name}
use nais_api.Creator.Containers.{
  certificate_items, create_certificate_volume, create_certificate_volume_mount, has_certificate,
  item_of, valid_label_name,
}
use nais_api.Creator.Pod.{with_certificates}
use nais_api.Creator.Pod.Volumes.{
  All-map, All-on_main, HasItsVolumes, HasItsVolumes-append, HasItsVolumes-mount, IsMounted,
}
use nais_api.Fasit.{NaisResource}
use nais_api.Kubernetes.Objects.{KeyToPath, PodSpec}
use nais_api.Prelude.{
  Bool-cases, List, Option, String, [], false≢true, inl, inr, map, none, refl, some, sym, true,
  ◌++◌, ◌∙◌, ◌∷◌, ◌≡◌, ◌≢◌,
}
use nais_api.Prelude.Dict.{Dict, or_empty}

module _ (spec : Spec) where
  -- A resource with a certificate gives the volume a file.
  certificate_items-ne_nil :
      (resources : List NaisResource)
      → has_certificate resources ≡ true
      → certificate_items resources ≢ []
  unfolding certificate_items has_certificate
  certificate_items-ne_nil [] h = absurd (false≢true h)
  certificate_items-ne_nil (res ∷ resources) h =
      go (or_empty res.certificates) refl (certificate_items-ne_nil resources)
    where
      go :
          (entries : Dict String)
          → or_empty res.certificates ≡ entries
          → (has_certificate resources ≡ true → certificate_items resources ≢ [])
          → map (item_of res) (or_empty res.certificates) ++ certificate_items resources ≢ []
      go [] e rest = rw e (rest (rw (e, has_certificate) at h))
      go (file ∷ files) e rest = rw e (λ p. cc)

  -- Where there is a certificate, the volume and its mount have the same name.
  volume_name :
      (resources : List NaisResource)
      → certificate_items resources ≢ []
      → (create_certificate_volume spec resources).name ≡ valid_label_name (resource_name spec)
  unfolding create_certificate_volume
  volume_name resources h = go (certificate_items resources) refl h
    where
      go :
          (items : List KeyToPath)
          → certificate_items resources ≡ items
          → items ≢ []
          → (create_certificate_volume spec resources).name ≡ valid_label_name (resource_name spec)
      go [] e given = absurd (given refl)
      go (item ∷ items) e given = rw (e, create_certificate_volume) refl

  mount_name :
      (resources : List NaisResource)
      → has_certificate resources ≡ true
      → (create_certificate_volume_mount spec resources).name
        ≡ valid_label_name (resource_name spec)
  unfolding create_certificate_volume_mount has_certificate
  mount_name [] h = absurd (false≢true h)
  mount_name (res ∷ resources) h = go res.certificates refl (mount_name resources)
    where
      go :
          (files : Option (Dict String))
          → res.certificates ≡ files
          → (has_certificate resources ≡ true
              → (create_certificate_volume_mount spec resources).name
                ≡ valid_label_name (resource_name spec))
          → (create_certificate_volume_mount spec (res ∷ resources)).name
            ≡ valid_label_name (resource_name spec)
      go none e rest = rw (e, create_certificate_volume_mount) (rest (rw e at h))
      go (some files) e rest = rw (e, create_certificate_volume_mount) refl

  pub with_certificates-IsMounted :
      (resources : List NaisResource) (pod : PodSpec)
      → IsMounted pod
      → IsMounted (with_certificates spec resources pod)
  unfolding with_certificates
  with_certificates-IsMounted resources pod h = elim (Bool-cases (has_certificate resources)) [
    | inr e ↦ rw e h
    | inl e ↦
        let v = create_certificate_volume spec resources in
        let m = create_certificate_volume_mount spec resources in
        rw e (
          All-on_main (HasItsVolumes pod.volumes) (HasItsVolumes (pod.volumes ++ v ∷ [])) _
              pod.containers (HasItsVolumes-append pod.volumes (v ∷ []))
              (λ c. HasItsVolumes-mount v m pod.volumes c (
                volume_name resources (certificate_items-ne_nil resources e)
                ∙ sym (mount_name resources e)))
              h.0,
          All-map (HasItsVolumes pod.volumes) (HasItsVolumes (pod.volumes ++ v ∷ []))
              pod.init_containers (HasItsVolumes-append pod.volumes (v ∷ [])) h.1,
        )
  ]
