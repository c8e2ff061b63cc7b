-- ===== src/Fasit/Client/Laws/Synchronised.antt =====
-- Which exposed resources the client makes and which it updates (createOrUpdateFasitResource with the
-- client, api/fasit.go).
use nais_api.AppError.{AppError}
use nais_api.Fasit.{NaisResource}
use nais_api.Fasit.Client.{Net}
use nais_api.Fasit.Client.Balancer.{client}
use nais_api.Fasit.Client.Laws.Created.{Posted, create_resource-eq_ok}
use nais_api.Fasit.Client.Laws.Missing.{
  IsMissing, IsMissing-of_lookup, lookup-of_IsMissing, scoped_lookup,
}
use nais_api.Fasit.Client.Laws.Written.{Wrote, update_resource-eq_ok}
use nais_api.Fasit.Sync.{create_or_update_fasit_resources}
use nais_api.Fasit.Sync.Laws.{
  Synced, create_or_update_fasit_resources-Synced, created, finished, updated,
}
use nais_api.Manifest.{ExposedResource}
use nais_api.Prelude.{List, String, [], inl, ◌↔◌, ◌∷◌, ◌≡◌, ◌⊎◌}
use nais_api.Prelude.Int.{ℤ}
use nais_api.Prelude.Outcome.{M, ok}
use nais_api.Request.{Deploy}

module _ {S : Type 0} (net : Net S)
    (fasit_url username password class environment hostname : String) (request : Deploy) where
  abbrev looked_up : ExposedResource → M S (NaisResource ⊎ AppError)
  looked_up r = scoped_lookup net fasit_url username password r class environment hostname request

  abbrev MissingAt : ExposedResource → S → S → Type 0
  MissingAt r = IsMissing net fasit_url username password r class environment hostname request

  abbrev WroteAt : ExposedResource → NaisResource → S → S → ℤ → Type 0
  WroteAt r = Wrote net fasit_url username password r class environment hostname request

  abbrev PostedAt : ExposedResource → S → S → ℤ → Type 0
  PostedAt r = Posted net fasit_url username password r class environment hostname request

  -- `Served rs s ids t`: from `s`, the resources are taken one after the other; the answer to each GET
  -- is a resource, which a PUT replaces, or a 404, after which a POST makes one.
  pub data Served : List ExposedResource → S → List ℤ → S → Type 0 where
    all_served : (s : S) → Served [] s [] s
    replaced :
        (r : ExposedResource) (rs : List ExposedResource) (s u v t : S) (existing : NaisResource)
        (id : ℤ) (ids : List ℤ)
        → looked_up r s ≡ (ok (inl existing), u)
        → WroteAt r existing u v id
        → Served rs v ids t
        → Served (r ∷ rs) s (id ∷ ids) t
    made :
        (r : ExposedResource) (rs : List ExposedResource) (s u v t : S) (id : ℤ) (ids : List ℤ)
        → MissingAt r s u
        → PostedAt r u v id
        → Served rs v ids t
        → Served (r ∷ rs) s (id ∷ ids) t

  abbrev SyncedByClient : List ExposedResource → S → List ℤ → S → Type 0
  SyncedByClient =
      Synced (client net fasit_url username password) hostname class environment request

  Served-of_SyncedByClient :
      (rs : List ExposedResource) (s : S) (ids : List ℤ) (t : S)
      → SyncedByClient rs s ids t
      → Served rs s ids t
  Served-of_SyncedByClient _ _ _ _ (finished s) = all_served s
  Served-of_SyncedByClient _ _ _ _ (updated r rs s u v t existing id ids found written later) =
      replaced r rs s u v t existing id ids found
        ((update_resource-eq_ok net fasit_url username password r class environment hostname request
            existing u v id).0
          written)
        (Served-of_SyncedByClient rs v ids t later)
  Served-of_SyncedByClient _ _ _ _ (created r rs s u v t e id ids found missing written later) =
      made r rs s u v t id ids
        (IsMissing-of_lookup net fasit_url username password r class environment hostname request s
          u e found missing)
        ((create_resource-eq_ok net fasit_url username password r class environment hostname request
            u v id).0
          written)
        (Served-of_SyncedByClient rs v ids t later)

  SyncedByClient-of_Served :
      (rs : List ExposedResource) (s : S) (ids : List ℤ) (t : S)
      → Served rs s ids t
      → SyncedByClient rs s ids t
  SyncedByClient-of_Served _ _ _ _ (all_served s) = finished s
  SyncedByClient-of_Served _ _ _ _ (replaced r rs s u v t existing id ids found written later) =
      updated r rs s u v t existing id ids found
        ((update_resource-eq_ok net fasit_url username password r class environment hostname request
            existing u v id).1
          written)
        (SyncedByClient-of_Served rs v ids t later)
  SyncedByClient-of_Served _ _ _ _ (made r rs s u v t id ids missing posted later) =
      let (e, found, is_missing) =
        lookup-of_IsMissing net fasit_url username password r class environment hostname request s u
          missing in
      created r rs s u v t e id ids found is_missing
        ((create_resource-eq_ok net fasit_url username password r class environment hostname request
            u v id).1
          posted)
        (SyncedByClient-of_Served rs v ids t later)

  -- With the client, the synchronisation returns exactly if Fasit answers in turn, for each exposed
  -- resource: to the GET with a resource, and then to the PUT that replaces it, or to the GET with
  -- 404, and then to the POST that makes it.
  pub create_or_update_fasit_resources-Served :
      (rs : List ExposedResource) (s : S) (ids : List ℤ) (t : S)
      → (create_or_update_fasit_resources
            (client net fasit_url username password)
            rs
            hostname
            class
            environment
            request
            s
          ≡ (ok ids, t))
        ↔ Served rs s ids t
  create_or_update_fasit_resources-Served rs s ids t =
      let (sound, complete) =
        create_or_update_fasit_resources-Synced (client net fasit_url username password) hostname
          class environment request rs s ids t in
      (
        λ h. Served-of_SyncedByClient rs s ids t (sound h),
        λ h. complete (SyncedByClient-of_Served rs s ids t h),
      )
