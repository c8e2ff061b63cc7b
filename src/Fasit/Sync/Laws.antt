-- ===== src/Fasit/Sync/Laws.antt =====
-- What the synchronisation with Fasit does, as a relation (api/fasit.go).
use nais_api.AppError.{AppError}
use nais_api.Fasit.{NaisResource}
use nais_api.Fasit.Sync.{
  Adapter, create_or_update_fasit_resource, create_or_update_fasit_resources, request_of,
  sync_found, wrap_in_brackets,
}
use nais_api.Manifest.{ExposedResource}
use nais_api.Prelude.{
  Bool-cases, List, String, [], ap, inl, inr, length, refl, subst, suc, true, ◌↔◌, ◌∷◌, ◌≡◌, ◌⊎◌,
}
use nais_api.Prelude.Int.{eqb_ℤ, pos, ℤ}
use nais_api.Prelude.Outcome.{M, Outcome, continue-eq_ok, err, ok, panic, returned}
use nais_api.Request.{Deploy}

module _ {S : Type 0} (fasit : Adapter S) (hostname class environment : String)
    (request : Deploy) where
  abbrev lookup_of : ExposedResource → M S (NaisResource ⊎ AppError)
  lookup_of r =
      fasit.get_scoped_resource (request_of r) environment request.application request.zone

  -- `Synced rs s ids t`: from `s`, the resources are taken one after the other, each updated if Fasit
  -- has it and made if Fasit answers 404, which gives the ids and leaves `t`.
  pub data Synced : List ExposedResource → S → List ℤ → S → Type 0 where
    finished : (s : S) → Synced [] s [] s
    updated :
        (r : ExposedResource) (rs : List ExposedResource) (s u v t : S) (existing : NaisResource)
        (id : ℤ) (ids : List ℤ)
        → lookup_of r s ≡ (ok (inl existing), u)
        → fasit.update_resource existing r class environment hostname request u ≡ (ok id, v)
        → Synced rs v ids t
        → Synced (r ∷ rs) s (id ∷ ids) t
    created :
        (r : ExposedResource) (rs : List ExposedResource) (s u v t : S) (e : AppError) (id : ℤ)
        (ids : List ℤ)
        → lookup_of r s ≡ (ok (inr e), u)
        → eqb_ℤ e.status_code (pos 404) ≡ true
        → fasit.create_resource r class environment hostname request u ≡ (ok id, v)
        → Synced rs v ids t
        → Synced (r ∷ rs) s (id ∷ ids) t

  in_brackets-eq_ok :
      (before : String) (o : Outcome ℤ × S) (id : ℤ) (v : S)
      → wrap_in_brackets before o ≡ (ok id, v)
      → o ≡ (ok id, v)
  in_brackets-eq_ok before (ok a, s) id v h = h
  in_brackets-eq_ok before (err e, s) id v h = cc
  in_brackets-eq_ok before (panic, s) id v h = cc

  -- A resource that is taken, before the others.
  Synced-cons :
      (r : ExposedResource) (rs : List ExposedResource) (s v t : S) (id : ℤ) (ids : List ℤ)
      → create_or_update_fasit_resource fasit hostname class environment request r s ≡ (ok id, v)
      → Synced rs v ids t
      → Synced (r ∷ rs) s (id ∷ ids) t
  unfolding create_or_update_fasit_resource
  Synced-cons r rs s v t id ids h later = go (lookup_of r s) refl h
    where
      go :
          (found : Outcome (NaisResource ⊎ AppError) × S)
          → lookup_of r s ≡ found
          → sync_found fasit hostname class environment request r found ≡ (ok id, v)
          → Synced (r ∷ rs) s (id ∷ ids) t
      go (ok (inl existing), u) e p =
          updated r rs s u v t existing id ids e (in_brackets-eq_ok _ _ id v p) later
      go (ok (inr x), u) e p = elim (Bool-cases (eqb_ℤ x.status_code (pos 404))) [
        | inl missing ↦
            created r rs s u v t x id ids e missing (in_brackets-eq_ok _ _ id v (rw missing at p))
              later
        | inr other ↦ absurd (cc (rw other at p))
      ]
      go (err x, u) e p = absurd (cc p)
      go (panic, u) e p = absurd (cc p)

  Synced-of_ok :
      (rs : List ExposedResource) (s : S) (ids : List ℤ) (t : S)
      → create_or_update_fasit_resources fasit rs hostname class environment request s ≡ (ok ids, t)
      → Synced rs s ids t
  unfolding create_or_update_fasit_resources
  Synced-of_ok [] s ids t h =
      let (same_ids, same_state) = returned [] ids s t h in
      subst (λ x. Synced [] s x t) same_ids (subst (Synced [] s []) same_state (finished s))
  Synced-of_ok (r ∷ rs) s ids t h =
      let (id, v, first, rest) =
        continue-eq_ok
          (create_or_update_fasit_resource fasit hostname class environment request r s) _ ids t
          h in
      let (more, w, second, last) =
        continue-eq_ok
          (create_or_update_fasit_resources fasit rs hostname class environment request v) _ ids t
          rest in
      let (same_ids, same_state) = returned (id ∷ more) ids w t last in
      subst (λ x. Synced (r ∷ rs) s x t) same_ids
        (subst (Synced (r ∷ rs) s (id ∷ more)) same_state
          (Synced-cons r rs s v w id more first (Synced-of_ok rs v more w second)))

  ok-of_Synced :
      (rs : List ExposedResource) (s : S) (ids : List ℤ) (t : S)
      → Synced rs s ids t
      → create_or_update_fasit_resources fasit rs hostname class environment request s ≡ (ok ids, t)
  unfolding create_or_update_fasit_resources create_or_update_fasit_resource
  ok-of_Synced _ _ _ _ (finished s) = refl
  ok-of_Synced _ _ _ _ (updated r rs s u v t existing id ids found written later) =
      rw (found, written, ok-of_Synced rs v ids t later) refl
  ok-of_Synced _ _ _ _ (created r rs s u v t e id ids found missing written later) =
      rw (found, missing, written, ok-of_Synced rs v ids t later) refl

  -- The synchronisation of the exposed resources returns exactly if each of them, one after the
  -- other, is updated where Fasit has it and made where Fasit answers 404.
  pub create_or_update_fasit_resources-Synced :
      (rs : List ExposedResource) (s : S) (ids : List ℤ) (t : S)
      → (create_or_update_fasit_resources fasit rs hostname class environment request s
          ≡ (ok ids, t))
        ↔ Synced rs s ids t
  create_or_update_fasit_resources-Synced rs s ids t =
      (Synced-of_ok rs s ids t, ok-of_Synced rs s ids t)

  -- One id for each exposed resource.
  pub Synced-length :
      (rs : List ExposedResource) (s : S) (ids : List ℤ) (t : S)
      → Synced rs s ids t
      → length ids ≡ length rs
  Synced-length _ _ _ _ (finished s) = refl
  Synced-length _ _ _ _ (updated r rs s u v t existing id ids found written later) =
      ap suc (Synced-length rs v ids t later)
  Synced-length _ _ _ _ (created r rs s u v t e id ids found missing written later) =
      ap suc (Synced-length rs v ids t later)
