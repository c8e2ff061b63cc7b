-- ===== src/Fasit/Client/Laws/Missing.antt =====
-- When Fasit does not have a resource (getScopedResource and doRequest in api/fasit.go).
use nais_api.AppError.{AppError, app_error}
use nais_api.Fasit.{NaisResource}
use nais_api.Fasit.Client.{
  FasitResource, HttpReply, HttpRequest, Net, do_request, get_request, received,
}
use nais_api.Fasit.Client.Laws.{judged}
use nais_api.Fasit.Client.Scoped.{
  get_scoped_resource, map_to_nais_resource, mapped, scoped_query, scoped_received,
}
use nais_api.Fasit.Sync.{request_of}
use nais_api.Manifest.{ExposedResource}
use nais_api.Prelude.{
  Bool-cases, Option, String, [], arith, eqb, false, inl, inr, ltb, none, refl, some, subst, sym,
  true, ℕ, ◌<>◌, ◌≡◌, ◌⊎◌,
}
use nais_api.Prelude.Int.{eqb_ℤ, pos}
use nais_api.Prelude.Outcome.{GoError, M, Outcome, err, errorf, ok, panic}
use nais_api.Request.{Deploy}

module _ {S : Type 0} (net : Net S) where
  abbrev IsNotFound : AppError → Type 0
  IsNotFound e = eqb_ℤ e.status_code (pos 404) ≡ true

  other_error :
      (original : Option GoError) (status : ℕ) (e : AppError) (message : String)
      → app_error original message status ≡ e
      → eqb status 404 ≡ false
      → ¬ IsNotFound e
  other_error original status e message same p missing =
      let at_status : eqb_ℤ (pos status) (pos 404) ≡ true = subst IsNotFound (sym same) missing in
      ground arith

  judged-missing :
      (status : ℕ) (body : String) (s u : S) (e : AppError)
      → judged net status body s ≡ (inr e, u)
      → IsNotFound e
      → (status ≡ 404) × (s ≡ u)
  judged-missing status body s u e h missing = elim (Bool-cases (eqb status 404)) [
    | inl p ↦ (ground arith, cc (rw p at h))
    | inr p ↦ elim (Bool-cases (ltb 299 status)) [
      | inl q ↦ absurd (
          other_error none status e ("error contacting Fasit: " <> body) (cc (rw (p, q) at h)) p
            missing)
      | inr q ↦ cc (rw (p, q) at h)
    ]
  ]

  received-missing :
      (o : (HttpReply ⊎ GoError) × S) (u : S) (e : AppError)
      → received net o ≡ (inr e, u)
      → IsNotFound e
      → (reply : HttpReply) × (o ≡ (inl reply, u))
        × (reply.read_error ≡ none)
        × (reply.status ≡ 404)
  received-missing (inr x, s) u e h missing =
      let same : app_error (some x) "Error contacting fasit" 500 ≡ e = cc in
      absurd (other_error (some x) 500 e _ same refl missing)
  received-missing (inl reply, s) u e h missing = go reply.read_error refl h
    where
      go :
          (b : Option GoError)
          → reply.read_error ≡ b
          → received net (inl reply, s) ≡ (inr e, u)
          → (reply' : HttpReply) × (◌≡◌ {A = (HttpReply ⊎ GoError) × S}
              (inl reply, s)
              (inl reply', u))
            × (reply'.read_error ≡ none)
            × (reply'.status ≡ 404)
      go (some x) p k =
          let same : app_error (some x) "Could not read body" 500 ≡ e = cc (rw p at k) in
          absurd (other_error (some x) 500 e _ same refl missing)
      go none p k =
          let (status, same) = judged-missing reply.status reply.body s u e (rw p at k) missing in
          (reply, cc, p, status)

  received-of_missing :
      (u : S) (reply : HttpReply)
      → reply.read_error ≡ none
      → reply.status ≡ 404
      → received net (inl reply, u)
        ≡ (inr (app_error none ("item not found in Fasit: " <> reply.body) 404), u)
  received-of_missing u reply read h = rw (read, h) refl

module _ {S : Type 0} (net : Net S) (fasit_url username password : String) (r : ExposedResource)
    (class environment hostname : String) (request : Deploy) where
  abbrev pub scoped_lookup : M S (NaisResource ⊎ AppError)
  scoped_lookup =
      get_scoped_resource net fasit_url username password (request_of r) environment
        request.application request.zone

  abbrev scoped_get : HttpRequest
  scoped_get = get_request (fasit_url <> "/api/v2/scopedresource") (
      scoped_query net fasit_url username password (request_of r) environment request.application
        request.zone)

  -- The GET of the resource is sent from `s`, is answered with the status 404 and a body that can be
  -- read, and leaves `u`.
  abbrev pub IsMissing : S → S → Type 0
  IsMissing s u =
      (net.request_error "GET" (fasit_url <> "/api/v2/scopedresource") ≡ none)
      × ((reply : HttpReply) × (net.send scoped_get s ≡ (inl reply, u))
          × (reply.read_error ≡ none)
          × (reply.status ≡ 404))

  mapped-missing :
      (o : Outcome NaisResource × S) (e : AppError) (u : S)
      → mapped net fasit_url username password o ≡ (ok (inr e), u)
      → ¬ IsNotFound net e
  mapped-missing (ok x, s) e u h missing = cc
  mapped-missing (err x, s) e u h missing =
      let same : app_error (some x) "unable to map response to Nais resource" 500 ≡ e = cc in
      other_error net (some x) 500 e _ same refl missing
  mapped-missing (panic, s) e u h missing = cc

  scoped_received-missing :
      (o : (String ⊎ AppError) × S) (e : AppError) (u : S)
      → scoped_received net fasit_url username password [] o ≡ (ok (inr e), u)
      → IsNotFound net e
      → o ≡ (inr e, u)
  unfolding map_to_nais_resource
  scoped_received-missing (inr x, s) e u h missing = cc
  scoped_received-missing (inl body, s) e u h missing = go (net.parse_resource body) refl h
    where
      go :
          (p : FasitResource ⊎ GoError)
          → net.parse_resource body ≡ p
          → scoped_received net fasit_url username password [] (inl body, s) ≡ (ok (inr e), u)
          → ◌≡◌ {A = (String ⊎ AppError) × S} (inl body, s) (inr e, u)
      go (inr x) p k =
          let same : app_error (some x) "could not unmarshal body" 500 ≡ e =
            cc (rw (p, scoped_received) at k) in
          absurd (other_error net (some x) 500 e _ same refl missing)
      go (inl x) p k = absurd (
          mapped-missing (map_to_nais_resource net fasit_url username password x [] s) e u
            (rw (p, scoped_received) at k) missing)

  pub IsMissing-of_lookup :
      (s u : S) (e : AppError)
      → scoped_lookup s ≡ (ok (inr e), u)
      → IsNotFound net e
      → IsMissing s u
  unfolding get_scoped_resource do_request
  IsMissing-of_lookup s u e h missing =
      go (net.request_error "GET" (fasit_url <> "/api/v2/scopedresource")) refl h
    where
      go :
          (b : Option GoError)
          → net.request_error "GET" (fasit_url <> "/api/v2/scopedresource") ≡ b
          → scoped_lookup s ≡ (ok (inr e), u)
          → IsMissing s u
      go (some x) p k =
          let same : app_error (some (errorf ("could not create request: " <> x.text)))
                "unable to create request" 500
              ≡ e =
            cc (rw (p, get_scoped_resource) at k) in
          absurd (other_error net _ 500 e _ same refl missing)
      go none p k = (
        p,
        received-missing net (net.send scoped_get s) u e
            (scoped_received-missing _ e u (rw (p, get_scoped_resource) at k) missing) missing,
      )

  pub lookup-of_IsMissing :
      (s u : S)
      → IsMissing s u
      → (e : AppError) × (scoped_lookup s ≡ (ok (inr e), u)) × IsNotFound net e
  unfolding get_scoped_resource do_request
  lookup-of_IsMissing s u (built, (reply, sent, read, status)) = (
    app_error none ("item not found in Fasit: " <> reply.body) 404,
    rw (built, sent, read, status, get_scoped_resource) refl,
    refl,
  )
