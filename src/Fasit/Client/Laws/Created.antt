-- ===== src/Fasit/Client/Laws/Created.antt =====
-- What a new resource in Fasit takes (createResource in api/fasit.go).
use nais_api.Fasit.{no_resource}
use nais_api.Fasit.Client.{HttpReply, HttpRequest, Net, write_request}
use nais_api.Fasit.Client.Calls.{
  as_outcome_of, create_resource, created_id, last_of, requested, safe_marshal,
}
use nais_api.Fasit.Client.Laws.{requested-eq_ok, with_payload-eq_ok}
use nais_api.Fasit.Payload.{ResourcePayload, build_resource_payload}
use nais_api.Manifest.{ExposedResource}
use nais_api.Prelude.{
  String, arith, if◌then◌else◌, inl, inr, ltb, none, subst, ℕ, ◌<>◌, ◌↔◌, ◌≡◌, ◌≤◌, ◌⊎◌,
}
use nais_api.Prelude.Int.{ℤ}
use nais_api.Prelude.Outcome.{GoError, M, Outcome, err, ok}
use nais_api.Prelude.Text.{split}
use nais_api.Request.{Deploy}

module _ {S : Type 0} (net : Net S) (fasit_url username password : String) (r : ExposedResource)
    (class environment hostname : String) (request : Deploy) where
  abbrev post_of : String → HttpRequest
  post_of payload = write_request "POST" (fasit_url <> "/api/v2/resources/") request payload

  abbrev new_payload : ResourcePayload
  new_payload =
      build_resource_payload net.encode r no_resource class environment request.zone hostname

  -- The POST of the marshalled payload is sent from `s`, is answered with a status up to 299 and a
  -- location whose last piece is the number `id`, and leaves `t`.
  abbrev pub Posted : S → S → ℤ → Type 0
  Posted s t id =
      (payload : String) × (safe_marshal net fasit_url username password new_payload ≡ inl payload)
      × (net.request_error "POST" (fasit_url <> "/api/v2/resources/") ≡ none)
      × ((reply : HttpReply) × (net.send (post_of payload) s ≡ (inl reply, t))
          × (reply.status ≤ 299)
          × (net.atoi (last_of (split "/" reply.location)) ≡ inl id))

  numbered-eq_ok :
      (before : String) (n : ℤ ⊎ GoError) (id : ℤ)
      → (as_outcome_of net fasit_url username password before n ≡ ok id) ↔ (n ≡ inl id)
  numbered-eq_ok before (inl i) id = (λ h. cc, λ h. cc)
  numbered-eq_ok before (inr e) id = (λ h. cc, λ h. cc)

  low-eq_ok :
      (status : ℕ) (e : GoError) (o : Outcome ℤ) (s t : S) (id : ℤ)
      → (◌≡◌ {A = Outcome ℤ × S} (if ltb 299 status then (err e, s) else (o, s)) (ok id, t))
        ↔ ((status ≤ 299) × (o ≡ ok id) × (s ≡ t))
  low-eq_ok status e o s t id = ground arith

  created_id-eq_ok :
      (o : (HttpReply ⊎ GoError) × S) (id : ℤ) (t : S)
      → (created_id net fasit_url username password o ≡ (ok id, t)) ↔ (
          (reply : HttpReply) × (o ≡ (inl reply, t))
          × (reply.status ≤ 299)
          × (net.atoi (last_of (split "/" reply.location)) ≡ inl id))
  created_id-eq_ok (inr e, s) id t = (λ h. cc, λ (reply, p, low, n). cc)
  created_id-eq_ok (inl reply, s) id t = (
    λ h.
        let (low, o, same) = (low-eq_ok reply.status _ _ s t id).0 h in
        (reply, cc, low, (numbered-eq_ok _ _ id).0 o),
    λ (other, p, low, n).
        let same : other ≡ reply = cc p in
        (low-eq_ok reply.status _ _ s t id).1 (
          subst (λ x. x.status ≤ 299) same low,
          (numbered-eq_ok _ _ id).1
              (subst (λ x. net.atoi (last_of (split "/" x.location)) ≡ inl id) same n),
          cc p,
        ),
  )

  abbrev posting : String → M S ℤ
  posting payload s = created_id net fasit_url username password (net.send (post_of payload) s)

  -- A resource is made, with the id that is given, exactly if the payload can be marshalled, the
  -- request can be built, and Fasit answers the POST of the payload with a status up to 299 and a
  -- location that ends in the id.
  pub create_resource-eq_ok :
      (s t : S) (id : ℤ)
      → (create_resource net fasit_url username password r class environment hostname request s
          ≡ (ok id, t))
        ↔ Posted s t id
  unfolding create_resource
  create_resource-eq_ok s t id = (
    λ h.
        let (payload, m, g) =
          (with_payload-eq_ok net fasit_url username password
              (safe_marshal net fasit_url username password new_payload)
              (λ p.
                requested net fasit_url username password "unable to create request: " (post_of p)
                  (posting p))
              s t id).0
            h in
        let (b, d) =
          (requested-eq_ok net fasit_url username password "unable to create request: "
              (post_of payload) (posting payload) s t id).0
            g in
        (payload, m, b, (created_id-eq_ok (net.send (post_of payload) s) id t).0 d),
    λ (payload, m, b, d).
        (with_payload-eq_ok net fasit_url username password
            (safe_marshal net fasit_url username password new_payload)
            (λ p.
              requested net fasit_url username password "unable to create request: " (post_of p)
                (posting p))
            s t id).1
          (
            payload,
            m,
            (requested-eq_ok net fasit_url username password "unable to create request: "
                  (post_of payload) (posting payload) s t id).1
                (b, (created_id-eq_ok (net.send (post_of payload) s) id t).1 d),
          ),
  )
