-- ===== src/Fasit/Client/Laws/Written.antt =====
-- What a resource that is written to Fasit takes (createResource and updateResource in api/fasit.go).
use nais_api.AppError.{AppError}
use nais_api.Fasit.{NaisResource}
use nais_api.Fasit.Client.{HttpReply, HttpRequest, Net, do_request, write_request}
use nais_api.Fasit.Client.Calls.{answer, requested, safe_marshal, update_resource}
use nais_api.Fasit.Client.Laws.{do_request-eq_body, requested-eq_ok, with_payload-eq_ok}
use nais_api.Fasit.Payload.{ResourcePayload, build_resource_payload}
use nais_api.Manifest.{ExposedResource}
use nais_api.Prelude.{String, inl, inr, none, ◌<>◌, ◌↔◌, ◌≡◌, ◌≤◌, ◌⊎◌}
use nais_api.Prelude.Int.{ℤ}
use nais_api.Prelude.Outcome.{M, ok}
use nais_api.Prelude.Text.{itoa}
use nais_api.Request.{Deploy}

module _ {S : Type 0} (net : Net S) (fasit_url username password : String) (r : ExposedResource)
    (class environment hostname : String) (request : Deploy) where
  abbrev resource_payload : NaisResource → ResourcePayload
  resource_payload existing =
      build_resource_payload net.encode r existing class environment request.zone hostname

  abbrev put_of : NaisResource → String → HttpRequest
  put_of existing payload =
      write_request "PUT" (fasit_url <> "/api/v2/resources/" <> itoa existing.id) request payload

  answer-eq_ok :
      (existing : NaisResource) (o : (String ⊎ AppError) × S) (id : ℤ) (t : S)
      → (answer o (λ body. ok existing.id) ≡ (ok id, t))
        ↔ ((id ≡ existing.id) × ((body : String) × (o ≡ (inl body, t))))
  answer-eq_ok existing (inl body, s) id t = (λ h. (cc, (body, cc)), λ (p, (b, q)). cc)
  answer-eq_ok existing (inr e, s) id t = (λ h. cc, λ (p, (b, q)). cc)

  -- The PUT of the marshalled payload is sent from `s`, is answered with a status up to 299 and a
  -- body that can be read, and leaves `t`.
  abbrev pub Wrote : NaisResource → S → S → ℤ → Type 0
  Wrote existing s t id =
      ((payload : String) × (safe_marshal net fasit_url username password
            (resource_payload existing)
          ≡ inl payload)
        × (net.request_error "PUT" (fasit_url <> "/api/v2/resources/" <> itoa existing.id) ≡ none)
        × (id ≡ existing.id)
        × ((reply : HttpReply) × (body : String) × (net.send (put_of existing payload) s
              ≡ (inl reply, t))
            × (reply.read_error ≡ none)
            × (reply.body ≡ body)
            × (reply.status ≤ 299)))

  abbrev answered : NaisResource → String → M S ℤ
  answered existing payload s =
      answer (do_request net (put_of existing payload) s) λ body. ok existing.id

  abbrev sending : NaisResource → String → M S ℤ
  sending existing payload =
      requested net fasit_url username password "unable to create request: "
        (put_of existing payload) (answered existing payload)

  -- Of a resource that is there, the id is given exactly if the payload can be marshalled, the
  -- request can be built, and Fasit answers the PUT of the payload with a status up to 299 and a
  -- body that can be read.
  pub update_resource-eq_ok :
      (existing : NaisResource) (s t : S) (id : ℤ)
      → (update_resource net fasit_url username password existing r class environment hostname
            request s
          ≡ (ok id, t))
        ↔ Wrote existing s t id
  unfolding update_resource
  update_resource-eq_ok existing s t id = (
    λ h.
        let (payload, m, g) =
          (with_payload-eq_ok net fasit_url username password
              (safe_marshal net fasit_url username password (resource_payload existing))
              (sending existing) s t id).0
            h in
        let (b, d) =
          (requested-eq_ok net fasit_url username password _ (put_of existing payload)
              (answered existing payload) s t id).0
            g in
        let (i, (body, a)) =
          (answer-eq_ok existing (do_request net (put_of existing payload) s) id t).0 d in
        let (reply, sent, read, e, low) =
          (do_request-eq_body net (put_of existing payload) s t body).0 a in
        (payload, m, b, i, (reply, body, sent, read, e, low)),
    λ (payload, m, b, i, (reply, body, sent, read, e, low)).
        (with_payload-eq_ok net fasit_url username password
            (safe_marshal net fasit_url username password (resource_payload existing))
            (sending existing) s t id).1
          (
            payload,
            m,
            (requested-eq_ok net fasit_url username password _ (put_of existing payload)
                  (answered existing payload) s t id).1
                (
                  b,
                  (answer-eq_ok existing (do_request net (put_of existing payload) s) id t).1 (
                    i,
                    (
                      body,
                      (do_request-eq_body net (put_of existing payload) s t body).1
                          (reply, sent, read, e, low),
                    ),
                  ),
                ),
          ),
  )
