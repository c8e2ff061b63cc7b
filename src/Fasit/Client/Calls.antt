-- ===== src/Fasit/Client/Calls.antt =====
-- api/fasit.go: the other calls of the client, and the client as an adapter.
use nais_api.AppError.{AppError, describe}
use nais_api.Fasit.{NaisResource, no_resource}
use nais_api.Fasit.Client.{HttpReply, HttpRequest, Net, do_request, get_request, write_request}
use nais_api.Fasit.Payload.{ResourcePayload, build_resource_payload}
use nais_api.Fasit.Sync.{as_error}
use nais_api.Manifest.{ExposedResource}
use nais_api.Prelude.{
  List, String, [], eqb, if◌then◌else◌, inl, inr, ltb, none, some, ◌<>◌, ◌∷◌, ◌⊎◌,
}
use nais_api.Prelude.Int.{pos, ℤ}
use nais_api.Prelude.Outcome.{GoError, M, Outcome, err, errorf, ok}
use nais_api.Prelude.Text.{itoa, replace_all, split}
use nais_api.Request.{Deploy}

-- A Go error that an AppError is returned as, and the value that comes without one.
abbrev pub answer : {S A : Type 0} → (String ⊎ AppError) × S → (String → Outcome A) → Outcome A × S
answer (inl body, s) f = (f body, s)
answer (inr e, s) f = (err (as_error e), s)

-- The last of some pieces of text.
abbrev pub last_of : List String → String
last_of [] = ""
last_of (p ∷ []) = p
last_of (p ∷ q ∷ ps) = last_of (q ∷ ps)

module _ {S : Type 0} (net : Net S) (fasit_url username password : String) where
  abbrev pub as_outcome_of : String → {A : Type 0} → A ⊎ GoError → Outcome A
  as_outcome_of before (inl a) = ok a
  as_outcome_of before (inr e) = err (errorf (before <> e.text))

  -- A request with the error "<before><the error of http.NewRequest>", if there is one.
  abbrev pub requested : {A : Type 0} → String → HttpRequest → M S A → M S A
  requested before request go s = elim (net.request_error request.method request.url) [
    | some e ↦ (err (errorf (before <> e.text)), s)
    | none ↦ go s
  ]

  unfoldable pub get_fasit_environment_class : String → M S String
  unfolding do_request describe
  get_fasit_environment_class environment =
      let request = get_request (fasit_url <> "/api/v2/environments/" <> environment) [] in
      requested "could not create request: " request λ s. answer (do_request net request s) λ body.
        as_outcome_of "unable to read environmentclass from response: "
          (net.parse_environment_class body)

  abbrev application_received : String → (HttpReply ⊎ GoError) × S → Outcome (Unit {0}) × S
  application_received application (inr e, s) =
      (err (errorf ("unable to contact Fasit: " <> e.text)), s)
  application_received application (inl reply, s) =
      if eqb reply.status 200
      then (ok tt, s)
      else (err (errorf ("could not find application " <> application <> " in Fasit")), s)

  unfoldable pub get_fasit_application : String → M S (Unit {0})
  get_fasit_application application =
      let request = get_request (fasit_url <> "/api/v2/applications/" <> application) [] in
      requested "could not create request: " request
        λ s. application_received application (net.send request s)

  -- `location` is split at its slashes; the last piece is the id.
  abbrev pub created_id : (HttpReply ⊎ GoError) × S → Outcome ℤ × S
  created_id (inr e, s) = (err (errorf ("unable to contact Fasit: " <> e.text)), s)
  created_id (inl reply, s) =
      if ltb 299 reply.status
      then (
        err (errorf ("fasit returned: " <> reply.body <> " (" <> itoa (pos reply.status) <> ")")),
        s,
      )
      else (
        as_outcome_of "didn't receive a valid resource ID from Fasit: "
            (net.atoi (last_of (split "/" reply.location))),
        s,
      )

  -- json.Marshal writes "&" as an escape, and SafeMarshal undoes that.
  unfoldable pub safe_marshal : ResourcePayload → String ⊎ GoError
  unfolding replace_all
  safe_marshal payload = elim (net.marshal_resource payload) [
    | inl text ↦ inl (replace_all "\\u0026" "&" text)
    | inr e ↦ inr e
  ]

  -- A payload that cannot be marshalled is an error before any request.
  abbrev pub with_payload : {A : Type 0} → String ⊎ GoError → (String → M S A) → M S A
  with_payload (inl payload) go s = go payload s
  with_payload (inr e) go s = (err (errorf ("unable to create payload (" <> e.text <> ")")), s)

  unfoldable pub create_resource : ExposedResource → String → String → String → Deploy → M S ℤ
  unfolding build_resource_payload split itoa safe_marshal
  create_resource r class environment hostname request =
      with_payload
        (safe_marshal
          (build_resource_payload net.encode r no_resource class environment request.zone hostname))
        λ payload.
          let post = write_request "POST" (fasit_url <> "/api/v2/resources/") request payload in
          requested "unable to create request: " post λ s. created_id (net.send post s)

  unfoldable pub update_resource :
      NaisResource → ExposedResource → String → String → String → Deploy → M S ℤ
  unfolding build_resource_payload do_request describe itoa safe_marshal
  update_resource existing r class environment hostname request =
      with_payload
        (safe_marshal
          (build_resource_payload net.encode r existing class environment request.zone hostname))
        λ payload.
          let put =
            write_request "PUT" (fasit_url <> "/api/v2/resources/" <> itoa existing.id) request
              payload in
          requested "unable to create request: " put
            λ s. answer (do_request net put s) λ body. ok existing.id
