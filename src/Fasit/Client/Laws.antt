-- ===== src/Fasit/Client/Laws.antt =====
-- Which answers of Fasit the client passes on (api/fasit.go).
pub mod Written
pub mod Created
pub mod Missing
pub mod Synchronised
use nais_api.AppError.{AppError, app_error}
use nais_api.Fasit.{FasitIngress}
use nais_api.Fasit.Client.{HttpReply, HttpRequest, Net, do_request, get_request, received}
use nais_api.Fasit.Client.Balancer.{
  all_ingresses, balancer_of, balancer_query, balancer_received, get_load_balancer_config,
  parse_load_balancer_config, parsed_balancers, some_ingresses,
}
use nais_api.Fasit.Client.Calls.{requested, with_payload}
use nais_api.Prelude.{
  List, Option, String, [], arith, eqb, if◌then◌else◌, inl, inr, ltb, none, refl, some, ℕ, ◌<>◌,
  ◌↔◌, ◌∷◌, ◌≡◌, ◌≤◌, ◌⊎◌,
}
use nais_api.Prelude.Int.{ℤ}
use nais_api.Prelude.Outcome.{GoError, M, ok}

module _ {S : Type 0} (net : Net S) where
  abbrev judged : ℕ → String → S → (String ⊎ AppError) × S
  judged status body s =
      if eqb status 404
      then (inr (app_error none ("item not found in Fasit: " <> body) 404), s)
      else if ltb 299 status
      then (inr (app_error none ("error contacting Fasit: " <> body) status), s)
      else (inl body, s)

  judged-eq_body :
      (status : ℕ) (b body : String) (s t : S)
      → (judged status b s ≡ (inl body, t)) ↔ ((status ≤ 299) × (b ≡ body) × (s ≡ t))
  judged-eq_body status b body s t = ground arith

  received-eq_body :
      (r : (HttpReply ⊎ GoError) × S) (t : S) (body : String)
      → received net r ≡ (inl body, t)
      → (reply : HttpReply) × (r ≡ (inl reply, t))
        × (reply.read_error ≡ none)
        × (reply.body ≡ body)
        × (reply.status ≤ 299)
  received-eq_body (inr e, s) t body h = cc
  received-eq_body (inl reply, s) t body h = go reply.read_error refl h
    where
      go :
          (b : Option GoError)
          → reply.read_error ≡ b
          → received net (inl reply, s) ≡ (inl body, t)
          → (reply' : HttpReply) × (◌≡◌ {A = (HttpReply ⊎ GoError) × S}
              (inl reply, s)
              (inl reply', t))
            × (reply'.read_error ≡ none)
            × (reply'.body ≡ body)
            × (reply'.status ≤ 299)
      go (some e) p k = absurd (cc (rw p at k))
      go none p k =
          let (low, same, there) =
            (judged-eq_body reply.status reply.body body s t).0 (rw p at k) in
          (reply, cc, p, same, low)

  received-of_body :
      (t : S) (reply : HttpReply) (body : String)
      → reply.read_error ≡ none
      → reply.body ≡ body
      → reply.status ≤ 299
      → received net (inl reply, t) ≡ (inl body, t)
  received-of_body t reply body h e k =
      rw h ((judged-eq_body reply.status reply.body body t t).1 (k, e, refl))

  -- A request gets a body exactly if Fasit answers with that body, which can be read, and a status
  -- up to 299.
  pub do_request-eq_body :
      (request : HttpRequest) (s t : S) (body : String)
      → (do_request net request s ≡ (inl body, t)) ↔ (
          (reply : HttpReply) × (net.send request s ≡ (inl reply, t))
          × (reply.read_error ≡ none)
          × (reply.body ≡ body)
          × (reply.status ≤ 299))
  unfolding do_request
  do_request-eq_body request s t body = (
    received-eq_body (net.send request s) t body,
    λ (reply, sent, read, e, low). rw sent (received-of_body t reply body read e low),
  )

  module _ (fasit_url username password application environment : String) where
    abbrev pub load_balancers : HttpRequest
    load_balancers =
        get_request (fasit_url <> "/api/v2/resources") (balancer_query application environment)

    -- What `balancer_of` makes of no load balancer.
    balancer_of-eq_none :
        (config : String) (found : Option (List (Option String × Option String)))
        → (balancer_of (parsed_balancers config found) ≡ ok none) ↔ (found ≡ some [])
    balancer_of-eq_none config none = (λ h. cc, λ h. cc)
    balancer_of-eq_none config (some []) = (λ h. refl, λ h. refl)
    balancer_of-eq_none config (some (c ∷ cs)) =
        (λ h. absurd (go (all_ingresses (c ∷ cs)) h), λ h. cc)
      where
        go : (is : List FasitIngress) → ¬ (balancer_of (some_ingresses config is) ≡ ok none)
        go [] h = cc
        go (i ∷ is) h = cc

    balancer_received-eq_none :
        (r : (String ⊎ AppError) × S) (t : S)
        → (balancer_received net fasit_url username password r ≡ (ok none, t)) ↔ (
            ((e : AppError) × (r ≡ (inr e, t)))
            ⊎ ((body : String) × (r ≡ (inl body, t)) × (net.parse_load_balancers body ≡ some [])))
    unfolding parse_load_balancer_config
    balancer_received-eq_none (inr e, s) t = (λ h. inl (e, cc), λ h. ground arith)
    balancer_received-eq_none (inl body, s) t = (
      λ h. inr (body, cc, (balancer_of-eq_none body _).0 cc),
      λ h. elim h [
        | inl (e, p) ↦ cc
        | inr (b, p, q) ↦ cc ((balancer_of-eq_none b (net.parse_load_balancers b)).1 q, p)
      ],
    )

    -- For a url that a request can be built for, no load balancer is found exactly if Fasit lists
    -- none or the request failed: the two cases are not told apart.
    pub get_load_balancer_config-eq_none :
        (s t : S)
        → net.request_error "GET" (fasit_url <> "/api/v2/resources") ≡ none
        → (get_load_balancer_config net fasit_url username password application environment s
            ≡ (ok none, t))
          ↔ (((e : AppError) × (do_request net load_balancers s ≡ (inr e, t)))
              ⊎ ((body : String) × (do_request net load_balancers s ≡ (inl body, t))
                  × (net.parse_load_balancers body ≡ some [])))
    unfolding get_load_balancer_config
    get_load_balancer_config-eq_none s t built =
        rw (built, get_load_balancer_config)
          (balancer_received-eq_none (do_request net load_balancers s) t)

module _ {S : Type 0} (net : Net S) (fasit_url username password : String) where
  pub requested-eq_ok :
      (before : String) (q : HttpRequest) (go : M S ℤ) (s t : S) (id : ℤ)
      → (requested net fasit_url username password before q go s ≡ (ok id, t))
        ↔ ((net.request_error q.method q.url ≡ none) × (go s ≡ (ok id, t)))
  requested-eq_ok before q go s t id = ground arith

  pub with_payload-eq_ok :
      (m : String ⊎ GoError) (go : String → M S ℤ) (s t : S) (id : ℤ)
      → (with_payload net fasit_url username password m go s ≡ (ok id, t))
        ↔ ((payload : String) × (m ≡ inl payload) × (go payload s ≡ (ok id, t)))
  with_payload-eq_ok (inl p) go s t id = (λ h. (p, refl, h), λ (q, e, h). cc)
  with_payload-eq_ok (inr e) go s t id = (λ h. cc, λ (q, e, h). cc)
