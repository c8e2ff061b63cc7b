-- ===== src/Fasit/Client/Balancer.antt =====
-- api/fasit.go: the load balancers of an application, its instance, and the client as an adapter.
use nais_api.AppError.{AppError, describe}
use nais_api.Fasit.{FasitIngress, NaisResource, no_resource}
use nais_api.Fasit.Client.{Net, do_request, get_request, write_request}
use nais_api.Fasit.Client.Calls.{
  answer, create_resource, get_fasit_application, get_fasit_environment_class, update_resource,
  with_payload,
}
use nais_api.Fasit.Client.Scoped.{get_scoped_resource, get_scoped_resources}
use nais_api.Fasit.Payload.{build_application_instance_payload}
use nais_api.Fasit.Sync.{Adapter}
use nais_api.Prelude.{List, Option, String, [], inl, inr, map, none, some, ◌++◌, ◌<>◌, ◌∷◌, ◌⊎◌}
use nais_api.Prelude.Dict.{Dict}
use nais_api.Prelude.Int.{ℤ}
use nais_api.Prelude.Outcome.{M, Outcome, err, errorf, ok, panic}
use nais_api.Prelude.Text.{split}
use nais_api.Request.{Deploy}

-- The ingresses of one load balancer: no host, no ingress.
abbrev pub load_balancer_ingresses : Option String × Option String → List FasitIngress
load_balancer_ingresses (none, roots) = []
load_balancer_ingresses (some host, none) =
    map (λ path. record { host = host; path = path }) (split "," "")
load_balancer_ingresses (some host, some roots) =
    map (λ path. record { host = host; path = path }) (split "," roots)

abbrev pub all_ingresses : List (Option String × Option String) → List FasitIngress
all_ingresses [] = []
all_ingresses (c ∷ cs) = load_balancer_ingresses c ++ all_ingresses cs

abbrev pub some_ingresses : String → List FasitIngress → Outcome (List FasitIngress)
some_ingresses config [] = err (errorf ("no loadbalancer config found for: " <> config))
some_ingresses config (i ∷ is) = ok (i ∷ is)

abbrev pub parsed_balancers :
    String → Option (List (Option String × Option String)) → Outcome (List FasitIngress)
parsed_balancers config none =
    err (errorf ("error parsing load balancer config: " <> config <> " "))
parsed_balancers config (some []) = ok []
parsed_balancers config (some (c ∷ cs)) = some_ingresses config (all_ingresses (c ∷ cs))

abbrev pub balancer_of : Outcome (List FasitIngress) → Outcome (Option NaisResource)
balancer_of (ok []) = ok none
balancer_of (ok (i ∷ is)) =
    ok (some (record no_resource { resource_type = "LoadBalancerConfig"; ingresses = i ∷ is }))
balancer_of (err e) = err e
balancer_of panic = panic

abbrev pub balancer_query : String → String → Dict String
balancer_query application environment =
    ("environment", environment)
    ∷ ("application", application)
    ∷ ("type", "LoadBalancerConfig")
    ∷ []

module _ {S : Type 0} (net : Net S) (fasit_url username password : String) where
  unfoldable pub parse_load_balancer_config : String → Outcome (List FasitIngress)
  unfolding split
  parse_load_balancer_config config = parsed_balancers config (net.parse_load_balancers config)

  -- A failed call gives the error of buildRequest, which is nil by then.
  abbrev pub balancer_received : (String ⊎ AppError) × S → Outcome (Option NaisResource) × S
  unfolding parse_load_balancer_config
  balancer_received (inr e, s) = (ok none, s)
  balancer_received (inl body, s) = (balancer_of (parse_load_balancer_config body), s)

  -- The error of buildRequest is not looked at, and Do has no request then: it panics.
  unfoldable pub get_load_balancer_config : String → String → M S (Option NaisResource)
  unfolding do_request parse_load_balancer_config
  get_load_balancer_config application environment s =
      elim (net.request_error "GET" (fasit_url <> "/api/v2/resources")) [
        | some e ↦ (panic, s)
        | none ↦ balancer_received (
            do_request net
              (get_request (fasit_url <> "/api/v2/resources")
                (balancer_query application environment))
              s)
      ]

  -- The error of http.NewRequest is not looked at, and SetBasicAuth has no request then.
  unfoldable pub create_application_instance :
      Deploy → String → String → List ℤ → List ℤ → M S (Unit {0})
  unfolding do_request build_application_instance_payload describe
  create_application_instance request environment subdomain exposed used =
      with_payload net fasit_url username password
        (net.marshal_instance
          (build_application_instance_payload request environment subdomain exposed used))
        λ payload s.
          elim (net.request_error "POST" (fasit_url <> "/api/v2/applicationinstances/")) [
            | some e ↦ (panic, s)
            | none ↦
                answer
                  (do_request net
                    (write_request "POST" (fasit_url <> "/api/v2/applicationinstances/") request
                      payload)
                    s)
                  λ body. ok tt
          ]

  -- FasitClient
  abbrev pub client : Adapter S
  client = record {
    get_scoped_resource = get_scoped_resource net fasit_url username password;
    create_resource = create_resource net fasit_url username password;
    update_resource = update_resource net fasit_url username password;
    get_fasit_environment_class = get_fasit_environment_class net fasit_url username password;
    get_fasit_application = get_fasit_application net fasit_url username password;
    get_scoped_resources = get_scoped_resources net fasit_url username password;
    get_load_balancer_config = get_load_balancer_config;
    create_application_instance = create_application_instance;
  }
