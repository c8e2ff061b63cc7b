-- ===== src/Examples/FasitClient.antt =====
-- The client of Fasit at work.
use nais_api.AppError.{AppError}
use nais_api.Examples.{app_request}
use nais_api.Fasit.{NaisResource, no_resource}
use nais_api.Fasit.Client.{HttpRequest, Net, do_request}
use nais_api.Fasit.Client.Balancer.{client, get_load_balancer_config}
use nais_api.Fasit.Client.Calls.{create_resource, safe_marshal, update_resource}
use nais_api.Fasit.Client.Laws.{get_load_balancer_config-eq_none, load_balancers}
use nais_api.Fasit.Client.Laws.Created.{Posted, create_resource-eq_ok}
use nais_api.Fasit.Client.Laws.Synchronised.{Served, create_or_update_fasit_resources-Served}
use nais_api.Fasit.Client.Laws.Written.{Wrote, update_resource-eq_ok}
use nais_api.Fasit.Client.Scoped.{get_scoped_resource}
use nais_api.Fasit.Payload.{no_payload}
use nais_api.Fasit.Sync.{create_or_update_fasit_resources}
use nais_api.Manifest.{ExposedResource}
use nais_api.Prelude.{
  String, [], false, if◌then◌else◌, inl, inr, none, refl, some, suc, true, ℕ, ◌==◌, ◌↔◌, ◌∷◌, ◌≡◌,
  ◌⊎◌,
}
use nais_api.Prelude.Int.{pos}
use nais_api.Prelude.Outcome.{errorf, ok}

-- A Fasit that has one resource and no load balancer, with the number of the requests so far.
abbrev small_net : Net ℕ
small_net = record {
  request_error = λ method url. none;
  send = λ request n.
      if request.url == "https://fasit/api/v2/resources/7"
      then (inl (record { status = 200; body = "ok"; read_error = none; location = "" }), suc n)
      else (
        inl (record { status = 503; body = "closed"; read_error = none; location = "" }),
        suc n,
      );
  parse_resource = λ body. inr (errorf "no resource");
  parse_environment_class = λ body. inl "t";
  marshal_resource = λ payload. inl "payload";
  marshal_instance = λ payload. inl "instance";
  encode = λ query. "";
  consume = λ files. inr (errorf "no file");
  print_files = λ files. "map[]";
  parse_load_balancers = λ body. some [];
  is_property_line = λ line. true;
  trim_space = λ text. text;
  atoi = λ text. inr (errorf "no number");
}

abbrev known_resource : NaisResource
known_resource = record no_resource { id = pos 7 }

abbrev rest_service : ExposedResource
rest_service = record {
  alias = "api";
  resource_type = "restservice";
  path = "/api";
  description = "";
  wsdl_group_id = "";
  wsdl_artifact_id = "";
  wsdl_version = "";
  security_token = "";
  all_zones = false;
}

abbrev ask_balancers : HttpRequest
ask_balancers = load_balancers small_net "https://fasit" "user" "password" "app" "t1"

get_load_balancer_config-eq_none_example :
    (get_load_balancer_config small_net "https://fasit" "user" "password" "app" "t1" 0
      ≡ (ok none, 1))
    ↔ (((e : AppError) × (do_request small_net ask_balancers 0 ≡ (inr e, 1)))
        ⊎ ((body : String) × (do_request small_net ask_balancers 0 ≡ (inl body, 1))
            × (small_net.parse_load_balancers body ≡ some [])))
get_load_balancer_config-eq_none_example =
    get_load_balancer_config-eq_none small_net "https://fasit" "user" "password" "app" "t1" 0 1 refl

update_resource-eq_ok_example :
    (update_resource small_net "https://fasit" "user" "password" known_resource rest_service "t"
        "t1" "app.host" app_request 0
      ≡ (ok (pos 7), 1))
    ↔ Wrote small_net "https://fasit" "user" "password" rest_service "t" "t1" "app.host" app_request
        known_resource 0 1
        (pos 7)
update_resource-eq_ok_example =
    update_resource-eq_ok small_net "https://fasit" "user" "password" rest_service "t" "t1"
      "app.host" app_request known_resource 0 1 (pos 7)

update_resource_runs :
    update_resource small_net "https://fasit" "user" "password" known_resource rest_service "t" "t1"
      "app.host" app_request 0
    ≡ (ok (pos 7), 1)
unfolding update_resource
update_resource_runs = refl

-- A Fasit that gives every new resource the id 12.
abbrev open_net : Net ℕ
open_net = record small_net {
  send = λ request n.
      (inl (record { status = 201; body = ""; read_error = none; location = "/api/12" }), suc n);
  atoi = λ text. if text == "12" then inl (pos 12) else inr (errorf "no number");
}

create_resource-eq_ok_example :
    (create_resource open_net "https://fasit" "user" "password" rest_service "t" "t1" "app.host"
        app_request 0
      ≡ (ok (pos 12), 1))
    ↔ Posted open_net "https://fasit" "user" "password" rest_service "t" "t1" "app.host" app_request
        0 1
        (pos 12)
create_resource-eq_ok_example =
    create_resource-eq_ok open_net "https://fasit" "user" "password" rest_service "t" "t1"
      "app.host" app_request 0 1 (pos 12)

create_resource_runs :
    create_resource open_net "https://fasit" "user" "password" rest_service "t" "t1" "app.host"
      app_request 0
    ≡ (ok (pos 12), 1)
unfolding create_resource
create_resource_runs = refl

safe_marshal_runs :
    safe_marshal
      (record small_net { marshal_resource = λ payload. inl "a\\u0026b" })
      "https://fasit"
      "user"
      "password"
      no_payload
    ≡ inl "a&b"
unfolding safe_marshal
safe_marshal_runs = refl

-- A Fasit that has no resource, and takes every new one.
abbrev empty_net : Net ℕ
empty_net = record open_net {
  send = λ request n.
      if request.method == "GET"
      then (inl (record { status = 404; body = "none"; read_error = none; location = "" }), suc n)
      else open_net.send request n;
}

create_or_update_fasit_resources-Served_example :
    (create_or_update_fasit_resources
        (client empty_net "https://fasit" "user" "password")
        (rest_service ∷ [])
        "app.host"
        "t"
        "t1"
        app_request
        0
      ≡ (ok (pos 12 ∷ []), 2))
    ↔ Served empty_net "https://fasit" "user" "password" "t" "t1" "app.host" app_request
        (rest_service ∷ [])
        0
        (pos 12 ∷ [])
        2
create_or_update_fasit_resources-Served_example =
    create_or_update_fasit_resources-Served empty_net "https://fasit" "user" "password" "t" "t1"
      "app.host" app_request (rest_service ∷ []) 0 (pos 12 ∷ []) 2

served_runs :
    create_or_update_fasit_resources
      (client empty_net "https://fasit" "user" "password")
      (rest_service ∷ [])
      "app.host"
      "t"
      "t1"
      app_request
      0
    ≡ (ok (pos 12 ∷ []), 2)
unfolding create_or_update_fasit_resources get_scoped_resource create_resource
served_runs = refl
