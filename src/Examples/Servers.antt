-- ===== src/Examples/Servers.antt =====
-- A small daemon, with a Fasit and a Sensu, for the examples.
use nais_api.Api.{Server}
use nais_api.AppError.{app_error}
use nais_api.Examples.{app_certificate, app_load_balancer, app_manifest, test_platform}
use nais_api.Examples.Memory.{memory}
use nais_api.Examples.Requests.{outside}
use nais_api.Fasit.Sync.{Adapter}
use nais_api.Manifest.{NaisManifest, no_amounts}
use nais_api.Prelude.{[], false, if◌then◌else◌, inl, inr, none, some, suc, true, ℕ, ◌==◌, ◌∷◌}
use nais_api.Prelude.Int.{pos}
use nais_api.Prelude.Outcome.{ok}
use nais_api.Sensu.{Socket}

-- A Fasit that knows the alias "known", with the number of its changes.
abbrev pub small_fasit : Adapter ℕ
small_fasit = record {
  get_scoped_resource = λ request environment application zone n.
      if request.alias == "known"
      then (ok (inl app_certificate), n)
      else (ok (inr (app_error none "item not found in Fasit" 404)), n);
  create_resource = λ r class environment hostname request n. (ok (pos 9), suc n);
  update_resource = λ existing r class environment hostname request n. (ok existing.id, suc n);
  get_fasit_environment_class = λ environment n. (ok "t", n);
  get_fasit_application = λ application n. (ok tt, n);
  get_scoped_resources = λ requests environment application zone n. (ok (app_certificate ∷ []), n);
  get_load_balancer_config = λ application environment n. (ok (some app_load_balancer), n);
  create_application_instance = λ request environment domain exposed used n. (ok tt, suc n);
}

-- A Sensu that is content, on the number of the writes and events.
abbrev pub small_socket : Socket ℕ
small_socket = record {
  dial = λ host n. (none, n);
  write = λ text n. suc n;
  read = λ n. (inl "ok", n);
  close = λ n. n;
  marshal = λ message. inl message.output;
  print = λ message. message.output;
}

-- The manifest whose Redis can be made.
abbrev deployable_manifest : NaisManifest
deployable_manifest = record app_manifest {
  redis = record app_manifest.redis { limits = no_amounts };
}

abbrev pub server : Server memory ℕ ℕ
server = record {
  platform = test_platform;
  outside = record outside { parse_yaml = λ text. ok deployable_manifest };
  multierror = λ errors. "errors";
  marshal = λ groups. ok "groups";
  fasit = λ username password. small_fasit;
  cluster_subdomain = "nais.example.no";
  cluster_name = "dev";
  istio_enabled = false;
  authentication_enabled = true;
  azure_is_set = true;
  post_form = λ username password. inr (pos 200);
  socket = small_socket;
  parse_image = λ image. some (record { repository = "app"; tag = "1" });
  now = λ n. pos 1500000000;
  new_uuid = λ n. "id";
  deployment_event_handler = λ event n. suc n;
}
