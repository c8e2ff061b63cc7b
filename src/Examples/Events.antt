-- ===== src/Examples/Events.antt =====
-- Events, Sensu and the queue of Kafka at work.
use nais_api.Api.{completed}
use nais_api.Api.Deployment.{deploy}
use nais_api.Api.Laws.Announced.{Ends}
use nais_api.Daemon.{with_kafka}
use nais_api.Daemon.Laws.{IsSent, deploy-IsSent}
use nais_api.Event.{
  Event, complete, convert_timestamp, development, get_timestamp_as_time, nais, naisd, plus, unix,
}
use nais_api.Event.Laws.{IsMultiple, get_timestamp_as_time-eq, get_timestamp_as_time_bounds}
use nais_api.Examples.{app_request, app_spec}
use nais_api.Examples.Memory.{memory}
use nais_api.Examples.Servers.{server, small_socket}
use nais_api.Kafka.{Broker, Client, producer_round, send}
use nais_api.Kafka.Laws.{IsFifo, Runs, Runs-IsFifo, sent_one, started, took_one}
use nais_api.Prelude.{List, String, [], arith, inl, refl, ◌↔◌, ◌∷◌, ◌≡◌}
use nais_api.Prelude.Int.{negsuc, pos, ℤ, ◌<ℤ◌}
use nais_api.Prelude.Outcome.{panic}
use nais_api.Sensu.{default_sensu_host, deploy_message, notify_sensu_about_deploy}
use nais_api.Sensu.Laws.{IsFlooded, notify_sensu_about_deploy-eq_panic}

-- 2017-07-14, 02:40:00.123456789
abbrev some_time : ℤ
some_time = pos 1500000000123456789

get_timestamp_as_time-eq_example :
    (get_timestamp_as_time (convert_timestamp some_time) ≡ some_time)
    ↔ IsMultiple 8388608 (unix some_time)
get_timestamp_as_time-eq_example = get_timestamp_as_time-eq some_time

get_timestamp_as_time_bounds_example :
    (plus some_time (negsuc 3147483647) <ℤ get_timestamp_as_time (convert_timestamp some_time))
    × (get_timestamp_as_time (convert_timestamp some_time) <ℤ plus some_time (pos 3147483648))
get_timestamp_as_time_bounds_example = get_timestamp_as_time_bounds some_time

-- The time that is read back is another one.
another_time : get_timestamp_as_time (convert_timestamp some_time) ≡ pos 1499999997893528853
unfolding get_timestamp_as_time convert_timestamp
another_time = refl

notify_sensu_about_deploy-eq_panic_example :
    ((notify_sensu_about_deploy small_socket app_spec app_request "dev" some_time 0).0 ≡ panic) ↔ (
      (message : String) × (small_socket.marshal
          (deploy_message app_spec app_request "dev" some_time)
        ≡ inl message)
      × IsFlooded small_socket message (small_socket.dial default_sensu_host 0))
notify_sensu_about_deploy-eq_panic_example =
    notify_sensu_about_deploy-eq_panic small_socket app_spec app_request "dev" some_time 0

abbrev app_event : Event
app_event = record {
  correlation_id = "id";
  platform = nais;
  source = naisd;
  deployer = "user";
  team = "team";
  rollout_status = complete;
  environment = development;
  skya_environment = "t1";
  namespace = "default";
  cluster = "dev";
  application = "app";
  version = "1";
  image = record { name = "app"; tag = "1"; hash = "" };
  timestamp = record { seconds = pos 1500000000; nanos = pos 0 };
}

-- A broker that takes everything, with the values that it was sent, the last one first.
abbrev small_broker : Broker (List String)
small_broker = record {
  marshal = λ event. inl event.application;
  now = λ k. some_time;
  send_message = λ message k. (inl (pos 0), message.value ∷ k);
}

abbrev idle : Client (List String)
idle = record { producer_topic = "deploymentEvents"; send_queue = []; broker = [] }

abbrev busy : Client (List String)
busy = record idle { send_queue = app_event ∷ [] }

abbrev idle_again : Client (List String)
idle_again = record idle { broker = "app" ∷ [] }

small_run : Runs small_broker idle (app_event ∷ []) (app_event ∷ []) idle_again
unfolding send producer_round
small_run =
    took_one {es = app_event ∷ []} {ts = []} {d = busy} app_event
      (sent_one {es = []} {ts = []} {d = idle} app_event started refl) refl

Runs-IsFifo_example : IsFifo small_broker idle (app_event ∷ []) (app_event ∷ []) idle_again
Runs-IsFifo_example = Runs-IsFifo small_broker idle refl small_run

deploy-IsSent_example :
    Ends memory
      (with_kafka small_broker server)
      (IsSent memory server small_broker (completed "dev" app_request) idle)
      (0, idle)
      (deploy memory
        (with_kafka small_broker server)
        (inl app_request)
        ("user", "password")
        ([], (0, (0, idle))))
deploy-IsSent_example =
    deploy-IsSent memory server small_broker app_request ("user", "password") ([], (0, (0, idle)))
      (omega arith)
