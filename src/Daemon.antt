-- ===== src/Daemon.antt =====
-- naisd.go: how the daemon starts, and the daemon that sends its events to Kafka. The flags, the building of a client of the cluster, Kafka and the web
-- server are parameters.

pub mod Laws
use nais_api.Api.{Server}
use nais_api.Kafka.{Broker, Client, Config, ProducerConfig, new_client, send_waiting}
use nais_api.Kubernetes.Cluster.{Cluster}
use nais_api.Prelude.{
  Bool, List, Option, String, [], false, if◌then◌else◌, inl, inr, none, some, true, ◌<>◌, ◌==◌, ◌⊎◌,
}
use nais_api.Prelude.Outcome.{GoError, err, ok, panic}
use nais_api.Prelude.Text.{split}
use nais_api.Sensu.{Socket}

pub record DaemonFlags : Type 0 where
  pub kafka_brokers : String
  pub kafka : Config
  pub kubeconfig : String
  pub fasit_url : String
  pub cluster_subdomain : String
  pub cluster_name : String
  pub istio_enabled : Bool
  pub authentication_enabled : Bool

-- The flags that are not given. `group` is DefaultGroupName.
unfoldable pub default_flags : (String → String) → String → DaemonFlags
default_flags getenv group = record {
  kafka_brokers = "localhost:9092";
  kafka = record {
    enabled = false;
    brokers = [];
    topic = "deploymentEvents";
    client_id = group;
    group_id = group;
    log_verbosity = "";
    tls = record { enabled = false; insecure = false };
    sasl = record {
      enabled = false;
      handshake = true;
      username = getenv "KAFKA_SASL_USERNAME";
      password = getenv "KAFKA_SASL_PASSWORD";
    };
  };
  kubeconfig = "";
  fasit_url = "https://fasit.example.no";
  cluster_subdomain = "nais-example.nais.example.no";
  cluster_name = "kubernetes";
  istio_enabled = false;
  authentication_enabled = false;
}

-- log.Fatalf ends the process with a message, and a panic with another code.
pub data Start (A : Type 0) : Type 0 where
  running : A → Start A
  fatal : String → Start A
  panics : Start A

-- The brokers are separated by commas.
unfoldable pub kafka_config : DaemonFlags → Config
unfolding split
kafka_config f = record f.kafka { brokers = split "," f.kafka_brokers }

-- What handles the events: nothing, or the queue of a client of Kafka.
unfoldable pub deployment_event_client :
    {K : Type 0}
    → (List String → ProducerConfig → K ⊎ GoError)
    → DaemonFlags
    → Start (Option (Client K))
unfolding new_client kafka_config
deployment_event_client new_sync_producer f =
    if f.kafka.enabled
    then elim (new_client new_sync_producer (kafka_config f)) [
      | ok kafka_client ↦ running (some kafka_client)
      | err e ↦ fatal ("unable to setup kafka: " <> e.text)
      | panic ↦ panics
    ]
    else running none

-- The configuration of the cluster: from a file if one is named, or else from inside the cluster.
module _ {G C : Type 0} (from_flags : String → G ⊎ GoError) (in_cluster : G ⊎ GoError)
    (for_config : G → C ⊎ GoError) where
  abbrev configured : G ⊎ GoError → Start C
  configured (inr e) = panics
  configured (inl config) = elim (for_config config) [ inl c ↦ running c | inr e ↦ panics ]

  unfoldable pub new_client_set : String → Start C
  new_client_set kubeconfig =
      configured (if kubeconfig == "" then in_cluster else from_flags kubeconfig)

-- What NewAPI is given, beside the viewer of statuses, which is the client of the cluster again.
pub record DaemonSettings (K C : Type 0) : Type 0 where
  pub client_set : C
  pub fasit_url : String
  pub cluster_subdomain : String
  pub cluster_name : String
  pub istio_enabled : Bool
  pub authentication_enabled : Bool
  pub event_client : Option (Client K)

abbrev pub and_start : {A B : Type 0} → Start A → (A → Start B) → Start B
and_start (running a) f = f a
and_start (fatal message) f = fatal message
and_start panics f = panics

-- `main` until it listens, Kafka first.
module _ {K G C : Type 0} (new_sync_producer : List String → ProducerConfig → K ⊎ GoError)
    (from_flags : String → G ⊎ GoError) (in_cluster : G ⊎ GoError)
    (for_config : G → C ⊎ GoError) where
  unfoldable pub start : DaemonFlags → Start (DaemonSettings K C)
  unfolding deployment_event_client new_client_set
  start f = and_start (deployment_event_client new_sync_producer f) λ event_client.
      and_start (new_client_set from_flags in_cluster for_config f.kubeconfig) λ client_set.
        running (record {
          client_set = client_set;
          fasit_url = f.fasit_url;
          cluster_subdomain = f.cluster_subdomain;
          cluster_name = f.cluster_name;
          istio_enabled = f.istio_enabled;
          authentication_enabled = f.authentication_enabled;
          event_client = event_client;
        })

-- A socket, where the network has something beside it.
abbrev pub beside : {S A : Type 0} → Socket S → Socket (S × A)
beside socket = record {
  dial = λ host (s, a). let (r, t) = socket.dial host s in (r, (t, a));
  write = λ text (s, a). (socket.write text s, a);
  read = λ (s, a). let (r, t) = socket.read s in (r, (t, a));
  close = λ (s, a). (socket.close s, a);
  marshal = socket.marshal;
  print = socket.print;
}

-- The daemon when Kafka is enabled: its events are handled by the queue of a client, which stands beside
-- the network.
unfoldable pub with_kafka :
    {c : Cluster} {F S K : Type 0} → Broker K → Server c F S → Server c F (S × Client K)
unfolding send_waiting
with_kafka b server = record {
  platform = server.platform;
  outside = server.outside;
  multierror = server.multierror;
  marshal = server.marshal;
  fasit = server.fasit;
  cluster_subdomain = server.cluster_subdomain;
  cluster_name = server.cluster_name;
  istio_enabled = server.istio_enabled;
  authentication_enabled = server.authentication_enabled;
  azure_is_set = server.azure_is_set;
  post_form = server.post_form;
  socket = beside server.socket;
  parse_image = server.parse_image;
  now = λ (s, k). server.now s;
  new_uuid = λ (s, k). server.new_uuid s;
  deployment_event_handler = λ event (s, k). (s, send_waiting b event k);
}
