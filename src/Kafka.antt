-- ===== src/Kafka.antt =====
-- pkg/kafka: the queue of deployment events and the loop that sends them. sarama, proto.Marshal, the
-- clock, the name of the host and the random number are parameters.
pub mod Laws
use nais_api.Event.{Event}
use nais_api.Prelude.{
  Bool, List, Option, String, [], if◌then◌else◌, inl, inr, length, ltb, none, some, suc, true, zero,
  ℕ, ◌++◌, ◌<>◌, ◌∷◌, ◌⊎◌,
}
use nais_api.Prelude.Int.{ℤ}
use nais_api.Prelude.Outcome.{GoError, M, Outcome, err, errorf, ok}
use nais_api.Prelude.Text.{itoa}

pub record Sasl : Type 0 where
  pub enabled : Bool
  pub handshake : Bool
  pub username : String
  pub password : String

pub record Tls : Type 0 where
  pub enabled : Bool
  pub insecure : Bool

pub record Config : Type 0 where
  pub enabled : Bool
  pub brokers : List String
  pub topic : String
  pub client_id : String
  pub group_id : String
  pub log_verbosity : String
  pub tls : Tls
  pub sasl : Sasl

unfoldable pub default_group_name : String ⊎ GoError → ℤ → String
unfolding itoa
default_group_name (inl hostname) rand = "naiserator-" <> hostname
default_group_name (inr e) rand = "naiserator-" <> itoa rand

-- tls.Config, as far as it is set.
pub record TlsConfig : Type 0 where
  pub insecure_skip_verify : Bool

unfoldable pub tls_config : Tls → TlsConfig
tls_config t = record { insecure_skip_verify = t.insecure }

-- sarama.Config, as far as it is set.
pub record ProducerConfig : Type 0 where
  pub client_id : String
  pub sasl_enable : Bool
  pub sasl_user : String
  pub sasl_password : String
  pub sasl_handshake : Bool
  pub return_successes : Bool
  pub wait_for_all : Bool
  pub tls_enable : Bool
  pub tls : TlsConfig

pub record ProducerMessage : Type 0 where
  pub topic : String
  pub timestamp : ℤ
  pub value : String

-- What is called, on a state `K` of the broker.
pub record Broker (K : Type 0) : Type 0 where
  pub marshal : Event → String ⊎ GoError
  pub now : K → ℤ
  pub send_message : ProducerMessage → K → (ℤ ⊎ GoError) × K

-- A `Client`, with the broker that its producer talks to.
pub record Client (K : Type 0) : Type 0 where
  pub producer_topic : String
  pub send_queue : List Event
  pub broker : K

abbrev pub queue_size : ℕ
queue_size = 4096

unfoldable pub producer_config : Config → ProducerConfig
unfolding tls_config
producer_config cfg = record {
  client_id = cfg.client_id <> "-producer";
  sasl_enable = cfg.sasl.enabled;
  sasl_user = cfg.sasl.username;
  sasl_password = cfg.sasl.password;
  sasl_handshake = cfg.sasl.handshake;
  return_successes = true;
  wait_for_all = true;
  tls_enable = cfg.tls.enabled;
  tls = tls_config cfg.tls;
}

-- `new_sync_producer` is sarama.NewSyncProducer.
unfoldable pub new_client :
    {K : Type 0} → (List String → ProducerConfig → K ⊎ GoError) → Config → Outcome (Client K)
unfolding producer_config
new_client new_sync_producer cfg = elim (new_sync_producer cfg.brokers (producer_config cfg)) [
  | inr e ↦ err (errorf ("while setting up Kafka producer: " <> e.text))
  | inl broker ↦ ok (record { producer_topic = cfg.topic; send_queue = []; broker = broker })
]

module _ {K : Type 0} (b : Broker K) where
  abbrev accepted : (ℤ ⊎ GoError) × K → Outcome (Unit {0}) × K
  accepted (inl offset, k) = (ok tt, k)
  accepted (inr e, k) = (err (errorf ("while sending reply over Kafka: " <> e.text)), k)

  -- The private `send`.
  unfoldable pub send_event : String → Event → M K (Unit {0})
  send_event topic event k = elim (b.marshal event) [
    | inr e ↦ (err (errorf ("while encoding Protobuf: " <> e.text)), k)
    | inl payload ↦
        accepted (b.send_message (record { topic = topic; timestamp = b.now k; value = payload }) k)
  ]

  -- `Send` puts an event in the queue; it has to wait, and there is no client yet, while the queue
  -- is full.
  unfoldable pub send : Event → Client K → Option (Client K)
  send event c =
      if ltb (length c.send_queue) queue_size
      then some (record c { send_queue = c.send_queue ++ event ∷ [] })
      else none

  abbrev pub sent : Client K → List Event → Option (Event × Client K)
  sent c [] = none
  sent c (event ∷ events) = some (
    event,
    record c { send_queue = events; broker = (send_event c.producer_topic event c.broker).1 },
  )

  -- One round of the loop, with the event that it takes: it has to wait while the queue is empty. An
  -- error is only logged.
  unfoldable pub producer_round : Client K → Option (Event × Client K)
  unfolding send_event
  producer_round c = sent c c.send_queue

  -- The loop has no end; `rounds` counts those that it makes, and it stays where it has to wait.
  unfoldable pub producer_loop : ℕ → Client K → Client K
  unfolding producer_round
  producer_loop zero c = c
  producer_loop (suc rounds) c = elim (producer_round c) [
    | none ↦ c
    | some (event, later) ↦ producer_loop rounds later
  ]

  abbrev pub later_sent : Client K → Option (Client K) → Client K
  later_sent c (some d) = d
  later_sent c none = c

  abbrev pub sent_after_round : Event → Client K → Option (Event × Client K) → Client K
  unfolding send
  sent_after_round event c none = c
  sent_after_round event c (some (first, later)) = later_sent later (send event later)

  abbrev pub sent_or_wait : Event → Client K → Option (Client K) → Client K
  unfolding send producer_round
  sent_or_wait event c (some d) = d
  sent_or_wait event c none = sent_after_round event c (producer_round c)

  -- `Send` as a handler of events: at a full queue it waits until the loop has taken an event.
  unfoldable pub send_waiting : Event → Client K → Client K
  unfolding send producer_round
  send_waiting event c = sent_or_wait event c (send event c)
