-- ===== src/Daemon/Laws.antt =====
-- Where the events of deployments end up when Kafka is enabled (naisd.go, api/api.go).
use nais_api.Api.{Server, completed, spec_of}
use nais_api.Api.Deployment.{World, deploy, event_of}
use nais_api.Api.Laws.Announced.{Ends, Ends-map, IsTold, deploy-Ends}
use nais_api.App.{Spec}
use nais_api.Daemon.{beside, with_kafka}
use nais_api.Event.{Event}
use nais_api.Kafka.{
  Broker, Client, later_sent, producer_loop, producer_round, queue_size, send, send_event,
  send_waiting, sent_or_wait,
}
use nais_api.Kafka.Laws.{delivered, loop-drains}
use nais_api.Kubernetes.Cluster.{Cluster}
use nais_api.Manifest.{NaisManifest}
use nais_api.Manifest.Download.{generate_manifest, generated}
use nais_api.Prelude.{
  List, Option, String, [], ap, arith, inl, inr, length, length-append, none, refl, some, subst,
  sym, ℕ, ◌++◌, ◌<◌, ◌∙◌, ◌∷◌, ◌≡◌, ◌≤◌, ◌⊎◌,
}
use nais_api.Prelude.Int.{ℤ}
use nais_api.Prelude.Outcome.{GoError, Outcome, err, ok, panic}
use nais_api.Request.{Deploy}
use nais_api.Sensu.{
  Socket, default_sensu_host, dialled, generate_deploy_message, logged, notify_sensu_about_deploy,
  notify_with, replied, send_message, stop_character,
}

module _ {K : Type 0} (b : Broker K) where
  -- The queue is within its size, and the loop sends what was queued, and then the event.
  pub record IsQueued (c : Client K) (e : Event) (d : Client K) : Type 0 where
    pub within : length d.send_queue ≤ queue_size
    pub drains : producer_loop b (length d.send_queue) d ≡ record c {
      send_queue = [];
      broker = delivered b c.producer_topic (c.send_queue ++ e ∷ []) c.broker;
    }

  le_cases : (a n : ℕ) → a ≤ n → (a < n) ⊎ (a ≡ n)
  le_cases a n h = ground arith

  send-room :
      (e : Event) (c : Client K)
      → length c.send_queue < queue_size
      → send b e c ≡ some (record c { send_queue = c.send_queue ++ e ∷ [] })
  unfolding send
  send-room e c h = ground arith

  send-full : (e : Event) (c : Client K) → queue_size ≤ length c.send_queue → send b e c ≡ none
  unfolding send
  send-full e c h = ground arith

  abbrev queued : String → List Event → K → Client K
  queued topic es k = record { producer_topic = topic; send_queue = es; broker = k }

  appended-IsQueued :
      (e : Event) (topic : String) (q : List Event) (k : K)
      → length q < queue_size
      → IsQueued (queued topic q k) e (queued topic (q ++ e ∷ []) k)
  appended-IsQueued e topic q k h = record {
    within = omega (arith, h, length-append q (e ∷ []));
    drains = loop-drains b topic (q ++ e ∷ []) k;
  }

  full-IsQueued :
      (e : Event) (topic : String) (q : List Event) (k : K)
      → length q ≡ queue_size
      → IsQueued (queued topic q k) e (sent_or_wait b e (queued topic q k) none)
  unfolding producer_round delivered send
  full-IsQueued e topic [] k h = absurd (omega (arith, h))
  full-IsQueued e topic (x ∷ q) k h =
      let later = queued topic q (send_event b topic x k).1 in
      subst (λ d. IsQueued (queued topic (x ∷ q) k) e (later_sent b later d))
        (sym (send-room e later (omega (arith, h))))
        (record {
          within = omega (arith, h, length-append q (e ∷ []));
          drains = loop-drains b topic (q ++ e ∷ []) (send_event b topic x k).1;
        })

  send_waiting-IsQueued :
      (e : Event) (c : Client K)
      → length c.send_queue ≤ queue_size
      → IsQueued c e (send_waiting b e c)
  unfolding send_waiting
  send_waiting-IsQueued e c h = elim (le_cases (length c.send_queue) queue_size h) [
    | inl room ↦
        subst (λ d. IsQueued c e (sent_or_wait b e c d)) (sym (send-room e c room))
          (appended-IsQueued e c.producer_topic c.send_queue c.broker room)
    | inr full ↦
        subst (λ d. IsQueued c e (sent_or_wait b e c d)) (sym (send-full e c (omega (arith, full))))
          (full-IsQueued e c.producer_topic c.send_queue c.broker full)
  ]

module _ {S A : Type 0} (socket : Socket S) where
  abbrev both : Socket (S × A)
  both = beside socket

  replied_beside : (o : (String ⊎ GoError) × (S × A)) → (replied both o).1.1 ≡ o.1.1
  replied_beside (inl reply, (s, a)) = refl
  replied_beside (inr e, (s, a)) = refl

  dialled_beside :
      (message : String) (o : Option GoError × (S × A)) → (dialled both message o).1.1 ≡ o.1.1
  dialled_beside message (some e, (s, a)) = refl
  dialled_beside message (none, (s, a)) =
      replied_beside (both.read (both.write stop_character (both.write message (s, a))))

  logged_beside : (o : Outcome (Unit {0}) × (S × A)) → (logged both o).1.1 ≡ o.1.1
  logged_beside (ok u, n) = refl
  logged_beside (err e, n) = refl
  logged_beside (panic, n) = refl

  notify_with_beside : (o : Outcome String) (n : S × A) → (notify_with both o n).1.1 ≡ n.1
  unfolding send_message
  notify_with_beside (ok message) n =
      logged_beside (send_message both message n)
      ∙ dialled_beside message (both.dial default_sensu_host n)
  notify_with_beside (err e) n = refl
  notify_with_beside panic n = refl

  -- Sensu leaves alone what stands beside the network.
  notify_beside :
      (spec : Spec) (r : Deploy) (cluster_name : String) (now : ℤ) (n : S × A)
      → (notify_sensu_about_deploy both spec r cluster_name now n).1.1 ≡ n.1
  unfolding notify_sensu_about_deploy
  notify_beside spec r cluster_name now n =
      notify_with_beside (generate_deploy_message both spec r cluster_name now) n

module _ {F S K : Type 0} (c : Cluster) (base : Server c F S) (b : Broker K) where
  abbrev daemon : Server c F (S × Client K)
  daemon = with_kafka b base

  -- The event of the deployment was queued behind what was queued before.
  abbrev pub IsSent : Deploy → Client K → S × Client K → Type 0
  IsSent r before (s, after) =
      (m : NaisManifest) × (t : S) × (generate_manifest base.outside r ≡ generated m)
      × IsQueued b before (event_of c base r m t) after

  told-IsSent :
      (r : Deploy) (n k : S × Client K)
      → length n.1.send_queue ≤ queue_size
      → IsTold c daemon r n k
      → IsSent r n.1 k
  unfolding with_kafka
  told-IsSent r n k h (m, g, e) =
      let spec = spec_of r m in
      let now = base.now n.0 in
      let n1 = (notify_sensu_about_deploy (beside base.socket) spec r base.cluster_name now n).1 in
      let event = event_of c base r m n1.0 in
      (
        m,
        n1.0,
        g,
        subst (IsQueued b n.1 event)
            (sym (
              ap (λ x. x.1) e
              ∙ ap (send_waiting b event)
                  (notify_beside base.socket spec r base.cluster_name now n)))
            (send_waiting-IsQueued b event n.1 h),
      )

  -- When Kafka is enabled and the queue is within its size, the event of a deployment that is
  -- answered with a status is queued behind what was there: so many rounds of the loop as the
  -- queue is then long leave it empty, and the broker has been sent what was queued, in order,
  -- and this event last. A deployment that is answered with an error leaves the queue as it was.
  pub deploy-IsSent :
      (r : Deploy) (user : String × String) (w : World c daemon)
      → length w.1.1.1.send_queue ≤ queue_size
      → Ends c daemon
          (IsSent (completed base.cluster_name r) w.1.1.1)
          w.1.1
          (deploy c daemon (inl r) user w)
  unfolding deploy with_kafka
  deploy-IsSent r user w h =
      Ends-map c daemon (λ k. told-IsSent (completed base.cluster_name r) w.1.1 k h) w.1.1
        (deploy c daemon (inl r) user w) (deploy-Ends c daemon r user w)
