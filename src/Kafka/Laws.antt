-- ===== src/Kafka/Laws.antt =====
-- What the queue of deployment events promises (pkg/kafka/producer.go).
use mathlib.Core.List.{append_assoc}
use nais_api.Event.{Event}
use nais_api.Kafka.{
  Broker, Client, producer_loop, producer_round, queue_size, send, send_event, sent,
}
use nais_api.Prelude.{
  List, String, [], ap, arith, length, length-append, refl, some, subst, sym, ◌++◌, ◌<◌, ◌∙◌, ◌∷◌,
  ◌≡◌, ◌≤◌,
}

module _ {K : Type 0} (b : Broker K) where
  -- `Runs c accepted taken d`: handlers and the loop have moved `c` to `d`, in any order; the handlers
  -- have put the events `accepted` in the queue, and the loop has taken the events `taken`.
  pub data Runs (c : Client K) : List Event → List Event → Client K → Type 0 where
    started : Runs c [] [] c
    sent_one :
        {es ts : List Event} {d d' : Client K} (e : Event)
        → Runs c es ts d
        → send b e d ≡ some d'
        → Runs c (es ++ e ∷ []) ts d'
    took_one :
        {es ts : List Event} {d d' : Client K} (e : Event)
        → Runs c es ts d
        → producer_round b d ≡ some (e, d')
        → Runs c es (ts ++ e ∷ []) d'

  -- The broker after some events have been sent to it, one after the other.
  unfoldable pub delivered : String → List Event → K → K
  unfolding send_event
  delivered topic [] k = k
  delivered topic (e ∷ es) k = delivered topic es (send_event b topic e k).1

  delivered-append :
      (topic : String) (es fs : List Event) (k : K)
      → delivered topic (es ++ fs) k ≡ delivered topic fs (delivered topic es k)
  unfolding delivered
  delivered-append topic [] fs k = refl
  delivered-append topic (e ∷ es) fs k = delivered-append topic es fs (send_event b topic e k).1

  -- The queue is within its size and holds what was accepted and not yet taken, in order, and the
  -- broker was sent what was taken.
  pub record IsFifo (c : Client K) (es ts : List Event) (d : Client K) : Type 0 where
    pub within : length d.send_queue ≤ queue_size
    pub in_order : ts ++ d.send_queue ≡ es
    pub same_topic : d.producer_topic ≡ c.producer_topic
    pub told : d.broker ≡ delivered c.producer_topic ts c.broker

  send-eq_some :
      (e : Event) (d d' : Client K)
      → send b e d ≡ some d'
      → (length d.send_queue < queue_size) × (d' ≡ record d { send_queue = d.send_queue ++ e ∷ [] })
  unfolding send
  send-eq_some e d d' h = ground arith

  sent-eq_some :
      (e : Event) (q : List Event) (d d' : Client K)
      → sent b d q ≡ some (e, d')
      → (es : List Event) × (q ≡ e ∷ es)
        × (d' ≡ record d { send_queue = es; broker = (send_event b d.producer_topic e d.broker).1 })
  sent-eq_some e [] d d' h = cc
  sent-eq_some e (x ∷ es) d d' h = (es, cc, cc)

  producer_round-eq_some :
      (e : Event) (d d' : Client K)
      → producer_round b d ≡ some (e, d')
      → (es : List Event) × (d.send_queue ≡ e ∷ es)
        × (d' ≡ record d { send_queue = es; broker = (send_event b d.producer_topic e d.broker).1 })
  unfolding producer_round
  producer_round-eq_some e d d' h = sent-eq_some e d.send_queue d d' h

  module _ (c : Client K) (empty : c.send_queue ≡ []) where
    send-IsFifo :
        (e : Event) (es ts : List Event) (d d' : Client K)
        → IsFifo c es ts d
        → send b e d ≡ some d'
        → IsFifo c (es ++ e ∷ []) ts d'
    send-IsFifo e es ts d d' i h =
        let (room, moved) = send-eq_some e d d' h in
        subst (IsFifo c (es ++ e ∷ []) ts) (sym moved) (record {
          within = omega (arith, length-append d.send_queue (e ∷ []));
          in_order = rw (← append_assoc) (ap (λ x. x ++ e ∷ []) i.in_order);
          same_topic = i.same_topic;
          told = i.told;
        })

    took-IsFifo :
        (e : Event) (es ts : List Event) (d d' : Client K)
        → IsFifo c es ts d
        → producer_round b d ≡ some (e, d')
        → IsFifo c es (ts ++ e ∷ []) d'
    unfolding delivered
    took-IsFifo e es ts d d' i h =
        let (later, queued, moved) = producer_round-eq_some e d d' h in
        subst (IsFifo c es (ts ++ e ∷ [])) (sym moved) (record {
          within = omega (arith, i.within, ap length queued);
          in_order = append_assoc ts (e ∷ []) later ∙ (ap (λ x. ts ++ x) (sym queued) ∙ i.in_order);
          same_topic = i.same_topic;
          told =
              rw (i.same_topic, i.told)
                (sym (delivered-append c.producer_topic ts (e ∷ []) c.broker));
        })

    -- However the handlers and the loop take turns, an empty queue stays within its size, and what
    -- was accepted is sent to the broker in order: each event once, those in the queue not yet.
    pub Runs-IsFifo : {es ts : List Event} {d : Client K} → Runs c es ts d → IsFifo c es ts d
    unfolding delivered
    Runs-IsFifo started = record {
      within = rw empty (omega arith);
      in_order = empty;
      same_topic = refl;
      told = refl;
    }
    Runs-IsFifo (sent_one {es} {ts} {d} {d'} e r h) = send-IsFifo e es ts d d' (Runs-IsFifo r) h
    Runs-IsFifo (took_one {es} {ts} {d} {d'} e r h) = took-IsFifo e es ts d d' (Runs-IsFifo r) h

  pub loop-drains :
      (topic : String) (q : List Event) (k : K)
      → producer_loop b (length q) (record { producer_topic = topic; send_queue = q; broker = k })
        ≡ record { producer_topic = topic; send_queue = []; broker = delivered topic q k }
  unfolding producer_loop delivered
  loop-drains topic [] k = refl
  loop-drains topic (e ∷ q) k = loop-drains topic q (send_event b topic e k).1

  -- Whatever is in the queue is taken and sent, in order, by so many rounds of the loop.
  pub producer_loop-drains :
      (d : Client K)
      → producer_loop b (length d.send_queue) d
        ≡ record d { send_queue = []; broker = delivered d.producer_topic d.send_queue d.broker }
  producer_loop-drains d = loop-drains d.producer_topic d.send_queue d.broker
