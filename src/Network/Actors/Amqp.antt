-- ===== src/Network/Actors/Amqp.antt =====
-- The actor of src/transport/amqp/lapin.rs, with the tasks that consume its queues, as such an actor.
-- What a delivery brings is handed to all its subscribers at once.
use mom_rpc.Base.{
  Option-cases, some, none, Option, inr, inl, ◌⊎◌, subst, ◌∙◌, ap, sym, refl, ◌≡◌, ◌<>◌, String,
}
use mom_rpc.Base.HashMap.{get}
use mom_rpc.FanOut.{Local}
use mom_rpc.Channels.{Channels}
use mom_rpc.Domain.{Envelope, Bytes}
use mom_rpc.Amqp.Actor.{
  Channel, Cmd, Actor, publish_payload, do_publish, spawn_consumer, declared, do_subscribe,
  handle_cmd,
}
use mom_rpc.Amqp.Consumer.{Delivery, send_to, acknowledged, on_delivery}
use mom_rpc.FanOut.Reachable.{Inv}
use mom_rpc.Network.Actors.Handing.{Handed, decoded_one, send_to-HandsOut}
use mom_rpc.Network.Actors.{ActorTransport, Publishes, Quiet}
use mom_rpc.Error.{Attempt, done, failed, map_err, transport}
use mom_rpc.Calls
use mom_rpc.Calls.{Ends, answered, answered-Ends, refused-Ends, dropped-Ends}

-- A command of the actor, or a delivery of the consumer of a queue.
pub data Input : Type 0 where
  command : Cmd → Input
  delivered : String → Delivery → Input

abbrev pub takes : Input → Option (String × Bytes)
takes (command cmd) = none
takes (delivered queue d) = some (queue, d.payload)

abbrev pub sends : Input → Option Envelope
sends (command (Cmd.publish env resp)) = some env
sends (command (Cmd.subscribe queue resp)) = none
sends (command (Cmd.close resp)) = none
sends (delivered queue d) = none

module _ (k : Channels) (c : Channel) (to_vec : Envelope → Attempt Bytes)
    (from_slice : Bytes → Attempt Envelope)
    (decodes : (e : Envelope) (b : Bytes) → to_vec e ≡ done b → from_slice b ≡ done e)
    (Written : c.State → String → Bytes → Type 0) (publishes : Publishes c.basic_publish Written)
    (declares : (queue : String) → Quiet (c.queue_declare queue) Written)
    (consumes : (queue tag : String) → Quiet (c.basic_consume queue tag) Written) where
  -- A delivery that waits for room has not been handed out yet.
  abbrev pub handed : Option (Local k.Inbox) → Actor k.Inbox c.State → Actor k.Inbox c.State
  handed none a = a
  handed (some l) a = record a { local = l }

  abbrev pub step : Input → Actor k.Inbox c.State → Actor k.Inbox c.State
  step (command cmd) a = handle_cmd c to_vec cmd a
  step (delivered queue d) a = handed (on_delivery k from_slice queue d a.local) a

  -- A command leaves the map alone, and one other than a publish writes nothing.
  abbrev Silent : Actor k.Inbox c.State → Actor k.Inbox c.State → Type 0
  Silent a b =
      (b.local ≡ a.local)
      × ((t : String) (p : Bytes) → Written b.channel t p → Written a.channel t p)

  spawn_consumer-Silent :
      (queue : String) (a b : Actor k.Inbox c.State) (r : Attempt (Unit {0}) × c.State)
      → b.local ≡ a.local
      → ((t : String) (p : Bytes) → Written r.1 t p → Written a.channel t p)
      → Silent a (spawn_consumer c queue b r).1
  spawn_consumer-Silent queue a b (done _, s) same quiet = (same, quiet)
  spawn_consumer-Silent queue a b (failed text, s) same quiet = (same, quiet)

  declared-Silent :
      (queue : String) (a : Actor k.Inbox c.State) (r : Attempt (Unit {0}) × c.State)
      → ((t : String) (p : Bytes) → Written r.1 t p → Written a.channel t p)
      → Silent a (declared c queue a r).1
  declared-Silent queue a (failed text, s) quiet = (refl, quiet)
  declared-Silent queue a (done _, s) quiet = elim (Option-cases (get a.consumer_handles queue)) [
    | inl new ↦ rw new (
        spawn_consumer-Silent queue a (record a { channel = s }) _ refl
          (λ t p w. quiet t p (consumes queue (a.transport_id <> "-consumer") s t p w)))
    | inr (_, old) ↦ rw old (refl, quiet)
  ]

  do_subscribe-Silent :
      (queue : String) (a : Actor k.Inbox c.State) → Silent a (do_subscribe c queue a).1
  unfolding do_subscribe
  do_subscribe-Silent queue a =
      declared-Silent queue a (c.queue_declare queue a.channel) (declares queue a.channel)

  publish_payload-local :
      (queue : String) (a : Actor k.Inbox c.State) (r : Attempt Bytes)
      → (publish_payload c queue a r).1.local ≡ a.local
  publish_payload-local queue a (failed text) = refl
  publish_payload-local queue a (done payload) = refl

  publish_payload-Written :
      (env : Envelope) (a : Actor k.Inbox c.State) (t : String) (p : Bytes) (r : Attempt Bytes)
      → to_vec env ≡ r
      → Written (publish_payload c env.address.name a r).1.channel t p
      → Written a.channel t p
        ⊎ ((e : Envelope) × (some env ≡ some e) × (t ≡ e.address.name) × (to_vec e ≡ done p))
  publish_payload-Written env a t p (failed text) wrote w = inl w
  publish_payload-Written env a t p (done payload) wrote w =
      elim (publishes env.address.name payload a.channel t p w) [
        | inl old ↦ inl old
        | inr (to, same) ↦ inr (env, refl, to, wrote ∙ ap done (sym same))
      ]

  delivered-Handed :
      (queue : String) (d : Delivery) (a : Actor k.Inbox c.State) (ack : Attempt (Unit {0}))
      (r : Attempt Envelope)
      → from_slice d.payload ≡ r
      → Handed k to_vec
          (takes (delivered queue d))
          a.local
          (handed (acknowledged k queue ack r a.local) a).local
  delivered-Handed queue d a (failed text) r read = inl refl
  delivered-Handed queue d a (done _) (failed text) read = inl refl
  delivered-Handed queue d a (done _) (done e) read =
      elim (Option-cases (send_to k (get a.local.subscribers queue) e a.local)) [
        | inl waits ↦ inl (rw waits refl)
        | inr (l, sent) ↦ inr (
          queue,
          d.payload,
          e,
          refl,
          decoded_one to_vec from_slice decodes d.payload e read,
          rw sent (send_to-HandsOut k queue e a.local l sent),
        )
      ]

  pub step-Handed :
      (i : Input) (a : Actor k.Inbox c.State)
      → Inv a.local
      → Handed k to_vec (takes i) a.local (step i a).local
  unfolding handle_cmd do_publish on_delivery
  step-Handed (command (Cmd.publish env resp)) a v =
      inl (publish_payload-local env.address.name a (to_vec env))
  step-Handed (command (Cmd.subscribe queue resp)) a v = inl (do_subscribe-Silent queue a).0
  step-Handed (command (Cmd.close resp)) a v = inl refl
  step-Handed (delivered queue d) a v = delivered-Handed queue d a d.ack (from_slice d.payload) refl

  handed-channel :
      (l : Option (Local k.Inbox)) (a : Actor k.Inbox c.State) → (handed l a).channel ≡ a.channel
  handed-channel none a = refl
  handed-channel (some l) a = refl

  pub step-Written :
      (i : Input) (a : Actor k.Inbox c.State) (t : String) (p : Bytes)
      → Written (step i a).channel t p
      → Written a.channel t p
        ⊎ ((e : Envelope) × (sends i ≡ some e) × (t ≡ e.address.name) × (to_vec e ≡ done p))
  unfolding handle_cmd do_publish
  step-Written (command (Cmd.publish env resp)) a t p w =
      publish_payload-Written env a t p (to_vec env) refl w
  step-Written (command (Cmd.subscribe queue resp)) a t p w =
      inl ((do_subscribe-Silent queue a).1 t p w)
  step-Written (command (Cmd.close resp)) a t p w = inl w
  step-Written (delivered queue d) a t p w =
      inl
        (subst (λ s. Written s t p) (handed-channel (on_delivery k from_slice queue d a.local) a) w)

  payload-Ends :
      (queue : String) (a : Actor k.Inbox c.State) (r : Attempt Bytes)
      → Ends (publish_payload c queue a r).0
  payload-Ends queue a (failed text) = inr (_, refl)
  payload-Ends queue a (done payload) = attempt-Ends (c.basic_publish queue payload a.channel).0
    where
      attempt-Ends :
          (r : Attempt (Unit {0}))
          → Ends (map_err r (λ text. transport ("amqp: publish failed: " <> text)))
      attempt-Ends (done _) = inl refl
      attempt-Ends (failed text) = inr (_, refl)

  pub publish-Ends :
      (id : String) (env : Envelope) (a : Actor k.Inbox c.State)
      → Ends (Calls.publish (answered (do_publish c to_vec env a).0))
  unfolding do_publish
  publish-Ends id env a = answered-Ends _ (payload-Ends env.address.name a (to_vec env))

  abbrev pub amqp_actors : ActorTransport k
  amqp_actors = record {
    State = Actor k.Inbox c.State;
    Input = Input;
    Payload = Bytes;
    local = λ a. a.local;
    with_local = λ l a. record a { local = l };
    step = step;
    takes = takes;
    sends = sends;
    encode = to_vec;
    Written = λ a. Written a.channel;
    local-with_local = λ l a. refl;
    answer = λ e a. (do_publish c to_vec e a).0;
    publish = λ id call. Calls.publish call;
    answer-Ends = publish-Ends;
    refused-Ends = λ id. refused-Ends;
    dropped-Ends = λ id. dropped-Ends;
    Written-with_local = λ l a topic p w. w;
    local-step = step-Handed;
    Written-step = step-Written;
  }
