-- ===== src/Network/Actors/Mqtt.antt =====
-- The actor of src/transport/mqtt/rumqttc.rs as such an actor.
use mom_rpc.Base.{
  Option-cases, Bool-cases, if◌then◌else◌, ◌∷◌, [], List, some, none, Option, false, true, Bool,
  inr, inl, ◌⊎◌, ◌∙◌, ap, sym, refl, ◌≡◌, ◌<>◌, String, ℕ,
}
use mom_rpc.Network.Actors.Handing.{Handed, decoded_one, hand_out-HandsOut}
use mom_rpc.FanOut.Reachable.{Inv}
use mom_rpc.Error.{Attempt, done, failed, map_err, transport}
use mom_rpc.Calls
use mom_rpc.Calls.{Ends, answered, answered-Ends, refused-Ends, dropped-Ends}
use mom_rpc.Base.HashMap.{HashMap}
use mom_rpc.Mqtt.Actor.{SubscribeReasonCode, Client, Cmd, MqttActor}
use mom_rpc.Channels.{Channels}
use mom_rpc.Domain.{Envelope, Bytes}
use mom_rpc.Mqtt.Commands.{
  handle_publish, publish_payload, handle_subscribe, subscribe_sent, handle_suback, suback_for,
  on_connack, resubscribe, handle_cmd,
}
use mom_rpc.Mqtt.Incoming.{handle_incoming, receive}
use mom_rpc.Mqtt.Loop.{
  Selected, command, commands_closed, incoming, suback, connack, other_event, poll_error,
  is_disconnect, on_selected,
}
use mom_rpc.Network.Actors.{ActorTransport, Publishes, Quiet}

-- The message that the event loop yields, and the envelope that the actor is to publish.
abbrev pub takes : Selected → Option (String × Bytes)
takes (command cmd) = none
takes commands_closed = none
takes (incoming topic payload) = some (topic, payload)
takes (suback codes) = none
takes connack = none
takes other_event = none
takes (poll_error e) = none

abbrev pub sends : Selected → Option Envelope
sends (command (Cmd.publish env resp)) = some env
sends (command (Cmd.subscribe topic resp)) = none
sends (command (Cmd.close resp)) = none
sends commands_closed = none
sends (incoming topic payload) = none
sends (suback codes) = none
sends connack = none
sends other_event = none
sends (poll_error e) = none

module _ (k : Channels) (c : Client) (to_vec : Envelope → Attempt Bytes)
    (from_slice : Bytes → Attempt Envelope)
    (decodes : (e : Envelope) (b : Bytes) → to_vec e ≡ done b → from_slice b ≡ done e)
    (Written : c.State → String → Bytes → Type 0) (publishes : Publishes c.publish Written)
    (subscribes : (topic : String) → Quiet (c.subscribe topic) Written)
    (disconnects : Quiet c.disconnect Written) where
  receive-Handed :
      (topic : String) (p : Bytes) (a : MqttActor k.Inbox c.State) (r : Attempt Envelope)
      → from_slice p ≡ r
      → Inv a.local
      → Handed k to_vec (takes (incoming topic p)) a.local (receive k r topic a).local
  receive-Handed topic p a (failed text) read v = inl refl
  receive-Handed topic p a (done e) read v = inr (
    topic,
    p,
    e,
    refl,
    decoded_one to_vec from_slice decodes p e read,
    hand_out-HandsOut k topic e a.local v,
  )

  -- A subscribe, a SUBACK and a CONNACK leave the map alone, and write nothing.
  abbrev Silent : MqttActor k.Inbox c.State → MqttActor k.Inbox c.State → Type 0
  Silent a b =
      (b.local ≡ a.local) × ((t : String) (p : Bytes) → Written b.client t p → Written a.client t p)

  subscribe_sent-Silent :
      (topic : String) (resp : ℕ) (a : MqttActor k.Inbox c.State) (r : Attempt (Unit {0}) × c.State)
      → ((t : String) (p : Bytes) → Written r.1 t p → Written a.client t p)
      → Silent a (subscribe_sent c topic resp a r)
  subscribe_sent-Silent topic resp a (done _, s) quiet = (refl, quiet)
  subscribe_sent-Silent topic resp a (failed text, s) quiet = (refl, quiet)

  handle_subscribe-Silent :
      (topic : String) (resp : ℕ) (a : MqttActor k.Inbox c.State)
      → Silent a (handle_subscribe c topic resp a)
  unfolding handle_subscribe
  handle_subscribe-Silent topic resp a = elim (Option-cases a.pending_subscribe) [
    | inl free ↦ rw free (
        subscribe_sent-Silent topic resp a (c.subscribe topic a.client) (subscribes topic a.client))
    | inr (_, busy) ↦ rw busy (refl, λ t p w. w)
  ]

  suback_for-Silent :
      (waiting : Option (String × ℕ)) (codes : List SubscribeReasonCode)
      (a : MqttActor k.Inbox c.State)
      → Silent a (suback_for c waiting codes a)
  suback_for-Silent none codes a = (refl, λ t p w. w)
  suback_for-Silent (some (topic, resp)) codes a = (refl, λ t p w. w)

  resubscribe-quiet :
      (subs : HashMap (List ℕ)) (s : c.State) (t : String) (p : Bytes)
      → Written (resubscribe c subs s) t p
      → Written s t p
  resubscribe-quiet [] s t p w = w
  resubscribe-quiet ((topic, senders) ∷ subs) s t p w =
      subscribes topic s t p (resubscribe-quiet subs (c.subscribe topic s).1 t p w)

  on_connack-Silent : (a : MqttActor k.Inbox c.State) → Silent a (on_connack c a)
  unfolding on_connack
  on_connack-Silent a = elim (Bool-cases a.reconnect) [
    | inl again ↦ rw again (refl, resubscribe-quiet a.local.subscribers a.client)
    | inr first ↦ rw first (refl, λ t p w. w)
  ]

  poll_error-Silent :
      (lost : Bool) (a : MqttActor k.Inbox c.State)
      → Silent a (if lost then record a { reconnect = true } else a)
  poll_error-Silent true a = (refl, λ t p w. w)
  poll_error-Silent false a = (refl, λ t p w. w)

  pub on_selected-Handed :
      (i : Selected) (a : MqttActor k.Inbox c.State)
      → Inv a.local
      → Handed k to_vec (takes i) a.local (on_selected k c to_vec from_slice i a).1.local
  unfolding on_selected handle_cmd handle_incoming handle_suback
  on_selected-Handed (command (Cmd.publish env resp)) a v = inl refl
  on_selected-Handed (command (Cmd.subscribe topic resp)) a v =
      inl (handle_subscribe-Silent topic resp a).0
  on_selected-Handed (command (Cmd.close resp)) a v = inl refl
  on_selected-Handed commands_closed a v = inl refl
  on_selected-Handed (incoming topic p) a v = receive-Handed topic p a (from_slice p) refl v
  on_selected-Handed (suback codes) a v = inl (suback_for-Silent a.pending_subscribe codes a).0
  on_selected-Handed connack a v = inl (on_connack-Silent a).0
  on_selected-Handed other_event a v = inl refl
  on_selected-Handed (poll_error e) a v = inl (poll_error-Silent (is_disconnect e) a).0

  publish_payload-Written :
      (env : Envelope) (a : MqttActor k.Inbox c.State) (t : String) (p : Bytes) (r : Attempt Bytes)
      → to_vec env ≡ r
      → Written (publish_payload c env.address.name a r).1 t p
      → Written a.client t p
        ⊎ ((e : Envelope) × (some env ≡ some e) × (t ≡ e.address.name) × (to_vec e ≡ done p))
  publish_payload-Written env a t p (failed text) wrote w = inl w
  publish_payload-Written env a t p (done payload) wrote w =
      elim (publishes env.address.name payload a.client t p w) [
        | inl old ↦ inl old
        | inr (to, same) ↦ inr (env, refl, to, wrote ∙ ap done (sym same))
      ]

  receive-Written :
      (topic : String) (r : Attempt Envelope) (a : MqttActor k.Inbox c.State) (t : String)
      (p : Bytes)
      → Written (receive k r topic a).client t p
      → Written a.client t p
  receive-Written topic (failed text) a t p w = w
  receive-Written topic (done e) a t p w = w

  pub on_selected-Written :
      (i : Selected) (a : MqttActor k.Inbox c.State) (t : String) (p : Bytes)
      → Written (on_selected k c to_vec from_slice i a).1.client t p
      → Written a.client t p
        ⊎ ((e : Envelope) × (sends i ≡ some e) × (t ≡ e.address.name) × (to_vec e ≡ done p))
  unfolding on_selected handle_cmd handle_incoming handle_publish handle_suback
  on_selected-Written (command (Cmd.publish env resp)) a t p w =
      publish_payload-Written env a t p (to_vec env) refl w
  on_selected-Written (command (Cmd.subscribe topic resp)) a t p w =
      inl ((handle_subscribe-Silent topic resp a).1 t p w)
  on_selected-Written (command (Cmd.close resp)) a t p w = inl (disconnects a.client t p w)
  on_selected-Written commands_closed a t p w = inl w
  on_selected-Written (incoming topic q) a t p w =
      inl (receive-Written topic (from_slice q) a t p w)
  on_selected-Written (suback codes) a t p w =
      inl ((suback_for-Silent a.pending_subscribe codes a).1 t p w)
  on_selected-Written connack a t p w = inl ((on_connack-Silent a).1 t p w)
  on_selected-Written other_event a t p w = inl w
  on_selected-Written (poll_error e) a t p w = inl ((poll_error-Silent (is_disconnect e) a).1 t p w)

  payload-Ends :
      (env : Envelope) (a : MqttActor k.Inbox c.State) (r : Attempt Bytes)
      → Ends (publish_payload c env.address.name a r).0
  payload-Ends env a (failed text) = inr (_, refl)
  payload-Ends env a (done payload) = attempt-Ends (c.publish env.address.name payload a.client).0
    where
      attempt-Ends :
          (r : Attempt (Unit {0}))
          → Ends (
              map_err r (λ text. transport (
                a.transport_id <> ": publish failed for topic " <> env.address.name <> ": "
                <> text)))
      attempt-Ends (done _) = inl refl
      attempt-Ends (failed text) = inr (_, refl)

  pub publish-Ends :
      (id : String) (env : Envelope) (a : MqttActor k.Inbox c.State)
      → Ends (Calls.publish (answered (handle_publish c to_vec env a).0))
  unfolding handle_publish
  publish-Ends id env a = answered-Ends _ (payload-Ends env a (to_vec env))

  abbrev pub mqtt_actors : ActorTransport k
  mqtt_actors = record {
    State = MqttActor k.Inbox c.State;
    Input = Selected;
    Payload = Bytes;
    local = λ a. a.local;
    with_local = λ l a. record a { local = l };
    step = λ i a. (on_selected k c to_vec from_slice i a).1;
    takes = takes;
    sends = sends;
    encode = to_vec;
    Written = λ a. Written a.client;
    local-with_local = λ l a. refl;
    Written-with_local = λ l a topic p w. w;
    local-step = on_selected-Handed;
    answer = λ e a. (handle_publish c to_vec e a).0;
    publish = λ id call. Calls.publish call;
    Written-step = on_selected-Written;
    answer-Ends = publish-Ends;
    refused-Ends = λ id. refused-Ends;
    dropped-Ends = λ id. dropped-Ends;
  }
