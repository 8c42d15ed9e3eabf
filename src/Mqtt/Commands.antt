-- ===== src/Mqtt/Commands.antt =====
-- How the MQTT actor answers commands, and the acknowledgements of the server.
use mom_rpc.Base.{
  if◌then◌else◌, ◌∷◌, [], List, some, none, Option, false, true, Bool, ◌<>◌, String, ℕ,
}
use mom_rpc.Error.{Result, ok, err, transport, Attempt, done, failed, map_err}
use mom_rpc.Domain.{Bytes, Envelope}
use mom_rpc.Base.HashMap.{HashMap}
use mom_rpc.Channels.{Inboxes}
use mom_rpc.Mqtt.Actor.{SubscribeReasonCode, Client, Cmd, Ack, ActorStep, MqttActor}

-- .all(|code| !matches!(code, Failure))
abbrev pub all_granted : List SubscribeReasonCode → Bool
all_granted [] = true
all_granted (SubscribeReasonCode.success ∷ codes) = all_granted codes
all_granted (SubscribeReasonCode.failure ∷ codes) = false

-- A responder is sent an answer.
abbrev pub answered : {Q S : Type 0} → ℕ → Result Ack → MqttActor Q S → MqttActor Q S
answered resp r a = record a { acks = (resp, r) ∷ a.acks }

abbrev pub resubscribe : (c : Client) → HashMap (List ℕ) → c.State → c.State
resubscribe c [] s = s
resubscribe c ((topic, senders) ∷ subs) s = resubscribe c subs (c.subscribe topic s).1

module _ (c : Client) {Q : Type 0} where
  -- RumqttcTransport::create: the actor that it spawns.
  unfoldable pub create : String → c.State → Inboxes Q → MqttActor Q c.State
  create transport_id client inboxes = record {
    transport_id = transport_id;
    client = client;
    local = record { subscribers = []; inboxes = inboxes };
    pending_subscribe = none;
    reconnect = false;
    replies = [];
    acks = [];
  }

  abbrev pub subscribe_sent :
      String → ℕ → MqttActor Q c.State → Attempt (Unit {0}) × c.State → MqttActor Q c.State
  subscribe_sent topic resp a (done _, client) = record a {
    client = client;
    pending_subscribe = some (topic, resp);
  }
  subscribe_sent topic resp a (failed text, client) =
      answered resp
        (err (
          transport
            (a.transport_id <> ": failed to send subscribe for topic " <> topic <> ": " <> text)))
        (record a { client = client; pending_subscribe = none })

  -- While a subscribe is pending, another one is told to try again.
  abbrev pub subscribe_if_free :
      Option (String × ℕ) → String → ℕ → MqttActor Q c.State → MqttActor Q c.State
  subscribe_if_free (some pending) topic resp a = answered resp (ok Ack.retry) a
  subscribe_if_free none topic resp a = subscribe_sent topic resp a (c.subscribe topic a.client)

  unfoldable pub handle_subscribe : String → ℕ → MqttActor Q c.State → MqttActor Q c.State
  handle_subscribe topic resp a = subscribe_if_free a.pending_subscribe topic resp a

  abbrev pub suback_for :
      Option (String × ℕ) → List SubscribeReasonCode → MqttActor Q c.State → MqttActor Q c.State
  suback_for none codes a = a
  suback_for (some (topic, resp)) codes a =
      answered resp
        (if all_granted codes
          then ok Ack.granted
          else err (
              transport (
                a.transport_id
                <> ": subscription failed for topic "
                <> topic
                <> ": "
                <> c.debug_codes codes)))
        (record a { pending_subscribe = none })

  unfoldable pub handle_suback :
      List SubscribeReasonCode → MqttActor Q c.State → MqttActor Q c.State
  handle_suback codes a = suback_for a.pending_subscribe codes a

  -- The answer to a ConnAck: after a reconnect, all topics are subscribed again.
  unfoldable pub on_connack : MqttActor Q c.State → MqttActor Q c.State
  on_connack a =
      if a.reconnect then record a { client = resubscribe c a.local.subscribers a.client } else a

  abbrev pub publish_payload :
      String → MqttActor Q c.State → Attempt Bytes → Result (Unit {0}) × c.State
  publish_payload topic a (failed text) = (
    err (transport (a.transport_id <> ": failed to serialize publish payload: " <> text)),
    a.client,
  )
  publish_payload topic a (done payload) =
      let r = c.publish topic payload a.client in
      (
        map_err r.0 (λ text.
            transport (a.transport_id <> ": publish failed for topic " <> topic <> ": " <> text)),
        r.1,
      )

  unfoldable pub handle_publish :
      (Envelope → Attempt Bytes) → Envelope → MqttActor Q c.State → Result (Unit {0}) × c.State
  handle_publish to_vec env a = publish_payload env.address.name a (to_vec env)

  -- A failed disconnect is logged.
  abbrev pub handle_close : MqttActor Q c.State → MqttActor Q c.State
  handle_close a = record a { client = (c.disconnect a.client).1 }

  unfoldable pub handle_cmd :
      (Envelope → Attempt Bytes) → Cmd → MqttActor Q c.State → ActorStep × MqttActor Q c.State
  unfolding handle_publish handle_subscribe
  handle_cmd to_vec (Cmd.publish env resp) a =
      let r = handle_publish to_vec env a in
      (ActorStep.continue, record a { client = r.1; replies = (resp, r.0) ∷ a.replies })
  handle_cmd to_vec (Cmd.subscribe topic resp) a =
      (ActorStep.continue, handle_subscribe topic resp a)
  handle_cmd to_vec (Cmd.close resp) a =
      let closed = handle_close a in
      (ActorStep.stop, record closed { replies = (resp, ok tt) ∷ closed.replies })
