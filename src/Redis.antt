-- ===== src/Redis.antt =====
-- src/transport/redis/redis.rs: the actor that owns the two connections to Redis, over the crate redis
-- and the encoding of envelopes as parameters. The calls of the connections are those that
-- complete. A responder is a number, and what it was sent stands in a log.
pub mod Subscribes
pub mod Wire
use mom_rpc.Base.{
  if◌then◌else◌, str_eq, ◌∷◌, [], List, Option, false, true, Bool, ◌<>◌, String, suc, ℕ,
}
use mom_rpc.Error.{◌>>=◌, Result, ok, err, transport, Attempt, done, failed, map_err}
use mom_rpc.Domain.{Envelope, TransportConfig, TransportBase, base_of_config}
use mom_rpc.Channels.{Channels, Inboxes}
use mom_rpc.FanOut.{Local, hand_out}
use mom_rpc.Calls
use mom_rpc.Calls.{Call}
use mom_rpc.Mqtt.Subscribe
use mom_rpc.Mqtt.Actor.{Cmd, Ack, ActorStep}

-- The connections: PUBLISH on a MultiplexedConnection with its count of receivers, and SUBSCRIBE on a
-- PubSubSink, which answers once the server has confirmed it.
pub record Connections : Type 1 where
  pub State : Type 0
  pub publish : String → String → State → Attempt ℕ × State
  pub subscribe : String → State → Attempt (Unit {0}) × State

-- RedisActor, with the answers that its responders were sent. `notified` counts the calls of
-- `shutdown.notify_waiters`.
pub record RedisActor (Q S : Type 0) : Type 0 where
  pub transport_id : String
  pub connections : S
  pub local : Local Q
  pub subscribe_pending : Bool
  pub notified : ℕ
  pub reconnect : Bool
  pub replies : List (ℕ × Result (Unit {0}))
  pub acks : List (ℕ × Result Ack)

-- What the actor's loop selects: a command, a message with its channel and its payload, which may
-- not be a text, the end of the stream, the shutdown notice, or the end of the commands.
pub data Selected : Type 0 where
  command : Cmd → Selected
  message : String → Attempt String → Selected
  stream_ended : Selected
  shutdown_notified : Selected
  commands_closed : Selected

-- A responder is sent an answer.
abbrev pub answered : {Q S : Type 0} → ℕ → Result Ack → RedisActor Q S → RedisActor Q S
answered resp r a = record a { acks = (resp, r) ∷ a.acks }

-- The answer once the subscription has been confirmed or refused.
abbrev pub subscribe_result : String → String → Attempt (Unit {0}) → Result Ack
subscribe_result transport_id topic (done _) = ok Ack.granted
subscribe_result transport_id topic (failed text) =
    err (transport (transport_id <> ": failed to subscribe to topic " <> topic <> ": " <> text))

-- query_async::<i64>().map(|_| ())
abbrev pub receivers : Attempt ℕ → Attempt (Unit {0})
receivers (done n) = done tt
receivers (failed text) = failed text

module _ (c : Connections) {Q : Type 0} where
  -- RedisTransport::create: the actor that it spawns.
  unfoldable pub create : String → c.State → Inboxes Q → RedisActor Q c.State
  create transport_id connections inboxes = record {
    transport_id = transport_id;
    connections = connections;
    local = record { subscribers = []; inboxes = inboxes };
    subscribe_pending = false;
    notified = 0;
    reconnect = false;
    replies = [];
    acks = [];
  }

  abbrev pub publish_payload :
      String → RedisActor Q c.State → Attempt String → Result (Unit {0}) × c.State
  publish_payload topic a (failed text) = (
    err (transport (a.transport_id <> ": failed to serialize publish payload: " <> text)),
    a.connections,
  )
  publish_payload topic a (done payload) =
      let r = c.publish topic payload a.connections in
      (
        map_err (receivers r.0) (λ text.
            transport (a.transport_id <> ": publish failed for topic " <> topic <> ": " <> text)),
        r.1,
      )

  unfoldable pub handle_publish :
      (Envelope → Attempt String) → Envelope → RedisActor Q c.State → Result (Unit {0}) × c.State
  handle_publish to_string env a = publish_payload env.address.name a (to_string env)

  -- The flag is set, the subscription awaited, and the flag cleared again.
  unfoldable pub handle_subscribe : String → ℕ → RedisActor Q c.State → RedisActor Q c.State
  handle_subscribe topic resp a =
      if a.subscribe_pending
      then answered resp (ok Ack.retry) a
      else (let flagged : RedisActor Q c.State = record a { subscribe_pending = true } in
          let r = c.subscribe topic flagged.connections in
          answered resp (subscribe_result a.transport_id topic r.0)
            (record flagged { connections = r.1; subscribe_pending = false }))

  unfoldable pub handle_close : RedisActor Q c.State → RedisActor Q c.State
  handle_close a = record a { notified = suc a.notified }

  unfoldable pub handle_cmd :
      (Envelope → Attempt String) → Cmd → RedisActor Q c.State → ActorStep × RedisActor Q c.State
  unfolding handle_publish handle_subscribe handle_close
  handle_cmd to_string (Cmd.publish env resp) a =
      let r = handle_publish to_string env a in
      (ActorStep.continue, record a { connections = r.1; replies = (resp, r.0) ∷ a.replies })
  handle_cmd to_string (Cmd.subscribe topic resp) a =
      (ActorStep.continue, handle_subscribe topic resp a)
  handle_cmd to_string (Cmd.close resp) a =
      let closed = handle_close a in
      (ActorStep.stop, record closed { replies = (resp, ok tt) ∷ closed.replies })

module _ (k : Channels) {S : Type 0} where
  abbrev pub receive : Attempt Envelope → String → RedisActor k.Inbox S → RedisActor k.Inbox S
  receive (failed text) topic a = a
  receive (done env) topic a = record a { local = hand_out k topic env a.local }

  -- A payload that is no text, or no envelope, is dropped.
  unfoldable pub handle_incoming :
      (String → Attempt Envelope)
      → String
      → Attempt String
      → RedisActor k.Inbox S
      → RedisActor k.Inbox S
  unfolding hand_out
  handle_incoming from_str topic (failed text) a = a
  handle_incoming from_str topic (done payload) a = receive (from_str payload) topic a

module _ (k : Channels) (c : Connections) (to_string : Envelope → Attempt String)
    (from_str : String → Attempt Envelope) where
  -- One round of the loop. A stream that has ended is noted, and polled again.
  unfoldable pub on_selected :
      Selected → RedisActor k.Inbox c.State → ActorStep × RedisActor k.Inbox c.State
  unfolding handle_cmd handle_incoming
  on_selected (command cmd) a = handle_cmd c to_string cmd a
  on_selected (message topic payload) a =
      (ActorStep.continue, handle_incoming k from_str topic payload a)
  on_selected stream_ended a = (ActorStep.continue, record a { reconnect = true })
  on_selected shutdown_notified a = (ActorStep.stop, a)
  on_selected commands_closed a = (ActorStep.stop, a)

  unfoldable pub run : List Selected → RedisActor k.Inbox c.State → RedisActor k.Inbox c.State
  unfolding on_selected
  run [] a = a
  run (s ∷ selected) a =
      let r = on_selected s a in
      let rest = run selected r.1 in elim r.0 [ ActorStep.stop ↦ r.1 | ActorStep.continue ↦ rest ]

-- The methods of the transport, by what becomes of the commands that they send.
abbrev pub publish : Call (Result (Unit {0})) → Result (Unit {0})
publish call = Calls.publish call

abbrev pub close : Call (Result (Unit {0})) → Result (Unit {0})
close call = Calls.close call

abbrev pub subscribe :
    (k : Channels)
    → String
    → List (Call (Result Ack))
    → Local k.Inbox
    → Option (Result ℕ) × Local k.Inbox
subscribe k topic calls l = Subscribe.subscribe k topic calls l

-- redis::Client: opened by a URI, it makes the two connections.
pub record RedisClient (S : Type 0) : Type 1 where
  pub Opened : Type 0
  pub open_client : String → Attempt Opened
  pub get_multiplexed_async_connection : Opened → Attempt (Unit {0})
  pub get_async_pubsub : Opened → Attempt S

-- The transport's base, and the actor that it spawns.
unfoldable pub create_transport :
    (c : Connections) {Q : Type 0}
    → RedisClient c.State
    → Inboxes Q
    → TransportConfig
    → Result (TransportBase × RedisActor Q c.State)
unfolding create base_of_config
create_transport c redis inboxes config =
    let uri = config.uri in
    if str_eq uri "" then err (transport "Redis transport requires URI") else do
      client ←
          map_err (redis.open_client uri)
            (λ text. transport ("redis: failed to open client for URI " <> uri <> ": " <> text))
      publish_conn ← map_err (redis.get_multiplexed_async_connection client) (λ text.
          transport ("redis: failed to connect publish connection to " <> uri <> ": " <> text))
      pubsub ← map_err (redis.get_async_pubsub client) (λ text.
          transport ("redis: failed to connect pubsub connection to " <> uri <> ": " <> text))
      ok (base_of_config config, create c config.node_id pubsub inboxes)
