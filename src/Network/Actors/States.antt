-- ===== src/Network/Actors/States.antt =====
-- What callers are given by brokers over Redis, MQTT, AMQP and DDS (src/transport/redis/redis.rs,
-- mqtt/rumqttc.rs, amqp/lapin.rs and dds/dust_dds.rs).
use mom_rpc.Base.{some, Bool, ◌≡◌, String, ℕ}
use mom_rpc.Error.{Attempt, done}
use mom_rpc.Base.HashMap.{get}
use mom_rpc.Network.Records.{Sent}
use mom_rpc.Network.{Node}
use mom_rpc.Domain.{Bytes, Envelope}
use mom_rpc.Oneshot.{Oneshots}
use mom_rpc.Channels.{Channels}
use mom_rpc.Redis.{Connections, RedisActor}
use mom_rpc.Mqtt.Actor.{Client, MqttActor}
use mom_rpc.Network.Actors.{ActorTransport, Publishes, Quiet, Fleet, Reach}
use mom_rpc.Network.Actors.Redis.{redis_actors}
use mom_rpc.Network.Actors.Mqtt.{mqtt_actors}
use mom_rpc.Network.Actors.Amqp.{amqp_actors}
use mom_rpc.Network.Actors.Dds.{dds_actors}
use mom_rpc.Network.Actors.Dds.Calls.{Honest}
use mom_rpc.Amqp.Actor.{Channel, Actor}
use mom_rpc.Dds.Participant.{Participant}
use mom_rpc.Network.Actors.Publishing.{Progress, progress}
use mom_rpc.Network.Actors.Simulation.{actors_refine_any_transport}
use mom_rpc.Network.Lossy.Authenticity.{states_on_any_transport}

states_over_actors :
    (k : Channels) (t : ActorTransport k) (o : Oneshots) (nodes : ℕ → Node) (cells : ℕ → o.Cell)
    (s : Fleet t.State o.Cell) (id : String) (q : Sent) (retries : Bool)
    → Reach k t o nodes cells s
    → get s.records.sent id ≡ some q
    → Progress k t o nodes s id q retries
states_over_actors k t o nodes cells s id q retries reach sent =
    let (reached, _) = actors_refine_any_transport k t o nodes cells s reach in
    progress k t o nodes cells s id q retries reach sent (
      states_on_any_transport o nodes cells (record { published = s.outgoing; records = s.records })
        id q retries reached sent)

module _ (k : Channels) (c : Connections) (to_string : Envelope → Attempt String)
    (from_str : String → Attempt Envelope)
    (decodes : (e : Envelope) (s : String) → to_string e ≡ done s → from_str s ≡ done e)
    (Written : c.State → String → String → Type 0) (publishes : Publishes c.publish Written)
    (subscribes : (topic : String) → Quiet (c.subscribe topic) Written) where
  abbrev pub over_redis : ActorTransport k
  over_redis = redis_actors k c to_string from_str decodes Written publishes subscribes

  -- Brokers over Redis, in every state that their tasks reach from the start, where serde_json
  -- reads what it writes for an envelope, a PUBLISH puts no message on a channel but its own, a
  -- SUBSCRIBE none, and each request takes a correlation ID that no request had: the publish of a
  -- request that was made is still awaited, or it ended, since its command was refused, its
  -- responder dropped, or by what the actor answers to the envelope of the request. If it ended
  -- with an error, this is Transport, and the caller is given it whatever the channel of the
  -- request holds. If it ended with Ok, the request is in one of two states. Its caller still has
  -- the sender in its map and sees a timeout, which is Timeout, or a retryable error if the broker
  -- retries. Or the sender is gone, and the caller is given what a handler of a broker with the
  -- node ID that it asked returns on its payload. It never sees a closed channel.
  pub states_over_redis :
      (o : Oneshots) (nodes : ℕ → Node) (cells : ℕ → o.Cell)
      (s : Fleet (RedisActor k.Inbox c.State) o.Cell) (id : String) (q : Sent) (retries : Bool)
      → Reach k over_redis o nodes cells s
      → get s.records.sent id ≡ some q
      → Progress k over_redis o nodes s id q retries
  states_over_redis = states_over_actors k over_redis

module _ (k : Channels) (c : Client) (to_vec : Envelope → Attempt Bytes)
    (from_slice : Bytes → Attempt Envelope)
    (decodes : (e : Envelope) (b : Bytes) → to_vec e ≡ done b → from_slice b ≡ done e)
    (Written : c.State → String → Bytes → Type 0) (publishes : Publishes c.publish Written)
    (subscribes : (topic : String) → Quiet (c.subscribe topic) Written)
    (disconnects : Quiet c.disconnect Written) where
  abbrev pub over_mqtt : ActorTransport k
  over_mqtt = mqtt_actors k c to_vec from_slice decodes Written publishes subscribes disconnects

  -- Brokers over MQTT, in every state that their tasks reach from the start, where serde_json reads
  -- what it writes for an envelope, a publish of the client sends no message but its own, a
  -- subscribe or a disconnect none, and each request takes a correlation ID that no request had:
  -- the publish of a request that was made is still awaited, or it ended, since its command was
  -- refused, its responder dropped, or by what the actor answers to the envelope of the request. If
  -- it ended with an error, this is Transport, and the caller is given it whatever the channel of
  -- the request holds. If it ended with Ok, the request is in one of two states. Its caller still
  -- has the sender in its map and sees a timeout, which is Timeout, or a retryable error if the
  -- broker retries. Or the sender is gone, and the caller is given what a handler of a broker with
  -- the node ID that it asked returns on its payload. It never sees a closed channel.
  pub states_over_mqtt :
      (o : Oneshots) (nodes : ℕ → Node) (cells : ℕ → o.Cell)
      (s : Fleet (MqttActor k.Inbox c.State) o.Cell) (id : String) (q : Sent) (retries : Bool)
      → Reach k over_mqtt o nodes cells s
      → get s.records.sent id ≡ some q
      → Progress k over_mqtt o nodes s id q retries
  states_over_mqtt = states_over_actors k over_mqtt

module _ (k : Channels) (c : Channel) (to_vec : Envelope → Attempt Bytes)
    (from_slice : Bytes → Attempt Envelope)
    (decodes : (e : Envelope) (b : Bytes) → to_vec e ≡ done b → from_slice b ≡ done e)
    (Written : c.State → String → Bytes → Type 0) (publishes : Publishes c.basic_publish Written)
    (declares : (queue : String) → Quiet (c.queue_declare queue) Written)
    (consumes : (queue tag : String) → Quiet (c.basic_consume queue tag) Written) where
  abbrev pub over_amqp : ActorTransport k
  over_amqp = amqp_actors k c to_vec from_slice decodes Written publishes declares consumes

  -- Brokers over AMQP, in every state that their tasks reach from the start, where serde_json reads
  -- what it writes for an envelope, basic_publish sends no message but its own, queue_declare and
  -- basic_consume none, and each request takes a correlation ID that no request had: the publish of
  -- a request that was made is still awaited, or it ended, since its command was refused, its
  -- responder dropped, or by what the actor answers to the envelope of the request. If it ended
  -- with an error, this is Transport, and the caller is given it whatever the channel of the
  -- request holds. If it ended with Ok, the request is in one of two states. Its caller still has
  -- the sender in its map and sees a timeout, which is Timeout, or a retryable error if the broker
  -- retries. Or the sender is gone, and the caller is given what a handler of a broker with the
  -- node ID that it asked returns on its payload. It never sees a closed channel.
  pub states_over_amqp :
      (o : Oneshots) (nodes : ℕ → Node) (cells : ℕ → o.Cell)
      (s : Fleet (Actor k.Inbox c.State) o.Cell) (id : String) (q : Sent) (retries : Bool)
      → Reach k over_amqp o nodes cells s
      → get s.records.sent id ≡ some q
      → Progress k over_amqp o nodes s id q retries
  states_over_amqp = states_over_actors k over_amqp

module _ (k : Channels) (p : Participant) (to_vec : Envelope → Attempt Bytes)
    (from_slice : Bytes → Attempt Envelope)
    (decodes : (e : Envelope) (b : Bytes) → to_vec e ≡ done b → from_slice b ≡ done e)
    (Written : p.State → String → Bytes → Type 0) (name_of : p.Topic → String)
    (topic_name : p.Writer → String) (honest : Honest p Written name_of topic_name) where
  abbrev pub over_dds : ActorTransport k
  over_dds = dds_actors k p to_vec from_slice decodes Written name_of topic_name honest

  -- Brokers over DDS, in every state that their tasks reach from the start, where serde_json reads
  -- what it writes for an envelope, a writer belongs to the topic that it was made for, a write
  -- sends no sample but its own and only to the topic of its writer, no other call of the
  -- participant sends any, and each request takes a correlation ID that no request had: the publish
  -- of a request that was made is still awaited, or it ended, since its command was refused, its
  -- responder dropped, or by what the actor answers to the envelope of the request. If it ended
  -- with an error, this is Transport, and the caller is given it whatever the channel of the
  -- request holds. If it ended with Ok, the request is in one of two states. Its caller still has
  -- the sender in its map and sees a timeout, which is Timeout, or a retryable error if the broker
  -- retries. Or the sender is gone, and the caller is given what a handler of a broker with the
  -- node ID that it asked returns on its payload. It never sees a closed channel.
  pub states_over_dds :
      (o : Oneshots) (nodes : ℕ → Node) (cells : ℕ → o.Cell) (s : Fleet (over_dds.State) o.Cell)
      (id : String) (q : Sent) (retries : Bool)
      → Reach k over_dds o nodes cells s
      → get s.records.sent id ≡ some q
      → Progress k over_dds o nodes s id q retries
  states_over_dds = states_over_actors k over_dds
