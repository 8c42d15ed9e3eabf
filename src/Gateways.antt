-- ===== src/Gateways.antt =====
-- The factories that src/transport/mod.rs exports, from the mod.rs of each protocol: a transport whose
-- feature is off is a stub that fails. TransportBuilder chooses among them.
pub mod Routes
use mom_rpc.Base.{not, false, true, Bool, ◌<>◌, String, ℕ}
use mom_rpc.Error.{Result, ok, err, transport, Attempt}
use mom_rpc.Domain.{TransportBase, Transport}
use mom_rpc.TransportBuilder.{Factories}
use mom_rpc.Channels.{Channels, Inboxes}
use mom_rpc.Memory.{MemoryHub, create_memory_transport, create_memory_transport_with_hub}
use mom_rpc.Mqtt.Actor.{Client, MqttActor}
use mom_rpc.Mqtt.Connect.{MqttOptions, create_transport as create_mqtt}
use mom_rpc.Redis.{Connections, RedisActor, RedisClient, create_transport as create_redis}
use mom_rpc.Amqp.Actor.{Channel, Actor, ConsumerTask}
use mom_rpc.Amqp.Connect.{Connector, create_transport as create_amqp}
use mom_rpc.Dds.Participant.{Participant}
use mom_rpc.Dds.Actor.{DdsActor}
use mom_rpc.Dds.Transport.{create_transport as create_dds}

-- The features of the crate.
pub record Features : Type 0 where
  pub transport_rumqttc : Bool
  pub transport_lapin : Bool
  pub transport_dust_dds : Bool
  pub transport_redis : Bool

-- The crates of the protocols, and the tables that the actors start from.
pub record Crates (k : Channels) : Type 1 where
  pub rumqttc : Client
  pub new_client : MqttOptions → ℕ → rumqttc.State
  pub redis : Connections
  pub redis_client : RedisClient redis.State
  pub lapin : Channel
  pub connector : Connector lapin.State
  pub dust_dds : Participant
  pub create_participant : ℕ → Attempt dust_dds.State
  pub inboxes : Inboxes k.Inbox
  pub no_tasks : ℕ → ConsumerTask

module _ (k : Channels) (x : Crates k) where
  -- A TransportPtr: the base of a transport with the actor that it has spawned, or a transport on the
  -- in-memory bus.
  pub data TransportPtr : Type 0 where
    over_mqtt : TransportBase × MqttActor k.Inbox x.rumqttc.State → TransportPtr
    over_redis : TransportBase × RedisActor k.Inbox x.redis.State → TransportPtr
    over_amqp : TransportBase × Actor k.Inbox x.lapin.State → TransportPtr
    over_dds : TransportBase × DdsActor x.dust_dds k.Inbox → TransportPtr
    in_memory : Transport (MemoryHub k.Inbox) → TransportPtr

  abbrev pub made : {A : Type 0} → (A → TransportPtr) → Result A → Result TransportPtr
  made f (ok a) = ok (f a)
  made f (err e) = err e

  -- #[cfg(feature = …)], or the stub.
  abbrev pub gated : Bool → String → Result TransportPtr → Result TransportPtr
  gated true feature transport_of = transport_of
  gated false feature transport_of = err (transport (feature <> " feature is not enabled"))

  unfoldable pub factories : Features → Factories TransportPtr
  unfolding create_mqtt create_redis create_amqp create_dds create_memory_transport_with_hub
  factories features = record {
    create_rumqttc_transport = λ c.
        gated features.transport_rumqttc "transport_rumqttc"
          (made over_mqtt (create_mqtt x.rumqttc x.new_client x.inboxes c));
    create_lapin_transport = λ c.
        gated features.transport_lapin "transport_lapin"
          (made over_amqp (create_amqp x.lapin x.connector x.inboxes x.no_tasks c));
    create_dust_dds_transport = λ c.
        gated features.transport_dust_dds "transport_dust_dds"
          (made over_dds (create_dds x.dust_dds x.create_participant x.inboxes c));
    create_redis_transport = λ c.
        gated features.transport_redis "transport_redis"
          (made over_redis (create_redis x.redis x.redis_client x.inboxes c));
    create_memory_transport = λ c. made in_memory (create_memory_transport k c);
  }
