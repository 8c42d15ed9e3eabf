-- ===== src/Mqtt/Actor.antt =====
-- The state and the messages of the MQTT actor, and the client that it owns.
use mom_rpc.Base.{List, Option, Bool, String, ℕ}
use mom_rpc.Error.{Result, Attempt}
use mom_rpc.Domain.{Bytes, Envelope}
use mom_rpc.FanOut.{Local}

-- rumqttc::SubscribeReasonCode; the QoS of a success is left out.
pub data SubscribeReasonCode : Type 0 where
  success failure : SubscribeReasonCode

-- rumqttc::ConnectionError, as far as `is_disconnect` tells its variants apart.
pub data ConnectionError : Type 0 where
  io mqtt_state other_error : ConnectionError

-- rumqttc::AsyncClient
pub record Client : Type 1 where
  pub State : Type 0
  pub publish : String → Bytes → State → Attempt (Unit {0}) × State
  pub subscribe : String → State → Attempt (Unit {0}) × State
  pub disconnect : State → Attempt (Unit {0}) × State
  -- Return codes in their debug format.
  pub debug_codes : List SubscribeReasonCode → String

pub data Cmd : Type 0 where
  publish : Envelope → ℕ → Cmd
  subscribe : String → ℕ → Cmd
  close : ℕ → Cmd

pub data Ack : Type 0 where
  granted retry : Ack

pub data ActorStep : Type 0 where
  continue stop : ActorStep

-- MqttActor, with the answers that its responders were sent: to `publish` and `close`, and to
-- `subscribe`.
pub record MqttActor (Q S : Type 0) : Type 0 where
  pub transport_id : String
  pub client : S
  pub local : Local Q
  pub pending_subscribe : Option (String × ℕ)
  pub reconnect : Bool
  pub replies : List (ℕ × Result (Unit {0}))
  pub acks : List (ℕ × Result Ack)
