-- ===== src/Mqtt/Incoming.antt =====
-- What the MQTT actor does with an incoming message.
use mom_rpc.Base.{String}
use mom_rpc.Error.{Attempt, done, failed}
use mom_rpc.Domain.{Bytes, Envelope}
use mom_rpc.Channels.{Channels}
use mom_rpc.FanOut.{hand_out}
use mom_rpc.Mqtt.Actor.{MqttActor}

module _ (k : Channels) {S : Type 0} where
  -- After the envelope was decoded; an invalid one is dropped.
  abbrev pub receive : Attempt Envelope → String → MqttActor k.Inbox S → MqttActor k.Inbox S
  receive (failed text) topic a = a
  receive (done env) topic a = record a { local = hand_out k topic env a.local }

  unfoldable pub handle_incoming :
      (Bytes → Attempt Envelope) → String → Bytes → MqttActor k.Inbox S → MqttActor k.Inbox S
  unfolding hand_out
  handle_incoming from_slice topic payload a = receive (from_slice payload) topic a
