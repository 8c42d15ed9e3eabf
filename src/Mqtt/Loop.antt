-- ===== src/Mqtt/Loop.antt =====
-- The loop of the MQTT actor.
use mom_rpc.Base.{if◌then◌else◌, ◌∷◌, [], List, false, true, Bool, String}
use mom_rpc.Error.{Attempt}
use mom_rpc.Domain.{Bytes, Envelope}
use mom_rpc.Channels.{Channels}
use mom_rpc.Mqtt.Actor.{SubscribeReasonCode, Client, Cmd, ActorStep, MqttActor, ConnectionError}
use mom_rpc.Mqtt.Incoming.{handle_incoming}
use mom_rpc.Mqtt.Commands.{handle_cmd, handle_suback, on_connack}

-- What the actor's loop selects: a command, the end of the commands, or what the event loop yields.
pub data Selected : Type 0 where
  command : Cmd → Selected
  commands_closed : Selected
  incoming : String → Bytes → Selected
  suback : List SubscribeReasonCode → Selected
  connack : Selected
  other_event : Selected
  poll_error : ConnectionError → Selected

abbrev pub is_disconnect : ConnectionError → Bool
is_disconnect ConnectionError.io = true
is_disconnect ConnectionError.mqtt_state = true
is_disconnect ConnectionError.other_error = false

module _ (k : Channels) (c : Client) (to_vec : Envelope → Attempt Bytes)
    (from_slice : Bytes → Attempt Envelope) where
  -- One round of the loop.
  unfoldable pub on_selected :
      Selected → MqttActor k.Inbox c.State → ActorStep × MqttActor k.Inbox c.State
  unfolding handle_cmd handle_incoming handle_suback on_connack
  on_selected (command cmd) a = handle_cmd c to_vec cmd a
  on_selected commands_closed a = (ActorStep.stop, a)
  on_selected (incoming topic payload) a =
      (ActorStep.continue, handle_incoming k from_slice topic payload a)
  on_selected (suback codes) a = (ActorStep.continue, handle_suback c codes a)
  on_selected connack a = (ActorStep.continue, on_connack c a)
  on_selected other_event a = (ActorStep.continue, a)
  on_selected (poll_error e) a =
      (ActorStep.continue, if is_disconnect e then record a { reconnect = true } else a)

  -- The loop, until it stops.
  unfoldable pub run : List Selected → MqttActor k.Inbox c.State → MqttActor k.Inbox c.State
  unfolding on_selected
  run [] a = a
  run (s ∷ selected) a =
      let r = on_selected s a in
      let rest = run selected r.1 in elim r.0 [ ActorStep.stop ↦ r.1 | ActorStep.continue ↦ rest ]
