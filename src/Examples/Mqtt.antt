-- ===== src/Examples/Mqtt.antt =====
-- Runs of the MQTT actor, over a client that logs the topics it subscribes to.
use mom_rpc.Base.{
  arith, ◌∷◌, [], List, some, none, false, true, refl, ◌≡◌, String, ◌+◌, suc, zero, ℕ,
}
use mom_rpc.Examples.{reply}
use mom_rpc.Error.{ok, Attempt, done}
use mom_rpc.Domain.{Bytes, Envelope}
use mom_rpc.Base.HashMap.{get}
use mom_rpc.Channels.{count}
use mom_rpc.Channels.Bounded.{Queue, bounded, channel}
use mom_rpc.Mqtt.Actor.{Client, Cmd, Ack, MqttActor, SubscribeReasonCode}
use mom_rpc.Mqtt.Loop.{Selected, command, suback, run, on_selected}
use mom_rpc.Mqtt.Commands.{handle_cmd, handle_subscribe, handle_suback, create}
use mom_rpc.Mqtt.Incoming.{handle_incoming}
use mom_rpc.FanOut.{Local, add_subscriber, fan_out, fan_out_to}
use mom_rpc.Mqtt.Acks.{answers, is_pending, answers-run}
use mom_rpc.Mqtt.FanOut.{handle_incoming-evicts}
use mom_rpc.FanOut.Delivery.{senders_of}
use mom_rpc.FanOut.Races.{late_subscriber_lost}

abbrev pub logging : Client
logging = record {
  State = List String;
  publish = λ topic payload s. (done tt, s);
  subscribe = λ topic s. (done tt, topic ∷ s);
  disconnect = λ s. (done tt, s);
  debug_codes = λ codes. "[]";
}

-- Encoding and decoding that know a single envelope.
abbrev to_vec : Envelope → Attempt Bytes
to_vec env = done (1 ∷ [])

abbrev from_slice : Bytes → Attempt Envelope
from_slice b = done reply

-- One queue is dropped, one has room.
abbrev queues : ℕ → Queue
queues zero = record { capacity = 16; held = []; dropped = true }
queues (suc n) = channel 16

abbrev two_local : Local Queue
two_local = record {
  subscribers = ("responses/alpha", 0 ∷ 1 ∷ []) ∷ [];
  inboxes = record { cell = queues; next = 2 };
}

abbrev two_subscribers : MqttActor Queue (List String)
two_subscribers = record {
  transport_id = "alpha";
  client = [];
  local = two_local;
  pending_subscribe = none;
  reconnect = false;
  replies = [];
  acks = [];
}

-- Two subscribes at once: the second is told to try again, the first is granted, a third waits.
abbrev selected : List Selected
selected =
    command (Cmd.subscribe "responses/alpha" 0)
    ∷ command (Cmd.subscribe "requests/alpha" 1)
    ∷ suback (SubscribeReasonCode.success ∷ [])
    ∷ command (Cmd.subscribe "requests/alpha" 2)
    ∷ []

abbrev ran : MqttActor Queue (List String)
ran =
    run bounded logging to_vec from_slice selected
      (create logging "alpha" [] (record { cell = queues; next = 0 }))

answers-run_example : answers 1 ran.acks + is_pending 1 ran.pending_subscribe ≡ 1
answers-run_example =
    answers-run bounded logging to_vec from_slice 1 "alpha" [] (record { cell = queues; next = 0 })
      selected

-- What they are told.
acks_example : ran.acks ≡ (0, ok Ack.granted) ∷ (1, ok Ack.retry) ∷ []
unfolding run on_selected handle_cmd handle_subscribe handle_suback create
acks_example = refl

handle_incoming-evicts_example :
    ((handle_incoming bounded from_slice "responses/alpha" [] two_subscribers).local.inboxes.cell 0
      ≡ queues 0)
    × (count 0 (
          senders_of
            (handle_incoming bounded from_slice "responses/alpha" []
              two_subscribers).local.subscribers
            "responses/alpha")
        ≡ 0)
unfolding get
handle_incoming-evicts_example =
    handle_incoming-evicts bounded from_slice "responses/alpha" [] reply two_subscribers 0
      "responses/alpha" refl (omega arith)

late_subscriber_lost_example :
    count 2 (
      senders_of
        (fan_out_to bounded
          (some (0 ∷ 1 ∷ []))
          "responses/alpha"
          reply
          (add_subscriber bounded "responses/alpha" two_local).1).subscribers
        "responses/alpha")
    ≡ 0
unfolding get fan_out add_subscriber
late_subscriber_lost_example =
    late_subscriber_lost bounded "responses/alpha" reply (0 ∷ 1 ∷ []) two_local refl refl
      (omega arith)
