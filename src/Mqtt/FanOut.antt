-- ===== src/Mqtt/FanOut.antt =====
-- Who receives an incoming message of the MQTT transport, and who is evicted.
use mom_rpc.Base.{if◌then◌else◌, str_eq, not, ◌&&◌, ◌≡◌, String, ◌≤◌, ℕ}
use mom_rpc.Error.{Attempt, done}
use mom_rpc.Domain.{Bytes, Envelope}
use mom_rpc.Channels.{Channels, count}
use mom_rpc.FanOut.Delivery.{is_accepted, senders_of, hand_out-evicts}
use mom_rpc.Memory.Delivery.{offered}
use mom_rpc.Mqtt.Actor.{MqttActor}
use mom_rpc.Mqtt.Incoming.{handle_incoming}

module _ (k : Channels) {S : Type 0} where
  -- An incoming message that can be decoded is offered to each inbox as often as the inbox is
  -- subscribed to its topic; and an inbox that is subscribed once at most keeps its subscription to
  -- the topic exactly if it takes the message: a full or closed one loses it. Subscriptions to other
  -- topics stay.
  pub handle_incoming-evicts :
      (from_slice : Bytes → Attempt Envelope) (topic : String) (payload : Bytes) (env : Envelope)
      (a : MqttActor k.Inbox S) (i : ℕ) (other : String)
      → from_slice payload ≡ done env
      → count i (senders_of a.local.subscribers topic) ≤ 1
      → ((handle_incoming k from_slice topic payload a).local.inboxes.cell i
          ≡ offered k env (count i (senders_of a.local.subscribers topic)) (a.local.inboxes.cell i))
        × (count i
              (senders_of (handle_incoming k from_slice topic payload a).local.subscribers other)
            ≡ (if str_eq topic other && not (is_accepted (k.offer (a.local.inboxes.cell i) env))
                then 0
                else count i (senders_of a.local.subscribers other)))
  unfolding handle_incoming
  handle_incoming-evicts from_slice topic payload env a i other decoded once =
      rw decoded (hand_out-evicts k topic env a.local i other once)
