-- ===== src/Amqp/Consumer.antt =====
-- The task that consumes a queue. While a subscriber's inbox is full it waits, and holds the map.
use mom_rpc.Base.{◌∷◌, [], List, some, none, Option, false, true, Bool, String, ℕ}
use mom_rpc.Error.{Attempt, done, failed}
use mom_rpc.Domain.{Bytes, Envelope}
use mom_rpc.Base.HashMap.{get}
use mom_rpc.Channels.{Channels}
use mom_rpc.FanOut.{Local}
use mom_rpc.Memory.{send_all}
use mathlib.Core.Option

-- lapin::message::Delivery, with what its ack returns.
pub record Delivery : Type 0 where
  pub ack : Attempt (Unit {0})
  pub payload : Bytes

-- What consumer.next() yields: a delivery, an error, or the end of the stream.
pub data Next : Type 0 where
  delivery : Delivery → Next
  consumer_error : String → Next
  stream_end : Next

module _ (k : Channels) where
  abbrev pub send_to : Option (List ℕ) → Envelope → Local k.Inbox → Option (Local k.Inbox)
  send_to none env l = some l
  send_to (some senders) env l =
      Option.map (λ t. record l { inboxes = t }) (send_all k senders env l.inboxes)

  abbrev pub decoded : String → Attempt Envelope → Local k.Inbox → Option (Local k.Inbox)
  decoded queue (failed text) l = some l
  decoded queue (done env) l = send_to (get l.subscribers queue) env l

  -- A delivery is acknowledged first; if that fails, it is dropped.
  abbrev pub acknowledged :
      String → Attempt (Unit {0}) → Attempt Envelope → Local k.Inbox → Option (Local k.Inbox)
  acknowledged queue (failed text) env l = some l
  acknowledged queue (done _) env l = decoded queue env l

  -- The body of the consumer's loop. `none`: it waits for a subscriber.
  unfoldable pub on_delivery :
      (Bytes → Attempt Envelope) → String → Delivery → Local k.Inbox → Option (Local k.Inbox)
  unfolding send_all
  on_delivery from_slice queue d l = acknowledged queue d.ack (from_slice d.payload) l

  -- while let Some(delivery_result) = consumer.next().await, by what the consumer has yielded so far;
  -- the flag says whether the task still runs.
  unfoldable pub consume :
      (Bytes → Attempt Envelope)
      → String
      → List Next
      → Local k.Inbox
      → Option (Local k.Inbox × Bool)
  unfolding on_delivery
  consume from_slice queue [] l = some (l, true)
  consume from_slice queue (stream_end ∷ yielded) l = some (l, false)
  consume from_slice queue (consumer_error text ∷ yielded) l = some (l, false)
  consume from_slice queue (delivery d ∷ yielded) l =
      Option.bind (on_delivery from_slice queue d l) (consume from_slice queue yielded)
