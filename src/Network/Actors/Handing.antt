-- ===== src/Network/Actors/Handing.antt =====
-- A message that is handed out to the local subscribers of a topic, whether those who do not take it are
-- evicted, as over Redis, MQTT and DDS, or not, as over AMQP.
use mom_rpc.Base.{◌⊎◌, arith, List, some, none, Option, ◌≡◌, String, ◌≤◌, ℕ}
use mom_rpc.Error.{Attempt, done}
use mom_rpc.Amqp.Deliveries.{send_to-offered}
use mom_rpc.FanOut.Delivery.{senders_of, hand_out-evicts}
use mom_rpc.Base.HashMap.{get}
use mom_rpc.Memory.Delivery.{send_all-offered, offered}
use mom_rpc.Channels.{count, Channels}
use mom_rpc.Amqp.Consumer.{send_to}
use mom_rpc.FanOut.{hand_out, Local}
use mom_rpc.Domain.{Envelope}
use mathlib.Core.Option
use mom_rpc.FanOut.Reachable.{Inv, hand_out-next}

module _ (k : Channels) where
  -- Each inbox is offered the envelope as often as it is subscribed to the topic, and none is
  -- subscribed more often than before.
  pub record HandsOut (topic : String) (e : Envelope) (l l' : Local k.Inbox) : Type 0 where
    pub next : l'.inboxes.next ≡ l.inboxes.next
    pub cells :
        (i : ℕ)
        → l'.inboxes.cell i
          ≡ offered k e (count i (senders_of l.subscribers topic)) (l.inboxes.cell i)
    pub fewer :
        (i : ℕ) (other : String)
        → count i (senders_of l'.subscribers other) ≤ count i (senders_of l.subscribers other)

  pub hand_out-HandsOut :
      (topic : String) (e : Envelope) (l : Local k.Inbox)
      → Inv l
      → HandsOut topic e l (hand_out k topic e l)
  hand_out-HandsOut topic e l v = record {
    next = hand_out-next k topic e l;
    cells = λ i. (hand_out-evicts k topic e l i topic (v.once topic i)).0;
    fewer = λ i other. ground (arith, (hand_out-evicts k topic e l i other (v.once topic i)).1);
  }

  send_to-next :
      (senders : Option (List ℕ)) (env : Envelope) (l l' : Local k.Inbox)
      → send_to k senders env l ≡ some l'
      → l'.inboxes.next ≡ l.inboxes.next
  send_to-next none env l l' h = ground arith
  send_to-next (some senders) env l l' h =
      let (t, sent, same) = (Option.map-eq-some_iff _ _).0 h in
      ground (arith, same, (send_all-offered k senders env l.inboxes t 0 sent).1)

  pub send_to-HandsOut :
      (topic : String) (e : Envelope) (l l' : Local k.Inbox)
      → send_to k (get l.subscribers topic) e l ≡ some l'
      → HandsOut topic e l l'
  send_to-HandsOut topic e l l' sent = record {
    next = send_to-next (get l.subscribers topic) e l l' sent;
    cells = λ i. (send_to-offered k (get l.subscribers topic) e l l' i sent).0;
    fewer =
        λ i other. rw (send_to-offered k (get l.subscribers topic) e l l' i sent).1 (omega arith);
  }

  pub HandsOut-Inv :
      (topic : String) (e : Envelope) (l l' : Local k.Inbox)
      → Inv l
      → HandsOut topic e l l'
      → Inv l'
  HandsOut-Inv topic e l l' v h = record {
    fresh = λ t i n. ground (arith, v.fresh t i, h.fewer i t, h.next);
    once = λ t i. ground (arith, v.once t i, h.fewer i t);
  }

  -- What one round of an actor does to the map: nothing, or it hands out an envelope on the topic of the
  -- message that was taken, the only one that the message encodes.
  abbrev pub Handed :
      {P : Type 0}
      → (Envelope → Attempt P)
      → Option (String × P)
      → Local k.Inbox
      → Local k.Inbox
      → Type 0
  Handed {P} encode taken l l' =
      (l' ≡ l)
      ⊎ ((topic : String) × (p : P) × (e : Envelope) × (taken ≡ some (topic, p))
          × ((x : Envelope) → encode x ≡ done p → x ≡ e)
          × HandsOut topic e l l')

-- A decoder that reads what is encoded tells of what a message is the encoding.
pub decoded_one :
    {P : Type 0} (encode : Envelope → Attempt P) (decode : P → Attempt Envelope)
    → ((e : Envelope) (p : P) → encode e ≡ done p → decode p ≡ done e)
    → (p : P) (e : Envelope) → decode p ≡ done e
    → (x : Envelope) → encode x ≡ done p
    → x ≡ e
decoded_one encode decode decodes p e read x wrote = let again = decodes x p wrote in cc
