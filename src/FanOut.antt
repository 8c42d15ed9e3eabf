-- ===== src/FanOut.antt =====
-- What the transports over MQTT, Redis and DDS share: the map from topics to the senders of local
-- subscribers (SubscriberMap of src/transport/mqtt/rumqttc.rs, redis/redis.rs and dds/dust_dds.rs), and
-- handle_incoming, which hands a message out.
pub mod Delivery
pub mod Reachable
pub mod Races
use mom_rpc.Base.{if◌then◌else◌, ◌==◌, length, ◌∷◌, [], List, some, none, Option, String, ℕ}
use mom_rpc.Domain.{Envelope}
use mom_rpc.Base.HashMap.{HashMap, get, insert}
use mom_rpc.Channels.{Channels, Inboxes, accepted, full, closed, write, allocate, entry_push}

-- The map, and the inboxes made so far.
pub record Local (Q : Type 0) : Type 0 where
  pub subscribers : HashMap (List ℕ)
  pub inboxes : Inboxes Q

module _ (k : Channels) where
  -- for tx in senders { tx.try_send(env.clone()) }: the senders that took the message.
  unfoldable pub fan_out : List ℕ → Envelope → Inboxes k.Inbox → List ℕ × Inboxes k.Inbox
  fan_out [] env t = ([], t)
  fan_out (i ∷ senders) env t = elim (k.offer (t.cell i) env) [
    | accepted q ↦ let r = fan_out senders env (write t i q) in (i ∷ r.0, r.1)
    | full ↦ fan_out senders env t
    | closed ↦ fan_out senders env t
  ]

-- The map is written only if a sender was lost.
abbrev pub evict : HashMap (List ℕ) → String → List ℕ → List ℕ → HashMap (List ℕ)
evict subs topic senders survivors =
    if length survivors == length senders then subs else insert subs topic survivors

module _ (k : Channels) where
  abbrev pub fan_out_to : Option (List ℕ) → String → Envelope → Local k.Inbox → Local k.Inbox
  fan_out_to none topic env l = l
  fan_out_to (some senders) topic env l =
      let r = fan_out k senders env l.inboxes in
      record { inboxes = r.1; subscribers = evict l.subscribers topic senders r.0 }

  -- The two accesses to the map with nothing between them.
  unfoldable pub hand_out : String → Envelope → Local k.Inbox → Local k.Inbox
  unfolding fan_out
  hand_out topic env l = fan_out_to (get l.subscribers topic) topic env l

  -- The first step of `subscribe`: a new inbox, with its sender in the map.
  unfoldable pub add_subscriber : String → Local k.Inbox → ℕ × Local k.Inbox
  unfolding entry_push
  add_subscriber topic l =
      let tx = l.inboxes.next in
      (
        tx,
        record {
          subscribers = entry_push l.subscribers topic tx;
          inboxes = allocate l.inboxes (k.channel 16);
        },
      )
