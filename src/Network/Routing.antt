-- ===== src/Network/Routing.antt =====
-- Which topics an inbox of a receiving task is subscribed to: that of the task only.
use mom_rpc.Base.{
  Bool-cases, ==_iff, if◌then◌else◌, ◌==◌, eq_iff, str_eq, arith, some, none, Option, inr, inl, ◌∙◌,
  ap, ◌≡◌, String, ◌<◌, ◌+◌, suc, ℕ,
}
use mathlib.Core.Option.{some-injective}
use mom_rpc.BrokerMode.{BrokerMode}
use mom_rpc.Memory.{inbox_capacity, MemoryHub, subscribe, close, new}
use mom_rpc.Network.{
  Role, Node, Listener, topic_of, subscription_of, listen, take, client_task, server_task,
}
use mom_rpc.Domain.{Subscription}
use mom_rpc.Error.{ok, Result}
use mom_rpc.Channels.{Inboxes, Channels, copies, copies-le-total, copies-entry_push}
use mom_rpc.Memory.Hub.{Inv, subscribe-Inv, close-Inv, new-Inv}

module _ (nodes : ℕ → Node) where
  abbrev pub listens_to : Listener → String
  listens_to l = topic_of l.role (nodes l.node).node_id

  pub record Routed {Q : Type 0} (h : MemoryHub Q) (owner : ℕ → Option Listener) : Type 0 where
    pub hub : Inv h
    pub made : (i : ℕ) (l : Listener) → owner i ≡ some l → i < h.inboxes.next
    pub topics :
        (i : ℕ) (l : Listener) (topic : String)
        → owner i ≡ some l
        → 0 < copies h.subscriptions topic i
        → topic ≡ listens_to l

  pub subscription-topic :
      (role : Role) (mode : BrokerMode) (node_id : String) (sub : Subscription)
      → subscription_of role mode node_id ≡ some sub
      → sub.name ≡ topic_of role node_id
  subscription-topic client_task BrokerMode.client node_id sub h = ground arith
  subscription-topic client_task BrokerMode.server node_id sub h = cc
  subscription-topic client_task BrokerMode.full_duplex node_id sub h = ground arith
  subscription-topic server_task BrokerMode.client node_id sub h = cc
  subscription-topic server_task BrokerMode.server node_id sub h = ground arith
  subscription-topic server_task BrokerMode.full_duplex node_id sub h = ground arith

  module _ (k : Channels) (owner : ℕ → Option Listener) where
    pub new-Routed : (t : Inboxes k.Inbox) → Routed (new k t) (λ i. none)
    new-Routed t = record {
      hub = new-Inv k t;
      made = λ i l h. absurd (cc);
      topics = λ i l topic h c. absurd (cc);
    }

    pub subscribed :
        (sub : Subscription) (i : ℕ) (h h' : MemoryHub k.Inbox)
        → subscribe k sub h ≡ some (ok i, h')
        → (i ≡ h.inboxes.next)
          × (h'.inboxes.next ≡ suc h.inboxes.next)
          × ((j : ℕ)
              → h'.inboxes.cell j
                ≡ (if h.inboxes.next == j then k.channel inbox_capacity else h.inboxes.cell j))
          × ((topic : String) (j : ℕ)
              → copies h'.subscriptions topic j
                ≡ copies h.subscriptions topic j
                  + (if str_eq sub.name topic then (if j == h.inboxes.next then 1 else 0) else 0))
    unfolding subscribe
    subscribed sub i h h' e = (
      ground arith,
      ground arith,
      λ j. ground arith,
      λ topic j. ground (arith, copies-entry_push h.subscriptions sub.name h.inboxes.next topic j),
    )

    new_topic :
        (sub : Subscription) (i : ℕ) (h h' : MemoryHub k.Inbox) (topic : String)
        → subscribe k sub h ≡ some (ok i, h')
        → Inv h
        → 0 < copies h'.subscriptions topic i
        → topic ≡ sub.name
    new_topic sub i h h' topic e v c =
        let (at, _, _, n) = subscribed sub i h h' e in
        ground (
          arith,
          n topic i,
          v.fresh i,
          copies-le-total h.subscriptions topic i,
          eq_iff sub.name topic,
        )

    old_topic :
        (sub : Subscription) (i j : ℕ) (h h' : MemoryHub k.Inbox) (topic : String)
        → subscribe k sub h ≡ some (ok i, h')
        → j < h.inboxes.next
        → copies h'.subscriptions topic j ≡ copies h.subscriptions topic j
    old_topic sub i j h h' topic e l =
        let (_, _, _, n) = subscribed sub i h h' e in ground (arith, n topic j)

    pub subscribe-Routed :
        (l : Listener) (sub : Subscription) (i : ℕ) (h h' : MemoryHub k.Inbox)
        → subscription_of l.role (nodes l.node).mode (nodes l.node).node_id ≡ some sub
        → subscribe k sub h ≡ some (ok i, h')
        → Routed h owner
        → Routed h' (listen i l owner)
    subscribe-Routed l sub i h h' s e v =
        let (new, next, _, _) = subscribed sub i h h' e in
        record {
          hub = subscribe-Inv k sub h h' (ok i) v.hub e;
          made = λ j m o. elim (Bool-cases (i == j)) [
            | inl g ↦ rw next (omega (arith, (==_iff i j).0 g))
            | inr g ↦ rw next (omega (arith, v.made j m (rw g at o)))
          ];
          topics = λ j m topic o c. elim (Bool-cases (i == j)) [
            | inl g ↦
                let same = (==_iff i j).0 g in
                let own : l ≡ m = some-injective _ _ (rw g at o) in
                new_topic sub i h h' topic e v.hub (rw same c)
                ∙ subscription-topic l.role _ _ sub s
                ∙ ap listens_to own
            | inr g ↦
                let old = rw g at o in
                v.topics j m topic old (rw (old_topic sub i j h h' topic e (v.made j m old)) at c)
          ];
        }

    pub take-Routed :
        (i : ℕ) (q : k.Inbox) (h : MemoryHub k.Inbox) → Routed h owner → Routed (take i q h) owner
    take-Routed i q h v = record {
      hub = record { fresh = v.hub.fresh; once = v.hub.once };
      made = v.made;
      topics = v.topics;
    }

    pub close-Routed :
        (r : Result (Unit {0})) (h h' : MemoryHub k.Inbox)
        → close k h ≡ some (r, h')
        → Routed h owner
        → Routed h' owner
    unfolding close
    close-Routed r h h' e v = record {
      hub = close-Inv k h h' r e;
      made = λ i l o. ground (arith, v.made i l o);
      topics = λ i l topic o c. absurd (ground arith);
    }
