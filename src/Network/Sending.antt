-- ===== src/Network/Sending.antt =====
-- The publishes that have begun: each still sends only to inboxes whose receiving task, if they have
-- one, listens to the address of its envelope.
use mom_rpc.Base.{
  All-map, All-replace, All-take_out, All, arith, ◌++◌, ◌∷◌, List, some, Option, subst, ◌≡◌, ◌<◌,
  suc, ℕ,
}
use mom_rpc.Network.{Node, Listener, listen}
use mom_rpc.Network.Routing.{Routed, listens_to}
use mom_rpc.Channels.{copies-le-total}
use mom_rpc.Domain.{Envelope}
use mom_rpc.Memory.{MemoryHub}
use mom_rpc.Memory.Sends.{targets, targets-subscribed}

module _ (nodes : ℕ → Node) where
  abbrev pub Heads : ℕ → (ℕ → Option Listener) → Envelope → ℕ → Type 0
  Heads next owner e i =
      (i < next) × ((l : Listener) → owner i ≡ some l → e.address.name ≡ listens_to nodes l)

  abbrev pub Begun : (Envelope → Type 0) → ℕ → (ℕ → Option Listener) → List ℕ × Envelope → Type 0
  Begun Good next owner p = Good p.1 × All (Heads next owner p.1) p.0

  abbrev pub Sending :
      (Envelope → Type 0) → ℕ → (ℕ → Option Listener) → List (List ℕ × Envelope) → Type 0
  Sending Good next owner sending = All (Begun Good next owner) sending

  pub Sending-map :
      (Good Better : Envelope → Type 0) (next : ℕ) (owner : ℕ → Option Listener)
      (sending : List (List ℕ × Envelope))
      → ((e : Envelope) → Good e → Better e)
      → Sending Good next owner sending
      → Sending Better next owner sending
  Sending-map Good Better next owner sending f v =
      All-map _ _ sending (λ p (g, heads). (f p.1 g, heads)) v

  module _ (Good : Envelope → Type 0) (owner : ℕ → Option Listener)
      (sending : List (List ℕ × Envelope)) where
    -- A new inbox is not among those that are sent to.
    pub subscribe-Sending :
        (l : Listener) (next : ℕ)
        → Sending Good next owner sending
        → Sending Good (suc next) (listen next l owner) sending
    subscribe-Sending l next v =
        All-map _ _ sending
          (λ p (g, heads).
            (g, All-map _ _ p.0 (λ i (made, to). (omega arith, λ m o. to m (ground arith))) heads))
          v

    pub begin-Begun :
        {Q : Type 0} (e : Envelope) (h : MemoryHub Q)
        → Good e
        → Routed nodes h owner
        → Begun Good h.inboxes.next owner (targets h.subscriptions e.address.name, e)
    begin-Begun e h good v = (
      good,
      All-map _ _ (targets h.subscriptions e.address.name)
          (λ i n. (
            ground (arith, v.hub.fresh i, copies-le-total h.subscriptions e.address.name i),
            λ l o. v.topics i l e.address.name o n,
          ))
          (targets-subscribed h.subscriptions e.address.name),
    )

    module _ (next : ℕ) (before after : List (List ℕ × Envelope)) (i : ℕ) (rest : List ℕ)
        (e : Envelope) (chosen : sending ≡ before ++ (i ∷ rest, e) ∷ after)
        (v : Sending Good next owner sending) where
      -- What is known of the next send.
      pub next_send : Good e × Heads next owner e i
      next_send =
          let ((good, (first, _)), _) =
            All-take_out _ before (i ∷ rest, e) after (subst (Sending Good next owner) chosen v) in
          (good, first)

      -- After it, or without it.
      pub send-Sending : Sending Good next owner (before ++ (rest, e) ∷ after)
      send-Sending =
          All-replace _ before (i ∷ rest, e) (rest, e) after
            (subst (Sending Good next owner) chosen v) (λ (good, (_, others)). (good, others))
