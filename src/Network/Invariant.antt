-- ===== src/Network/Invariant.antt =====
-- The invariant of the network: its routing, its envelopes and its records.
use mom_rpc.Base.{some, ◌≡◌, String, ℕ}
use mom_rpc.Network.Lossy.Authenticity
use mom_rpc.Network.Lossy.Emits.{All-member}
use mom_rpc.Network.Lossy.Memory.{Reach-Simulated}
use mom_rpc.Network.{Network, client_task, Node, Reach}
use mom_rpc.Network.Records.{Sent, Consistent}
use mom_rpc.Network.Routing.{Routed}
use mom_rpc.Network.Traffic.{Carried, Carried-map, take-Carried}
use mom_rpc.Network.Sending.{Sending, Sending-map}
use mom_rpc.Network.Envelopes.{Answered, Authentic, received-Answered}
use mom_rpc.Channels.{Channels, Inboxes}
use mom_rpc.Oneshot.{Oneshots}
use mom_rpc.Domain.{Envelope}
use mom_rpc.Base.HashMap.{get}

module _ (k : Channels) (o : Oneshots) (nodes : ℕ → Node) where
  pub record Sound (s : Network k.Inbox o.Cell) : Type 0 where
    pub routed : Routed nodes s.hub s.owner
    pub carried : Carried nodes k (Authentic nodes s.records.sent) s.hub s.owner s.outgoing
    pub under_way :
        Sending nodes (Authentic nodes s.records.sent) s.hub.inboxes.next s.owner s.sending
    pub consistent : Consistent o (Answered nodes) s.records

  -- What a client task takes is an answer to the request whose correlation ID it carries.
  pub taken_answers :
      {s : Network k.Inbox o.Cell}
      → Sound s
      → (i n : ℕ) (e : Envelope) (q : k.Inbox)
      → s.owner i ≡ some (record { node = n; role = client_task })
      → k.recv (s.hub.inboxes.cell i) ≡ some (e, q)
      → (id : String) (r : Sent) → e.correlation_id ≡ some id
      → get s.records.sent id ≡ some r
      → Answered nodes r e.payload
  taken_answers {s} v i n e q own got id r =
      let ((good, here), _) =
        take-Carried nodes k _ s.owner s.outgoing i _ e q s.hub own got v.carried in
      received-Answered nodes s.records.sent n e id r good here

  pub Reach-Sound :
      {t : Inboxes k.Inbox} {cells : ℕ → o.Cell} {s : Network k.Inbox o.Cell}
      → Reach k o nodes t cells s
      → Sound s
  Reach-Sound {t} {cells} {s} reach =
      let (published, v) = Reach-Simulated k o nodes cells reach in
      let sound = Authenticity.Reach-Sound o nodes v.reached in
      let good =
        λ (e : Envelope). All-member (Authentic nodes s.records.sent) e published sound.authentic in
      record {
        routed = v.routed;
        carried = Carried-map nodes k _ _ s.hub s.owner s.outgoing good v.carried;
        under_way = Sending-map nodes _ _ s.hub.inboxes.next s.owner s.sending good v.under_way;
        consistent = sound.consistent;
      }
