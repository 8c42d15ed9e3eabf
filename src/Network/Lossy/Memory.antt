-- ===== src/Network/Lossy/Memory.antt =====
-- The in-memory bus (src/transport/memory.rs) as such a transport.
use mom_rpc.Base.{All, ◌++◌, ◌∷◌, [], List, some, none, Option, subst, refl, ◌≡◌, ℕ}
use mom_rpc.Network.Lossy.Emits.{new_envelope, old_envelope}
use mom_rpc.Network.Traffic.{
  kept_inboxes, close-Carried, take-Carried, send-Carried, begin-Carried, Carried-map,
  subscribe-Carried, emit-Carried, new-Carried, Carried,
}
use mom_rpc.Network.Routing.{
  close-Routed, take-Routed, subscribe-Routed, new-Routed, Routed, subscribed,
}
use mom_rpc.Network.{
  take, topic_of, emit, Network, Node, Listener, Step, Reach, listens, asks, begins, sends, skips,
  serves, completes, closes, start, later,
}
use mom_rpc.Broker.Server.{handle_request}
use mom_rpc.Network.Sending.{
  send-Sending, next_send, begin-Begun, Sending-map, subscribe-Sending, Sending,
}
use mom_rpc.Broker.Request.{request_envelope}
use mom_rpc.Memory.{MemoryHub}
use mom_rpc.Channels.{Inboxes, Channels}
use mom_rpc.Domain.{Envelope}
use mom_rpc.Oneshot.{Oneshots}
use mom_rpc.Network.Lossy
use mom_rpc.Network.Lossy.{Medium, posts, replies, resolves}
use mathlib.Core.List.{Memᴰ}

module _ (k : Channels) (o : Oneshots) (nodes : ℕ → Node) (cells : ℕ → o.Cell) where
  -- The bus with what was published on it: the transport reaches a state with these envelopes and the
  -- same records, and what waits on the bus is among them, where its addressee listens.
  pub record Simulated (published : List Envelope) (s : Network k.Inbox o.Cell) : Type 0 where
    pub reached : Lossy.Reach o nodes cells (record { published = published; records = s.records })
    pub routed : Routed nodes s.hub s.owner
    pub carried : Carried nodes k (λ e. Memᴰ e published) s.hub s.owner s.outgoing
    pub under_way : Sending nodes (λ e. Memᴰ e published) s.hub.inboxes.next s.owner s.sending

  -- More is published, and it waits to be sent.
  emits :
      (published : List Envelope) (e : Option Envelope) (h : MemoryHub k.Inbox)
      (owner : ℕ → Option Listener) (outgoing : List Envelope)
      → Carried nodes k (λ x. Memᴰ x published) h owner outgoing
      → Carried nodes k (λ x. Memᴰ x (emit e published)) h owner (emit e outgoing)
  emits published e h owner outgoing v =
      emit-Carried nodes k _ owner outgoing e h (new_envelope published e)
        (Carried-map nodes k _ _ h owner outgoing (old_envelope published e) v)

  Step-Simulated :
      {s s' : Network k.Inbox o.Cell} (published : List Envelope)
      → Simulated published s
      → Step k o nodes s s'
      → (published' : List Envelope) × Simulated published' s'
  Step-Simulated {s} published v (listens n role sub i h topic e) =
      let l : Listener = record { node = n; role = role } in
      let (new, next, _, _) = subscribed nodes k s.owner sub i s.hub h e in
      (
        published,
        record {
          reached = v.reached;
          routed = subscribe-Routed nodes k s.owner l sub i s.hub h topic e v.routed;
          carried = subscribe-Carried nodes k _ s.owner s.outgoing l sub i s.hub h e v.carried;
          under_way =
              rw (next, new)
                (subscribe-Sending nodes _ s.owner s.sending l s.hub.inboxes.next v.under_way);
        },
      )
  Step-Simulated {s} published v (asks n target method payload id may fresh) =
      let e = request_envelope (nodes n).node_id target method payload id in
      (
        published ++ e ∷ [],
        record {
          reached = Lossy.later v.reached (posts n target method payload id may fresh);
          routed = v.routed;
          carried = emits published (some e) s.hub s.owner s.outgoing v.carried;
          under_way =
              Sending-map nodes _ _ s.hub.inboxes.next s.owner s.sending
                (old_envelope published (some e)) v.under_way;
        },
      )
  Step-Simulated {s} published v (begins before after e outgoing) =
      let (good, rest) =
        begin-Carried nodes k _ s.owner s.outgoing before after e s.hub outgoing v.carried in
      (
        published,
        record {
          reached = v.reached;
          routed = v.routed;
          carried = rest;
          under_way = (
            begin-Begun nodes (λ x. Memᴰ x published) s.owner s.sending e s.hub good v.routed,
            v.under_way,
          );
        },
      )
  Step-Simulated {s} published v (sends before after i rest e q chosen sent) =
      let (good, (_, heads)) =
        next_send nodes _ s.owner s.sending _ before after i rest e chosen v.under_way in
      (
        published,
        record {
          reached = v.reached;
          routed = take-Routed nodes k s.owner i q s.hub v.routed;
          carried = send-Carried nodes k _ s.owner s.outgoing i e q s.hub sent good heads v.carried;
          under_way =
              send-Sending nodes _ s.owner s.sending _ before after i rest e chosen v.under_way;
        },
      )
  Step-Simulated {s} published v (skips before after i rest e chosen shut) = (
    published,
    record {
      reached = v.reached;
      routed = v.routed;
      carried = v.carried;
      under_way = send-Sending nodes _ s.owner s.sending _ before after i rest e chosen v.under_way;
    },
  )
  Step-Simulated {s} published v (serves i n e q own got) =
      let ((good, here), rest) =
        take-Carried nodes k _ s.owner s.outgoing i _ e q s.hub own got v.carried in
      let resp = handle_request (nodes n).handlers e in
      (
        emit resp published,
        record {
          reached = Lossy.later v.reached (replies n e good here);
          routed = take-Routed nodes k s.owner i q s.hub v.routed;
          carried = emits published resp (take i q s.hub) s.owner s.outgoing rest;
          under_way =
              Sending-map nodes _ _ s.hub.inboxes.next s.owner s.sending
                (old_envelope published resp) v.under_way;
        },
      )
  Step-Simulated {s} published v (completes i n e q own got) =
      let ((good, here), rest) =
        take-Carried nodes k _ s.owner s.outgoing i _ e q s.hub own got v.carried in
      (
        published,
        record {
          reached = Lossy.later v.reached (resolves n e good here);
          routed = take-Routed nodes k s.owner i q s.hub v.routed;
          carried = rest;
          under_way = v.under_way;
        },
      )
  Step-Simulated {s} published v (closes r h e) = (
    published,
    record {
      reached = v.reached;
      routed = close-Routed nodes k s.owner r s.hub h e v.routed;
      carried = close-Carried nodes k _ s.owner s.outgoing r s.hub h e v.carried;
      under_way =
          subst
            (λ (t : Inboxes k.Inbox).
              Sending nodes (λ x. Memᴰ x published) t.next s.owner s.sending)
            (kept_inboxes nodes k (λ x. Memᴰ x published) s.owner s.outgoing r s.hub h e)
            v.under_way;
    },
  )

  pub Reach-Simulated :
      {t : Inboxes k.Inbox} {s : Network k.Inbox o.Cell}
      → Reach k o nodes t cells s
      → (published : List Envelope) × Simulated published s
  Reach-Simulated {t} start = (
    [],
    record {
      reached = Lossy.start;
      routed = new-Routed nodes k (λ i. none) t;
      carried = new-Carried nodes k (λ e. Memᴰ e []) t;
      under_way = tt;
    },
  )
  Reach-Simulated (later r step) =
      let (published, v) = Reach-Simulated r in Step-Simulated published v step

  -- Brokers on one in-memory bus, in every state that their tasks reach from the start: brokers over a
  -- transport that may lose, repeat, delay and reorder envelopes, but gives a receiving task only
  -- envelopes published on its topic, reach a state with the same requests and the same pending maps.
  -- Every envelope that waits on the bus to be published, or stands in the inbox of a receiving task,
  -- is among those published there, and the one in the inbox is addressed to its task.
  pub bus_refines_any_transport :
      (t : Inboxes k.Inbox) (s : Network k.Inbox o.Cell)
      → Reach k o nodes t cells s
      → (m : Medium o.Cell) × Lossy.Reach o nodes cells m
        × (m.records ≡ s.records)
        × All (λ e. Memᴰ e m.published) s.outgoing
        × ((i : ℕ) (l : Listener)
            → s.owner i ≡ some l
            → All
                (λ e.
                  Memᴰ e m.published × (e.address.name ≡ topic_of l.role (nodes l.node).node_id))
                (k.queued (s.hub.inboxes.cell i)))
  bus_refines_any_transport t s reach =
      let (published, v) = Reach-Simulated reach in
      (
        record { published = published; records = s.records },
        v.reached,
        refl,
        v.carried.waiting,
        v.carried.queues,
      )
