-- ===== src/Exchange.antt =====
-- A request and its response on one in-memory bus: the broker's sides of src/broker.rs over the
-- transports of src/transport/memory.rs.
use mom_rpc.Base.{
  if◌then◌else◌, ◌==◌, arith, false, ◌<◌, eq_iff, ◌++◌, ◌∷◌, [], some, ◌∙◌, ap, refl, ◌≡◌, ◌<>◌,
  String, ℕ,
}
use mom_rpc.Memory.Blocking.{publish_completes}
use mom_rpc.Domain.{Bytes, Envelope, TransportBase, response}
use mom_rpc.Error.{ok}
use mom_rpc.Base.HashMap.{get}
use mom_rpc.Channels.{is_full, Channels, Inboxes, accepted, copies}
use mom_rpc.Memory.{MemoryHub, new, publish, memory_transport}
use mom_rpc.Memory.Hub.{Reach, next, publishing, publish-queued, publish_lem}
use mom_rpc.Oneshot.{Oneshots, ready}
use mom_rpc.Broker.Pending.{Pending, arrives, register, meanwhile}
use mom_rpc.Broker.Pending.Answers.{Inv, meanwhile-answer, answer, outcome}
use mom_rpc.Broker.Request.{request_envelope}
use mom_rpc.Broker.Server.{HandlerFn, HandlerRegistry, on_request, handle_request, publish_response}

positive : (n : ℕ) (e : Envelope) → 0 < n → (if n == 0 then [] else e ∷ []) ≡ e ∷ []
positive n e h = ground arith

module _ (k : Channels) (o : Oneshots) (t : Inboxes k.Inbox) (base : TransportBase)
    (node_id target method id : String) (payload bytes : Bytes) (handlers : HandlerRegistry)
    (handler : HandlerFn) where
  abbrev asked : Envelope
  asked = request_envelope node_id target method payload id

  abbrev answered : Envelope
  answered = response (record { name = "responses/" <> node_id }) bytes id "application/json"

  serves :
      get handlers method ≡ some handler
      → handler payload ≡ ok bytes
      → handle_request handlers asked ≡ some answered
  unfolding handle_request request_envelope
  serves found result = rw (found, result)

  on_request_publishes :
      (h h' : MemoryHub k.Inbox)
      → get handlers method ≡ some handler
      → handler payload ≡ ok bytes
      → publish k answered h ≡ some (ok tt, h')
      → on_request (memory_transport k base) handlers asked h ≡ some h'
  unfolding on_request publish_response memory_transport
  on_request_publishes h h' found result published =
      rw (serves found result, on_request, publish_response, published) refl

  id_arrives : answer id (arrives answered ∷ []) ≡ some bytes
  unfolding answer response
  id_arrives = rw ((eq_iff id id).1 refl)

  -- On a hub that calls reach from a new one, no inbox that is subscribed to the target's requests or
  -- to the node's responses being full, and none being subscribed to both: the publish of a request
  -- completes, and so does the work of a server on it that has a handler for its method which
  -- succeeds. An open inbox that is subscribed to the target's requests then has the request as its
  -- last message, one that is subscribed to the node's responses has the response as its last
  -- message; and if the request was registered in a pending map that meets its invariant, its oneshot
  -- channel holds the handler's result after the client task has taken the response.
  pub exchange_completes :
      (h : MemoryHub k.Inbox) (server client : ℕ) (server_inbox client_inbox : k.Inbox)
      (p : Pending o.Cell)
      → Reach k (new k t) h
      → ((i : ℕ)
          → 0 < copies h.subscriptions ("requests/" <> target) i
          → is_full (k.offer (h.inboxes.cell i) asked) ≡ false)
      → ((i : ℕ)
          → 0 < copies h.subscriptions ("responses/" <> node_id) i
          → (copies h.subscriptions ("requests/" <> target) i ≡ 0)
            × (is_full (k.offer (h.inboxes.cell i) answered) ≡ false))
      → 0 < copies h.subscriptions ("requests/" <> target) server
      → k.offer (h.inboxes.cell server) asked ≡ accepted server_inbox
      → 0 < copies h.subscriptions ("responses/" <> node_id) client
      → k.offer (h.inboxes.cell client) answered ≡ accepted client_inbox
      → get handlers method ≡ some handler
      → handler payload ≡ ok bytes
      → Inv o p
      → (h1 : MemoryHub k.Inbox) × (h2 : MemoryHub k.Inbox) × (publish k asked h ≡ some (ok tt, h1))
        × (on_request (memory_transport k base) handlers asked h1 ≡ some h2)
        × (k.queued (h1.inboxes.cell server) ≡ k.queued (h.inboxes.cell server) ++ asked ∷ [])
        × (k.queued (h2.inboxes.cell client) ≡ k.queued (h.inboxes.cell client) ++ answered ∷ [])
        × (o.poll ((meanwhile o (arrives answered ∷ []) (register o id p)).cells p.next)
            ≡ ready bytes)
  unfolding request_envelope response
  exchange_completes h server client server_inbox client_inbox p reach room apart subscribed
        open_server awaits open_client found result valid =
      let (h1, published) = publish_completes k t h asked reach room in
      let reach1 = next reach (publishing asked (ok tt) published) in
      let kept : (i : ℕ)
          → copies h.subscriptions ("requests/" <> target) i ≡ 0
          → h1.inboxes.cell i ≡ h.inboxes.cell i =
        λ i none_sent. rw none_sent at (publish_lem k asked h h1 (ok tt) i published).3 in
      let subs = (publish_lem k asked h h1 (ok tt) client published).1 in
      let (h2, replied) = publish_completes k t h1 answered reach1 (λ i subscribed_too.
        let (none_sent, has_room) = apart i (rw subs at subscribed_too) in
        rw (kept i none_sent) has_room) in
      let unchanged = kept client (apart client awaits).0 in
      let at_server =
        publish-queued k t h h1 asked (ok tt) server server_inbox reach published open_server in
      let at_client =
        publish-queued k t h1 h2 answered (ok tt) client client_inbox reach1 replied
          (rw unchanged open_client) in
      let replies =
        positive (copies h1.subscriptions ("responses/" <> node_id) client) answered
          (rw subs awaits) in
      (
        h1,
        h2,
        published,
        on_request_publishes h1 h2 found result replied,
        at_server ∙ ap (λ more. k.queued (h.inboxes.cell server) ++ more) (positive _ _ subscribed),
        rw unchanged at at_client ∙ ap (λ more. k.queued (h.inboxes.cell client) ++ more) replies,
        meanwhile-answer o id (arrives answered ∷ []) p valid tt ∙ ap outcome id_arrives,
      )
