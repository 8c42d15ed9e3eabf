-- ===== src/Examples/Lossy.antt =====
-- A client and a server over a transport that repeats the request and its response.
use mom_rpc.Network.Lossy.{replies, resolves, Medium, Reach, posts, start, later}
use mom_rpc.Domain.{response, request}
use mom_rpc.Broker.Server.{handle_request}
use mom_rpc.Base.HashMap.{remove, insert, get}
use mom_rpc.Base.{All, ◌∷◌, [], some, false, refl, ◌≡◌, ℕ}
use mom_rpc.Network.Lossy.Finality.{done, then_, Steps, answer_is_final}
use mom_rpc.Broker.Pending.{on_response, no_requests, register}
use mom_rpc.Error.{ok}
use mom_rpc.Broker.Request.{received, request_envelope}
use mom_rpc.Oneshot.{Poll, waiting, cells}
use mom_rpc.Channels.Bounded.{bounded}
use mathlib.Core.List.{Memᴰ}
use mom_rpc.Network.Lossy.Memory.{bus_refines_any_transport}
use mom_rpc.Examples.Networking.{nodes, question, no_inboxes, replied}
use mom_rpc.Network.{Listener, topic_of}

abbrev Reached : Medium Poll → Type 0
Reached = Reach cells nodes (λ i. waiting)

abbrev posted : (s : Medium Poll) × Reached s
unfolding get insert register request_envelope request no_requests
posted = (_, later start (posts 0 "beta" "echo" (3 ∷ []) "only" refl refl))

bus_refines_any_transport_example :
    (m : Medium Poll) × Reached m
    × (m.records ≡ replied.0.records)
    × All (λ e. Memᴰ e m.published) replied.0.outgoing
    × ((i : ℕ) (l : Listener)
        → replied.0.owner i ≡ some l
        → All
            (λ e. Memᴰ e m.published × (e.address.name ≡ topic_of l.role (nodes l.node).node_id))
            (bounded.queued (replied.0.hub.inboxes.cell i)))
bus_refines_any_transport_example =
    bus_refines_any_transport bounded cells nodes (λ i. waiting) no_inboxes replied.0 replied.1

-- The client has its answer; the server answers the request again, and the client takes the second
-- response.
abbrev resolved : (s : Medium Poll) × Reached s
unfolding get insert remove register request_envelope request no_requests handle_request response
    on_response
resolved = (
  _,
  later (later posted.1 (replies 1 _ (Memᴰ.head refl) refl))
      (resolves 0 _ (Memᴰ.tail (Memᴰ.head refl)) refl),
)

abbrev repeated : (s : Medium Poll) × Steps cells nodes resolved.0 s
unfolding get insert remove register request_envelope request no_requests handle_request response
    on_response
repeated = (
  _,
  then_ (replies 1 _ (Memᴰ.head refl) refl)
      (then_ (resolves 0 _ (Memᴰ.tail (Memᴰ.tail (Memᴰ.head refl))) refl) done),
)

answer_is_final_example :
    (get repeated.0.records.sent "only" ≡ some question)
    × (received cells false (cells.poll ((repeated.0.records.pending 0).cells 0)) ≡ ok (1 ∷ 3 ∷ []))
unfolding get insert remove register request_envelope request no_requests handle_request response
    on_response
answer_is_final_example =
    answer_is_final cells nodes (λ i. waiting) resolved.0 repeated.0 "only" question false
      (1 ∷ 3 ∷ []) resolved.1 refl refl repeated.1
