-- ===== src/Examples/Networking.antt =====
-- A client and a server on one in-memory bus, from their start to the answer of a request.
use mom_rpc.Base.{◌≤◌, false, ◌≡◌, ◌∷◌, [], refl, suc, zero, ℕ}
use mom_rpc.Network.Records.States.{WaitsOrAnswered}
use mom_rpc.Broker.Request.{request_envelope}
use mom_rpc.Broker.Pending.{register, on_response, no_requests}
use mom_rpc.Broker.Server.{handle_request}
use mom_rpc.Domain.{request, response}
use mom_rpc.Base.HashMap.{get, insert, remove}
use mom_rpc.Network.Records.{Sent}
use mom_rpc.Network.{
  Network, Node, Reach, listens, asks, begins, sends, serves, completes, start, later, Step,
  client_task, server_task,
}
use mom_rpc.Network.Envelopes.{Answered}
use mom_rpc.Network.Refinement.{Change, view, steps_refine_service}
use mom_rpc.Network.Once.{times_served, served_once}
use mom_rpc.Network.Safety.{request_states}
use mom_rpc.Examples.{prefix}
use mom_rpc.BrokerMode.{BrokerMode}
use mom_rpc.Channels.{Inboxes, entry_push}
use mom_rpc.Channels.Bounded.{Queue, bounded, channel}
use mom_rpc.Memory.{new, subscribe}
use mom_rpc.Oneshot.{Poll, waiting, cells}

abbrev pub no_inboxes : Inboxes Queue
no_inboxes = record { cell = λ i. channel 16; next = 0 }

abbrev pub nodes : ℕ → Node
nodes zero = record { node_id = "alpha"; mode = BrokerMode.client; handlers = [] }
nodes (suc n) = record {
  node_id = "beta";
  mode = BrokerMode.server;
  handlers = ("echo", prefix) ∷ [];
}

abbrev pub question : Sent
question = record { caller = 0; rx = 0; target = "beta"; method = "echo"; payload = 3 ∷ [] }

abbrev Reached : Network Queue Poll → Type 0
Reached = Reach bounded cells nodes no_inboxes (λ i. waiting)

abbrev listening : (s : Network Queue Poll) × Reached s
unfolding new subscribe entry_push
listening = (
  _,
  later (later start (listens 0 client_task (record { name = "responses/alpha" }) 0 _ refl refl))
      (listens 1 server_task (record { name = "requests/beta" }) 1 _ refl refl),
)

-- The request is made.
abbrev made : (s : Network Queue Poll) × Reached s
unfolding new subscribe entry_push get insert register request_envelope request no_requests
made = (_, later listening.1 (asks 0 "beta" "echo" (3 ∷ []) "only" refl refl))

-- It has come to the server's inbox.
abbrev asked : (s : Network Queue Poll) × Reached s
unfolding new subscribe entry_push get insert register request_envelope request no_requests
asked = (_, later (later made.1 (begins [] [] _ refl)) (sends [] [] 1 [] _ _ refl refl))

-- The response has come to the client's inbox.
abbrev pub replied : (s : Network Queue Poll) × Reached s
unfolding new subscribe entry_push get insert remove register request_envelope request no_requests
    handle_request response on_response
replied = (
  _,
  later (later (later asked.1 (serves 1 1 _ _ refl refl)) (begins [] [] _ refl))
      (sends [] _ 0 [] _ _ refl refl),
)

-- The client task has taken it.
abbrev taken : (s : Network Queue Poll) × Step bounded cells nodes replied.0 s
unfolding new subscribe entry_push get insert remove register request_envelope request no_requests
    handle_request response on_response
taken = (_, completes 0 0 _ _ refl refl)

abbrev returned : (s : Network Queue Poll) × Reached s
returned = (taken.0, later replied.1 taken.1)

request_states_example :
    WaitsOrAnswered cells (Answered nodes) returned.0.records "only" question false
unfolding new subscribe entry_push get insert remove register request_envelope request no_requests
    handle_request response on_response
request_states_example =
    request_states bounded cells nodes no_inboxes (λ i. waiting) returned.0 "only" question false
      returned.1 refl

steps_refine_service_example :
    Change (Answered nodes) (view cells replied.0.records) (view cells taken.0.records)
steps_refine_service_example =
    steps_refine_service bounded cells nodes no_inboxes (λ i. waiting) replied.0 taken.0 replied.1
      taken.1

-- The server has taken the request once.
served_once_example : times_served bounded cells nodes returned.1 1 "only" ≤ 1
served_once_example =
    served_once bounded cells nodes no_inboxes (λ i. waiting) returned.0 returned.1 1 "only" refl

taken_once : times_served bounded cells nodes returned.1 1 "only" ≡ 1
unfolding new subscribe entry_push get insert remove register request_envelope request no_requests
    handle_request response on_response
taken_once = refl
