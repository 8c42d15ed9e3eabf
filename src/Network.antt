-- ===== src/Network.antt =====
-- Brokers of src/broker.rs on one in-memory bus (src/transport/memory.rs), with their tasks interleaved
-- in any order: the client and the server task of each, its requests, the tasks that the server task
-- spawns, and the close of the bus. A broker is given by its number.
pub mod Records
pub mod Routing
pub mod Traffic
pub mod Sending
pub mod Envelopes
pub mod Invariant
pub mod Safety
pub mod Refinement
pub mod Loads
pub mod Once
pub mod Lossy
pub mod Actors
use mom_rpc.Base.{if◌then◌else◌, ◌==◌, ◌++◌, ◌∷◌, [], List, some, none, Option, ◌≡◌, String, ℕ}
use mom_rpc.Broker.Request.{request_envelope, may_request}
use mom_rpc.Base.HashMap.{get}
use mom_rpc.Memory.Sends.{targets}
use mom_rpc.Memory.{MemoryHub, new, subscribe, close}
use mom_rpc.Error.{Result, ok}
use mom_rpc.Broker.Server.{HandlerRegistry, handle_request}
use mom_rpc.Broker.Pending.{no_requests}
use mom_rpc.Broker.Lifecycle.{client_side, server_side, response_subscription, request_subscription}
use mom_rpc.Domain.{Bytes, Envelope, Subscription}
use mom_rpc.Network.Records.{Ledger, ask, complete}
use mom_rpc.BrokerMode.{BrokerMode}
use mom_rpc.Channels.{accepted, closed, Channels, Inboxes, write}
use mom_rpc.Oneshot.{Oneshots}

-- What does not change while the brokers run.
pub record Node : Type 0 where
  pub node_id : String
  pub mode : BrokerMode
  pub handlers : HandlerRegistry

-- The two tasks that receive.
pub data Role : Type 0 where
  client_task server_task : Role

abbrev pub subscription_of : Role → BrokerMode → String → Option Subscription
subscription_of client_task mode node_id = client_side mode node_id
subscription_of server_task mode node_id = server_side mode node_id

abbrev pub topic_of : Role → String → String
topic_of client_task node_id = (response_subscription node_id).name
topic_of server_task node_id = (request_subscription node_id).name

-- A receiving task of a broker.
pub record Listener : Type 0 where
  pub node : ℕ
  pub role : Role

abbrev pub listen : ℕ → Listener → (ℕ → Option Listener) → ℕ → Option Listener
listen i l owner j = if i == j then some l else owner j

-- The bus, the task that receives from an inbox, the envelopes whose publish has not begun, the
-- publishes that have begun, with the senders that are still to be sent to, and what each broker knows
-- of its requests.
pub record Network (Q C : Type 0) : Type 0 where
  pub hub : MemoryHub Q
  pub owner : ℕ → Option Listener
  pub outgoing : List Envelope
  pub sending : List (List ℕ × Envelope)
  pub records : Ledger C

abbrev pub emit : Option Envelope → List Envelope → List Envelope
emit none outgoing = outgoing
emit (some e) outgoing = outgoing ++ e ∷ []

abbrev pub take : {Q : Type 0} → ℕ → Q → MemoryHub Q → MemoryHub Q
take i q h = record h { inboxes = write h.inboxes i q }

module _ (k : Channels) (o : Oneshots) (nodes : ℕ → Node) where
  pub data Step (s : Network k.Inbox o.Cell) : Network k.Inbox o.Cell → Type 0 where
    -- A receiving task that the mode has makes its subscription.
    listens :
        (n : ℕ) (role : Role) (sub : Subscription) (i : ℕ) (h : MemoryHub k.Inbox)
        → subscription_of role (nodes n).mode (nodes n).node_id ≡ some sub
        → subscribe k sub s.hub ≡ some (ok i, h)
        → Step s (record s { hub = h; owner = listen i (record { node = n; role = role }) s.owner })
    -- A request takes a correlation ID that no request had, and is about to publish its envelope.
    asks :
        (n : ℕ) (target method : String) (payload : Bytes) (id : String)
        → may_request (nodes n).mode ≡ ok tt
        → get s.records.sent id ≡ none
        → Step s (record s {
          outgoing = s.outgoing ++ request_envelope (nodes n).node_id target method payload id ∷ [];
          records = ask o n target method payload id s.records;
        })
    -- A publish takes the senders of its topic.
    begins :
        (before after : List Envelope) (e : Envelope)
        → s.outgoing ≡ before ++ e ∷ after
        → Step s (record s {
          outgoing = before ++ after;
          sending = (targets s.hub.subscriptions e.address.name, e) ∷ s.sending;
        })
    -- One of the publishes that have begun sends to its next inbox. A full inbox holds it up.
    sends :
        (before after : List (List ℕ × Envelope)) (i : ℕ) (rest : List ℕ) (e : Envelope)
        (q : k.Inbox)
        → s.sending ≡ before ++ (i ∷ rest, e) ∷ after
        → k.offer (s.hub.inboxes.cell i) e ≡ accepted q
        → Step s (record s { hub = take i q s.hub; sending = before ++ (rest, e) ∷ after })
    -- It passes over a closed inbox.
    skips :
        (before after : List (List ℕ × Envelope)) (i : ℕ) (rest : List ℕ) (e : Envelope)
        → s.sending ≡ before ++ (i ∷ rest, e) ∷ after
        → k.offer (s.hub.inboxes.cell i) e ≡ closed
        → Step s (record s { sending = before ++ (rest, e) ∷ after })
    -- A server task takes a request, and spawns the publish of the response if there is one.
    serves :
        (i n : ℕ) (e : Envelope) (q : k.Inbox)
        → s.owner i ≡ some (record { node = n; role = server_task })
        → k.recv (s.hub.inboxes.cell i) ≡ some (e, q)
        → Step s (record s {
          hub = take i q s.hub;
          outgoing = emit (handle_request (nodes n).handlers e) s.outgoing;
        })
    -- A client task takes a response.
    completes :
        (i n : ℕ) (e : Envelope) (q : k.Inbox)
        → s.owner i ≡ some (record { node = n; role = client_task })
        → k.recv (s.hub.inboxes.cell i) ≡ some (e, q)
        → Step s (record s { hub = take i q s.hub; records = complete o n e s.records })
    -- A broker shuts down, and with it the bus.
    closes :
        (r : Result (Unit {0})) (h : MemoryHub k.Inbox)
        → close k s.hub ≡ some (r, h)
        → Step s (record s { hub = h })

  -- No task has started.
  abbrev pub init : Inboxes k.Inbox → (ℕ → o.Cell) → Network k.Inbox o.Cell
  init t cells = record {
    hub = new k t;
    owner = λ i. none;
    outgoing = [];
    sending = [];
    records = record { pending = λ n. no_requests o cells; sent = [] };
  }

  pub data Reach (t : Inboxes k.Inbox) (cells : ℕ → o.Cell) : Network k.Inbox o.Cell → Type 0 where
    start : Reach t cells (init t cells)
    later : {s s' : Network k.Inbox o.Cell} → Reach t cells s → Step s s' → Reach t cells s'
