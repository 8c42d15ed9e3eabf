-- ===== src/Network/Lossy.antt =====
-- Brokers of src/broker.rs over a transport of which only this is asked: what a receiving task takes was
-- published on the topic of its subscription. An envelope may be taken by any number of tasks with this
-- topic, any number of times, in any order, at any time, or never. More is possible here than over the
-- transports of the crate: what is shown of every state holds of theirs, but not that a state is reached.
pub mod Emits
pub mod Authenticity
pub mod Memory
pub mod Finality
use mom_rpc.Broker.Pending.{no_requests}
use mom_rpc.Network.{client_task, emit, server_task, topic_of, Node}
use mom_rpc.Broker.Server.{handle_request}
use mom_rpc.Network.Records.{ask, complete, Ledger}
use mom_rpc.Broker.Request.{request_envelope, may_request}
use mom_rpc.Base.HashMap.{get}
use mom_rpc.Error.{ok}
use mom_rpc.Domain.{Bytes, Envelope}
use mom_rpc.Oneshot.{Oneshots}
use mom_rpc.Base.{◌++◌, ◌∷◌, [], List, none, ◌≡◌, String, ℕ}
use mathlib.Core.List.{Memᴰ}

-- What was published, and what each broker knows of its requests.
pub record Medium (C : Type 0) : Type 0 where
  pub published : List Envelope
  pub records : Ledger C

module _ (o : Oneshots) (nodes : ℕ → Node) where
  pub data Step (s : Medium o.Cell) : Medium o.Cell → Type 0 where
    -- A request takes a correlation ID that no request had, and publishes its envelope.
    posts :
        (n : ℕ) (target method : String) (payload : Bytes) (id : String)
        → may_request (nodes n).mode ≡ ok tt
        → get s.records.sent id ≡ none
        → Step s (record {
          published =
              s.published ++ request_envelope (nodes n).node_id target method payload id ∷ [];
          records = ask o n target method payload id s.records;
        })
    -- A server task, which any broker may have here, takes an envelope, and publishes the response if there is one.
    replies :
        (n : ℕ) (e : Envelope)
        → Memᴰ e s.published
        → e.address.name ≡ topic_of server_task (nodes n).node_id
        → Step s (record s { published = emit (handle_request (nodes n).handlers e) s.published })
    -- A client task takes an envelope.
    resolves :
        (n : ℕ) (e : Envelope)
        → Memᴰ e s.published
        → e.address.name ≡ topic_of client_task (nodes n).node_id
        → Step s (record s { records = complete o n e s.records })

  abbrev pub init : (ℕ → o.Cell) → Medium o.Cell
  init cells = record {
    published = [];
    records = record { pending = λ n. no_requests o cells; sent = [] };
  }

  pub data Reach (cells : ℕ → o.Cell) : Medium o.Cell → Type 0 where
    start : Reach cells (init cells)
    later : {s s' : Medium o.Cell} → Reach cells s → Step s s' → Reach cells s'
