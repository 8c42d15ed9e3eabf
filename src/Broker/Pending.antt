-- ===== src/Broker/Pending.antt =====
-- The pending requests of src/broker.rs and the client task that completes them.
pub mod Answers
pub mod Leaks
use mom_rpc.Base.{if◌then◌else◌, ◌==◌, ◌∷◌, [], List, some, none, Option, String, suc, ℕ}
use mom_rpc.Base.HashMap.{HashMap, get, insert, remove, empty}
use mom_rpc.Domain.{Bytes, Envelope}
use mom_rpc.Oneshot.{Oneshots}

-- PendingRequests: correlation IDs to oneshot senders, and the oneshot channels made so far. A sender
-- is the number of its channel.
pub record Pending (C : Type 0) : Type 0 where
  pub senders : HashMap ℕ
  pub cells : ℕ → C
  pub next : ℕ

-- What other tasks do to the map while a request waits.
pub data Event : Type 0 where
  -- The client task takes an envelope from its inbox.
  arrives : Envelope → Event
  -- Another request puts its correlation ID into the map.
  registers : String → Event

module _ (k : Oneshots) where
  abbrev pub put : (ℕ → k.Cell) → ℕ → k.Cell → ℕ → k.Cell
  put cells i c j = if i == j then c else cells j

  -- The cells after the sender that a key had, if any, goes away.
  abbrev pub displaced : Option ℕ → (ℕ → k.Cell) → ℕ → k.Cell
  displaced none cells = cells
  displaced (some i) cells = put cells i (k.drop_sender (cells i))

  -- let (tx, rx) = oneshot::channel(); pending.insert(id, tx): `next` is the channel's number.
  unfoldable pub register : String → Pending k.Cell → Pending k.Cell
  register id p = record {
    senders = insert p.senders id p.next;
    cells = put (displaced (get p.senders id) p.cells) p.next k.channel;
    next = suc p.next;
  }

  abbrev pub complete : Option ℕ → Bytes → (ℕ → k.Cell) → ℕ → k.Cell
  complete none payload cells = cells
  complete (some tx) payload cells = put cells tx (k.send (cells tx) payload)

  abbrev pub respond : Option String → Bytes → Pending k.Cell → Pending k.Cell
  respond none payload p = p
  respond (some id) payload p = record p {
    senders = remove p.senders id;
    cells = complete (get p.senders id) payload p.cells;
  }

  -- The body of the client task's loop.
  unfoldable pub on_response : Envelope → Pending k.Cell → Pending k.Cell
  on_response env p = respond env.correlation_id env.payload p

  unfoldable pub on_event : Event → Pending k.Cell → Pending k.Cell
  unfolding on_response register
  on_event (arrives env) p = on_response env p
  on_event (registers id) p = register id p

  unfoldable pub meanwhile : List Event → Pending k.Cell → Pending k.Cell
  unfolding on_event
  meanwhile [] p = p
  meanwhile (e ∷ es) p = meanwhile es (on_event e p)

  -- while let Some(envelope) = handle.inbox.recv().await
  unfoldable pub client_task : List Envelope → Pending k.Cell → Pending k.Cell
  unfolding on_response
  client_task [] p = p
  client_task (env ∷ envs) p = client_task envs (on_response env p)

  unfoldable pub no_requests : (ℕ → k.Cell) → Pending k.Cell
  no_requests cells = record { senders = empty; cells = cells; next = 0 }
