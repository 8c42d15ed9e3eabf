-- ===== src/Broker/Lifecycle.antt =====
-- Construction, handler registration, run and shutdown of src/broker.rs.
pub mod Modes
pub mod Queues
pub mod Shutdown
use mom_rpc.Base.HashMap.{insert}
use mom_rpc.Base.{
  if◌then◌else◌, map, ◌∷◌, [], List, some, none, Option, not, false, true, Bool, ◌<>◌, String, ℕ,
}
use mathlib.Core.Option
use mom_rpc.Error.{Result, ok, err, invalid_mode}
use mom_rpc.Domain.{Envelope, Subscription, Transport}
use mom_rpc.BrokerMode.{BrokerMode}
use mom_rpc.BrokerBuilder.{BrokerParams}
use mom_rpc.Oneshot.{Oneshots}
use mom_rpc.Broker.Pending.{Pending, client_task, no_requests}
use mom_rpc.Broker.Server.{HandlerFn, HandlerRegistry, on_request}

-- format!("responses/{node_id}") and format!("requests/{node_id}")
abbrev pub response_subscription : String → Subscription
response_subscription node_id = record { name = "responses/" <> node_id }

abbrev pub request_subscription : String → Subscription
request_subscription node_id = record { name = "requests/" <> node_id }

-- RpcBroker: what its clones share. A spawned task is given by the subscription it makes. Of the
-- shutdown channel, `shutdown_tx` and `shutdown_rx` say whether the two ends are still there to be
-- taken, `signalled` whether the signal was sent.
pub record RpcBroker (C W F : Type 0) : Type 0 where
  pub inner : BrokerParams W F
  pub pending : Pending C
  pub rx_task : Option Subscription
  pub handlers : HandlerRegistry
  pub server_rx_task : Option Subscription
  pub shutdown_tx : Bool
  pub shutdown_rx : Bool
  pub signalled : Bool

abbrev pub client_side : BrokerMode → String → Option Subscription
client_side BrokerMode.client node_id = some (response_subscription node_id)
client_side BrokerMode.server node_id = none
client_side BrokerMode.full_duplex node_id = some (response_subscription node_id)

abbrev pub server_side : BrokerMode → String → Option Subscription
server_side BrokerMode.client node_id = none
server_side BrokerMode.server node_id = some (request_subscription node_id)
server_side BrokerMode.full_duplex node_id = some (request_subscription node_id)

-- The match on the mode at the head of the operations of a server.
abbrev pub may_serve : BrokerMode → String → Result (Unit {0})
may_serve BrokerMode.server text = ok tt
may_serve BrokerMode.full_duplex text = ok tt
may_serve BrokerMode.client text = err (invalid_mode text)

-- What the caller of `run` has: its result, or a task that awaits the shutdown signal.
pub data Running : Type 0 where
  finished : Result (Unit {0}) → Running
  awaits_shutdown : Running

-- if let Some(rx) = shutdown_rx { rx.await }, by whether the receiver was there and whether the
-- signal is in it.
abbrev pub await_shutdown : Bool → Bool → Running
await_shutdown true false = awaits_shutdown
await_shutdown true true = finished (ok tt)
await_shutdown false signalled = finished (ok tt)

module _ (k : Oneshots) where
  -- After the subscription: an error ends the task, or the loop runs over what the inbox gives.
  abbrev pub receive_responses : (ℕ → List Envelope) → Pending k.Cell → Result ℕ → Pending k.Cell
  receive_responses inbox p (err e) = p
  receive_responses inbox p (ok handle) = client_task k (inbox handle) p

  -- The client task; `inbox` gives the envelopes that a handle's inbox delivers.
  unfoldable pub start_client_task :
      {W : Type 0}
      → Transport W
      → String
      → (ℕ → List Envelope)
      → Pending k.Cell
      → W
      → Option (Pending k.Cell × W)
  start_client_task t node_id inbox p w =
      Option.map (λ r. (receive_responses inbox p r.0, r.1))
        (t.subscribe (response_subscription node_id) w)

module _ (k : Oneshots) {W F : Type 0} where
  unfoldable pub new : (ℕ → k.Cell) → BrokerParams W F → RpcBroker k.Cell W F
  new cells inner = record {
    inner = inner;
    pending = no_requests k cells;
    rx_task = client_side inner.mode inner.node_id;
    handlers = [];
    server_rx_task = server_side inner.mode inner.node_id;
    shutdown_tx = true;
    shutdown_rx = true;
    signalled = false;
  }

  unfoldable pub register_rpc_handler :
      String → HandlerFn → RpcBroker k.Cell W F → Result (Unit {0}) × RpcBroker k.Cell W F
  register_rpc_handler method handler b =
      elim (may_serve b.inner.mode "register_rpc_handler() not allowed in Client mode") [
        | err e ↦ (err e, b)
        | ok _ ↦ (ok tt, record b { handlers = insert b.handlers method handler })
      ]

  -- The task that `spawn` returns only keeps the broker alive.
  unfoldable pub spawn : RpcBroker k.Cell W F → Result (Unit {0})
  spawn b = may_serve b.inner.mode "spawn() not allowed in Client mode"

  unfoldable pub run : RpcBroker k.Cell W F → Running × RpcBroker k.Cell W F
  run b = elim (may_serve b.inner.mode "run() not allowed in Client mode") [
    | err e ↦ (finished (err e), b)
    | ok _ ↦ (await_shutdown b.shutdown_rx b.signalled, record b { shutdown_rx = false })
  ]

  -- A task that awaits the signal, polled again.
  unfoldable pub resume : Running → RpcBroker k.Cell W F → Running
  resume (finished r) b = finished r
  resume awaits_shutdown b = await_shutdown true b.signalled

  unfoldable pub signal : RpcBroker k.Cell W F → RpcBroker k.Cell W F
  signal b = if b.shutdown_tx then record b { shutdown_tx = false; signalled = true } else b

  -- `none`: the transport's `close` stays suspended. Its errors are ignored.
  unfoldable pub shutdown : RpcBroker k.Cell W F → W → Option (RpcBroker k.Cell W F × W)
  unfolding signal
  shutdown b w = Option.map (λ r. (signal b, r.1)) (b.inner.transport.close w)

module _ {W : Type 0} where
  -- The loop of the server task, each spawned task run before the next request.
  unfoldable pub serve : Transport W → HandlerRegistry → List Envelope → W → Option W
  unfolding on_request
  serve t handlers [] w = some w
  serve t handlers (env ∷ envs) w =
      Option.bind (on_request t handlers env w) (serve t handlers envs)

  abbrev pub receive_requests :
      Transport W → HandlerRegistry → (ℕ → List Envelope) → Result ℕ × W → Option W
  receive_requests t handlers inbox (err e, w) = some w
  receive_requests t handlers inbox (ok handle, w) = serve t handlers (inbox handle) w

  unfoldable pub start_server_task :
      Transport W → String → HandlerRegistry → (ℕ → List Envelope) → W → Option W
  unfolding serve
  start_server_task t node_id handlers inbox w =
      Option.bind (t.subscribe (request_subscription node_id) w) (receive_requests t handlers inbox)
