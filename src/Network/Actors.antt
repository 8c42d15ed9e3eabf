-- ===== src/Network/Actors.antt =====
-- Brokers of src/broker.rs over transports whose actor shares a map of local subscribers with
-- `subscribe`, as all but the one in memory do (src/transport/redis, mqtt, amqp and dds): what the
-- transports promise each other, and brokers that run over them, with all tasks interleaved.
pub mod Handing
pub mod Tended
pub mod Simulation
pub mod Redis
pub mod Mqtt
pub mod Amqp
pub mod Dds
pub mod Publishing
pub mod States
use mom_rpc.Error.{done, Attempt, Result, ok}
use mom_rpc.Calls.{Call, refused, dropped, answered, Ends}
use mom_rpc.Network.{subscription_of, Node, Role, emit, server_task, client_task}
use mom_rpc.Base.{if◌then◌else◌, ◌==◌, ◌++◌, ◌∷◌, [], List, some, none, Option, ◌⊎◌, ◌≡◌, String, ℕ}
use mom_rpc.Network.Records.{ask, complete, set_at, Ledger, Sent}
use mom_rpc.Broker.Request.{request_envelope, may_request}
use mom_rpc.Base.HashMap.{HashMap, insert, get}
use mom_rpc.Domain.{Bytes, Subscription, Envelope}
use mom_rpc.Broker.Server.{handle_request}
use mathlib.Core.List.{Memᴰ}
use mom_rpc.Broker.Pending.{no_requests}
use mom_rpc.Network.Actors.Handing.{Handed}
use mom_rpc.FanOut.Reachable.{Inv}
use mom_rpc.FanOut.{Local, add_subscriber}
use mom_rpc.Oneshot.{Oneshots}
use mom_rpc.Channels.{Inboxes, write, Channels}

-- An actor, by what it selects, and what it has written to the wire.
pub record ActorTransport (k : Channels) : Type 1 where
  pub State : Type 0
  pub Input : Type 0
  pub Payload : Type 0
  pub local : State → Local k.Inbox
  pub with_local : Local k.Inbox → State → State
  pub step : Input → State → State
  -- The message that is taken from the wire, with its topic, and the envelope that is to be published.
  pub takes : Input → Option (String × Payload)
  pub sends : Input → Option Envelope
  pub encode : Envelope → Attempt Payload
  pub Written : State → String → Payload → Type 0
  -- What the actor answers to the publish of an envelope; and `publish` of the transport, by the node ID
  -- and by what becomes of its command.
  pub answer : Envelope → State → Result (Unit {0})
  pub publish : String → Call (Result (Unit {0})) → Result (Unit {0})
  pub local-with_local : (l : Local k.Inbox) (a : State) → local (with_local l a) ≡ l
  pub Written-with_local :
      (l : Local k.Inbox) (a : State) (topic : String) (p : Payload)
      → Written (with_local l a) topic p
      → Written a topic p
  -- A step leaves the map as it is, or hands out an envelope on the topic of a message, the only one
  -- that the message may encode.
  pub local-step :
      (i : Input) (a : State)
      → Inv (local a)
      → Handed k encode (takes i) (local a) (local (step i a))
  -- A step writes at most an encoding of the envelope that is to be published, to its address.
  pub Written-step :
      (i : Input) (a : State) (topic : String) (p : Payload)
      → Written (step i a) topic p
      → Written a topic p
        ⊎ ((e : Envelope) × (sends i ≡ some e) × (topic ≡ e.address.name) × (encode e ≡ done p))
  -- A publish that fails does so with the error Transport.
  pub answer-Ends :
      (id : String) (e : Envelope) (a : State) → Ends (publish id (answered (answer e a)))
  pub refused-Ends : (id text : String) → Ends (publish id (refused text))
  pub dropped-Ends : (id text : String) → Ends (publish id (dropped text))

-- What is assumed of a call that publishes: it writes no message but its own.
abbrev pub Publishes :
    {S P R : Type 0} → (String → P → S → R × S) → (S → String → P → Type 0) → Type 0
Publishes {S} {P} publish Written =
    (topic : String) (payload : P) (s : S) (t : String) (p : P)
    → Written (publish topic payload s).1 t p
    → Written s t p ⊎ ((t ≡ topic) × (p ≡ payload))

-- And of a call that does not: it writes none.
abbrev pub Quiet : {S P R : Type 0} → (S → R × S) → (S → String → P → Type 0) → Type 0
Quiet {S} {P} call Written = (s : S) (t : String) (p : P) → Written (call s).1 t p → Written s t p

-- The actor of a broker, and the task that receives from an inbox of its map.
pub record Member (S : Type 0) : Type 0 where
  pub actor : S
  pub owner : ℕ → Option Role

-- The brokers with their actors, the envelopes that they had for publishing, and what each knows of
-- its requests. An envelope may be published again, and an actor that was told to stop may go on.
-- `calls` has what became of the commands by which requests were published, once it is known, by their
-- correlation IDs.
pub record Fleet (S C : Type 0) : Type 0 where
  pub members : ℕ → Member S
  pub outgoing : List Envelope
  pub calls : HashMap (Call (Result (Unit {0})))
  pub records : Ledger C

-- The envelope of a request that was made.
abbrev pub envelope_of : (ℕ → Node) → String → Sent → Envelope
envelope_of nodes id q = request_envelope (nodes q.caller).node_id q.target q.method q.payload id

module _ (k : Channels) (t : ActorTransport k) where
  abbrev pub inboxes_of : Member t.State → Inboxes k.Inbox
  inboxes_of m = (t.local m.actor).inboxes

  -- A receiving task makes its subscription.
  abbrev pub listen : Role → String → Member t.State → Member t.State
  listen role topic m =
      let r = add_subscriber k topic (t.local m.actor) in
      record {
        actor = t.with_local r.1 m.actor;
        owner = λ i. if r.0 == i then some role else m.owner i;
      }

  abbrev pub take : ℕ → k.Inbox → Member t.State → Member t.State
  take i q m = record m {
    actor = t.with_local (record (t.local m.actor) { inboxes = write (inboxes_of m) i q }) m.actor;
  }

  abbrev pub select : t.Input → Member t.State → Member t.State
  select i m = record m { actor = t.step i m.actor }

  module _ (o : Oneshots) (nodes : ℕ → Node) where
    pub data Step (s : Fleet t.State o.Cell) : Fleet t.State o.Cell → Type 0 where
      -- A receiving task that the mode has makes its subscription.
      listens :
          (n : ℕ) (role : Role) (sub : Subscription)
          → subscription_of role (nodes n).mode (nodes n).node_id ≡ some sub
          → Step s (record s { members = set_at n (listen role sub.name (s.members n)) s.members })
      -- A request takes a correlation ID that no request had, registers its sender, and calls `publish`
      -- with its envelope.
      asks :
          (n : ℕ) (target method : String) (payload : Bytes) (id : String)
          → may_request (nodes n).mode ≡ ok tt
          → get s.records.sent id ≡ none
          → Step s (record s {
            outgoing =
                s.outgoing ++ request_envelope (nodes n).node_id target method payload id ∷ [];
            records = ask o n target method payload id s.records;
          })
      -- An actor goes one round. What it is to publish is an envelope that a broker had for publishing,
      -- and what it takes from the wire was written to it.
      selects :
          (n : ℕ) (i : t.Input)
          → ((e : Envelope) → t.sends i ≡ some e → Memᴰ e s.outgoing)
          → ((topic : String) (p : t.Payload)
              → t.takes i ≡ some (topic, p)
              → (m : ℕ) × t.Written (s.members m).actor topic p)
          → Step s (record s { members = set_at n (select i (s.members n)) s.members })
      -- The actor of a broker goes a round in which it publishes the envelope of a request that awaits
      -- this, and answers it.
      answers :
          (i : t.Input) (id : String) (q : Sent)
          → get s.records.sent id ≡ some q
          → get s.calls id ≡ none
          → t.sends i ≡ some (envelope_of nodes id q)
          → t.takes i ≡ none
          → Memᴰ (envelope_of nodes id q) s.outgoing
          → Step s (record s {
            members = set_at q.caller (select i (s.members q.caller)) s.members;
            calls =
                insert s.calls id
                  (answered (t.answer (envelope_of nodes id q) (s.members q.caller).actor));
          })
      -- The actor has stopped, so that its channel takes no command.
      refuses :
          (id : String) (q : Sent) (text : String)
          → get s.records.sent id ≡ some q
          → get s.calls id ≡ none
          → Step s (record s { calls = insert s.calls id (refused text) })
      -- The actor stops, and drops the responder of a request's publish.
      drops :
          (id : String) (q : Sent) (text : String)
          → get s.records.sent id ≡ some q
          → get s.calls id ≡ none
          → Step s (record s { calls = insert s.calls id (dropped text) })
      -- A server task takes a request, and spawns the publish of the response if there is one.
      serves :
          (n i : ℕ) (e : Envelope) (q : k.Inbox)
          → (s.members n).owner i ≡ some server_task
          → k.recv ((inboxes_of (s.members n)).cell i) ≡ some (e, q)
          → Step s (record s {
            members = set_at n (take i q (s.members n)) s.members;
            outgoing = emit (handle_request (nodes n).handlers e) s.outgoing;
          })
      -- A client task takes a response.
      completes :
          (n i : ℕ) (e : Envelope) (q : k.Inbox)
          → (s.members n).owner i ≡ some client_task
          → k.recv ((inboxes_of (s.members n)).cell i) ≡ some (e, q)
          → Step s (record s {
            members = set_at n (take i q (s.members n)) s.members;
            records = complete o n e s.records;
          })

    -- No task has started.
    abbrev pub init : (ℕ → t.State) → (ℕ → o.Cell) → Fleet t.State o.Cell
    init actors cells = record {
      members = λ n. record { actor = actors n; owner = λ i. none };
      outgoing = [];
      calls = [];
      records = record { pending = λ n. no_requests o cells; sent = [] };
    }

    pub data Reach (cells : ℕ → o.Cell) : Fleet t.State o.Cell → Type 0 where
      start :
          (actors : ℕ → t.State)
          → ((n : ℕ) → (t.local (actors n)).subscribers ≡ [])
          → ((n : ℕ) (topic : String) (p : t.Payload) → ¬ t.Written (actors n) topic p)
          → Reach cells (init actors cells)
      later : {s s' : Fleet t.State o.Cell} → Reach cells s → Step s s' → Reach cells s'
