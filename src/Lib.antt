-- ===== src/Lib.antt =====
-- mom-rpc: RPC over message brokers. A node has a transport, which publishes envelopes to addresses
-- and delivers what is subscribed to, and a broker over it, which gives requests correlation IDs,
-- waits for the responses that carry them, retries, and answers requests by registered handlers.
--
-- The files, and the code that they model:
--   Base                names passed on, HashMap, and what URIs are read with: strip_prefix, split_once,
--                       and parse to u16, of the standard library
--   Error               src/error.rs: RpcError, the crate's Result, and the `?` operator
--   Domain              src/domain/transport.rs: the configuration, addresses, envelopes, and the
--                       trait Transport, as a record of functions on a state that the transports share
--   TransportBuilder    src/transport_builder.rs: TransportBuilder. `build` is `configure`, its
--                       validation, then `dispatch`, the choice of a factory
--   Floats, Retry       src/retry.rs: RetryConfig, retry_with_backoff, apply_jitter
--   BrokerMode          src/broker_mode.rs
--   BrokerBuilder       src/broker_builder.rs: RpcBrokerBuilder, and what its `build` hands to the broker
--   Channels            tokio's bounded channels as an interface; the topic maps of the transports
--   Memory              src/transport/memory.rs: MemoryHub, MemoryTransport
--   Oneshot             tokio's oneshot channels as an interface
--   Correlation         src/correlation.rs: CorrelationId
--   Broker.Pending      src/broker.rs: PendingRequests and the client task that completes them
--   Broker.Request      src/broker.rs: request_to, request_to_with_timeout, and the inner attempt
--   Broker.Server       src/broker.rs: the handlers and the server task
--   Broker.Lifecycle    src/broker.rs: RpcBroker: new, register_rpc_handler, spawn, run, shutdown
--   FanOut              the map of local subscribers of src/transport/mqtt/rumqttc.rs,
--                       redis/redis.rs and dds/dust_dds.rs, and handle_incoming, which hands out
--   Calls               publish, subscribe and close of the transports that have an actor, by what
--                       becomes of the command that they send
--   Mqtt                src/transport/mqtt/rumqttc.rs: the actor MqttActor, subscribe of the
--                       transport, and create_transport
--   Redis               src/transport/redis/redis.rs: the actor RedisActor, create_transport
--   Amqp                src/transport/amqp/lapin.rs: the actor Actor, the tasks that consume queues,
--                       create_transport
--   Dds                 src/transport/dds/dust_dds.rs: the actor DdsActor, the tasks that poll readers,
--                       parse_domain_id, create_transport
--   Gateways            src/transport/mod.rs, mqtt/mod.rs, redis/mod.rs, amqp/mod.rs, dds/mod.rs: the
--                       factories that TransportBuilder chooses among
--   Network             brokers of src/broker.rs on one bus of src/transport/memory.rs, with their tasks
--                       interleaved in any order: steps, reachable states, and the abstract service;
--                       Network.Lossy: over any transport that delivers only what was published;
--                       Network.Actors: over the actors of the transports over Redis, MQTT, AMQP and DDS
--   Exchange            a request and its response, through the client, the bus and the server
--   Examples            concrete inputs
--
-- An async call is a function from a state to a result and a state, or to `none` if that state leaves
-- it suspended. While a request waits, the client task and other requests change the pending map: an
-- environment gives the sequence of these events for each attempt, and the correlation IDs, which the
-- source draws as UUIDs. Theorems that need an ID to be its request's own say so. A sender, an inbox or
-- a oneshot channel is the number of its cell in a table, so that a map and a task can share it.
--
-- Other crates are parameters: serde_json as functions that may fail; the client of rumqttc as the
-- record Client, the connections of redis as Connections, the channel of lapin as Channel, the
-- participant of dust_dds as Participant, all with calls that complete; tokio's channels as the
-- interfaces Channels and Oneshots, with bounded queues and cells as instances, the floating-point
-- operations and the conversions to Duration as Floats, with exact signed fractions as an instance,
-- in which the theorems on delays are stated: its conversion to a Duration fails, which is a panic,
-- for a negative number and from 2^64 seconds on. A Duration is a number of nanoseconds. The retry
-- counter is a u32 and wraps; the theorems assume a max_attempts at which it does not.
--
-- The retry loop runs on fuel, one unit for each call of the operation; max_attempts + 1 units are
-- enough. The drain of a DDS reader runs on fuel, one unit for each call of take; one more than the
-- reader has samples is enough. All other loops recurse on their data.
--
-- Not modelled: logging, Arc and lock handling, the read lock that a publish on the in-memory bus
-- holds while it awaits, the one that an AMQP consumer holds, and tasks that run within one call of
-- another (outside Network, spawned handlers run one after the other). In Network handlers are
-- registered before the start, and a subscribe or a close need not wait for the publishes that hold
-- the read lock, so that more orders are possible there than in the source. In Network.Lossy and
-- Network.Actors an envelope may be published more than once, even if its command was refused, and
-- an actor that was told to stop may go on; a message is handed out to the local subscribers of its
-- topic at once, and nothing comes between the two accesses of handle_incoming to the map. In
-- Network.Lossy any broker may answer requests, and no envelope is lost for good, so that only what
-- holds in every state is shown over it. The time that the transports sleep before they try again,
-- and the lists of their tasks, are left out. The log macros, the examples and the tests are left
-- out.
mod Base
pub mod Error
pub mod Domain
pub mod TransportBuilder
pub mod Floats
pub mod Retry
pub mod BrokerMode
pub mod BrokerBuilder
pub mod Channels
pub mod Memory
pub mod Oneshot
pub mod Correlation
pub mod Broker
pub mod FanOut
pub mod Mqtt
pub mod Calls
pub mod Redis
pub mod Amqp
pub mod Dds
pub mod Exchange
pub mod Network
pub mod Gateways
mod Examples
