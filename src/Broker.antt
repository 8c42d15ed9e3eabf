-- ===== src/Broker.antt =====
-- src/broker.rs: the RPC broker. `Pending` is the map of requests that wait for a response and the
-- task that completes them, `Request` the calls that send requests, `Server` the task that answers
-- them, and `Lifecycle` the broker itself: its construction, its modes, handlers and shutdown.
pub mod Pending
pub mod Request
pub mod Server
pub mod Lifecycle
