-- ===== src/Amqp.antt =====
-- src/transport/amqp/lapin.rs: the transport over AMQP, over the crate lapin and the encoding of
-- envelopes as parameters. The calls of a channel are those that complete.
pub mod Actor
pub mod Consumer
pub mod Connect
pub mod Transport
pub mod Replies
pub mod Consumers
pub mod Deliveries
pub mod Tags
