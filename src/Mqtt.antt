-- ===== src/Mqtt.antt =====
-- src/transport/mqtt/rumqttc.rs: the actor that owns the MQTT client, over the crate rumqttc and the
-- encoding of envelopes as parameters. The calls of the client are those that complete. A responder
-- is a number, and what it was sent stands in a log.
pub mod Actor
pub mod Incoming
pub mod Commands
pub mod Loop
pub mod Connect
pub mod Acks
pub mod FanOut
pub mod Subscribe
