-- ===== src/Dds.antt =====
-- src/transport/dds/dust_dds.rs: the transport over DDS, over the crate dust_dds and the encoding of
-- envelopes as parameters. The calls of a participant are those that complete; that a wait ends at
-- its deadline is one of the ways to complete.
pub mod Uri
pub mod Participant
pub mod Steps
pub mod Actor
pub mod Reader
pub mod Transport
pub mod Drains
pub mod Readers
pub mod Copies
pub mod Unmatched
