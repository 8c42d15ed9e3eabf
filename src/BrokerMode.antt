-- ===== src/BrokerMode.antt =====
-- src/broker_mode.rs
pub data BrokerMode : Type 0 where
  client server full_duplex : BrokerMode
