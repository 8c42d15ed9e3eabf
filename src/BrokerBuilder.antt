-- ===== src/BrokerBuilder.antt =====
-- src/broker_builder.rs: the builder of a broker. Of the transport it reads the shared base alone.
pub mod Defaults
use mom_rpc.Base.{unwrap_or, is_some, if◌then◌else◌, some, none, Option, ◌||◌, String, ℕ}
use mom_rpc.Domain.{Duration, TransportMode, Transport, transport_id, mode}
use mom_rpc.BrokerMode.{BrokerMode}
use mom_rpc.Floats.{Floats}
use mom_rpc.Retry.{RetryConfig, from_millis, from_secs}

-- `W` is the state of the transports, `F` the type of the multiplier.
pub record RpcBrokerBuilder (W F : Type 0) : Type 0 where
  pub transport : Transport W
  pub node_id : Option String
  pub retry_max_attempts : Option ℕ
  pub retry_multiplier : Option F
  pub retry_initial_delay : Option Duration
  pub retry_max_delay : Option Duration
  pub request_total_timeout : Option Duration

-- What `build` hands to RpcBroker::new.
pub record BrokerParams (W F : Type 0) : Type 0 where
  pub transport : Transport W
  pub node_id : String
  pub mode : BrokerMode
  pub retry_config : Option (RetryConfig F)
  pub request_total_timeout : Duration

abbrev pub broker_mode : TransportMode → BrokerMode
broker_mode TransportMode.client = BrokerMode.client
broker_mode TransportMode.server = BrokerMode.server
broker_mode TransportMode.full_duplex = BrokerMode.full_duplex

module _ {W F : Type 0} where
  unfoldable pub new : Transport W → RpcBrokerBuilder W F
  new transport = record {
    transport = transport;
    node_id = none;
    retry_max_attempts = none;
    retry_multiplier = none;
    retry_initial_delay = none;
    retry_max_delay = none;
    request_total_timeout = none;
  }

  unfoldable pub node_id : RpcBrokerBuilder W F → String → RpcBrokerBuilder W F
  node_id b id = record b { node_id = some id }

  unfoldable pub retry_max_attempts : RpcBrokerBuilder W F → ℕ → RpcBrokerBuilder W F
  retry_max_attempts b attempts = record b { retry_max_attempts = some attempts }

  unfoldable pub retry_multiplier : RpcBrokerBuilder W F → F → RpcBrokerBuilder W F
  retry_multiplier b multiplier = record b { retry_multiplier = some multiplier }

  unfoldable pub retry_initial_delay : RpcBrokerBuilder W F → Duration → RpcBrokerBuilder W F
  retry_initial_delay b delay = record b { retry_initial_delay = some delay }

  unfoldable pub retry_max_delay : RpcBrokerBuilder W F → Duration → RpcBrokerBuilder W F
  retry_max_delay b delay = record b { retry_max_delay = some delay }

  unfoldable pub request_total_timeout : RpcBrokerBuilder W F → Duration → RpcBrokerBuilder W F
  request_total_timeout b timeout = record b { request_total_timeout = some timeout }

-- A retry configuration only if one of its parameters was set.
unfoldable pub retry_config_of :
    {W : Type 0} (f : Floats) → RpcBrokerBuilder W f.F64 → Option (RetryConfig f.F64)
retry_config_of f b =
    if is_some b.retry_max_attempts
      || is_some b.retry_multiplier
      || is_some b.retry_initial_delay
      || is_some b.retry_max_delay
    then some (record {
      max_attempts = unwrap_or b.retry_max_attempts 3;
      multiplier = unwrap_or b.retry_multiplier (f.literal 2 1);
      initial_delay = unwrap_or b.retry_initial_delay (from_millis 100);
      max_delay = unwrap_or b.retry_max_delay (from_secs 5);
    })
    else none

unfoldable pub build : {W : Type 0} (f : Floats) → RpcBrokerBuilder W f.F64 → BrokerParams W f.F64
unfolding retry_config_of
build f b = record {
  transport = b.transport;
  node_id = unwrap_or b.node_id (transport_id b.transport);
  mode = broker_mode (mode b.transport);
  retry_config = retry_config_of f b;
  request_total_timeout = unwrap_or b.request_total_timeout (from_secs 30);
}
