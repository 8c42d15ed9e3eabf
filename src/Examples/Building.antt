-- ===== src/Examples/Building.antt =====
-- Runs of the transport builder.
use mom_rpc.Base.{some, none, false, true, refl, ◌≡◌, String}
use mom_rpc.Error.{ok, err, is_ok, transport}
use mom_rpc.Domain.{TransportConfig, TransportMode}
use mom_rpc.TransportBuilder.{TransportBuilder, Factories}

abbrev named : TransportBuilder
named = record {
  uri = some "memory://";
  node_id = some "alpha";
  request_queue = none;
  response_queue = none;
  transport_type = none;
  keep_alive_secs = none;
  called_client_mode = false;
  called_server_mode = false;
  called_full_duplex = false;
}

abbrev calls : TransportBuilder
calls = record named { called_client_mode = true; transport_type = some "memory" }

abbrev config : TransportConfig
config = record {
  uri = "memory://";
  node_id = "alpha";
  mode = TransportMode.client;
  request_queue = none;
  response_queue = some "responses/alpha";
  transport_type = some "memory";
  keep_alive_secs = none;
}

-- Only the memory transport is compiled in; a transport is the name of its node.
abbrev only_memory : Factories String
only_memory = record {
  create_rumqttc_transport = λ c. err (transport "disabled");
  create_lapin_transport = λ c. err (transport "disabled");
  create_dust_dds_transport = λ c. err (transport "disabled");
  create_redis_transport = λ c. err (transport "disabled");
  create_memory_transport = λ c. ok c.node_id;
}

always_memory : (c : TransportConfig) → is_ok (only_memory.create_memory_transport c) ≡ true
always_memory c = refl
