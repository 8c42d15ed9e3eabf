-- ===== src/TransportBuilder.antt =====
-- src/transport_builder.rs: the fluent builder, its validation, and the choice of a transport.
pub mod Modes
pub mod Dispatch
use mom_rpc.Base.{
  ℕ, ◌+◌, String, ◌<>◌, Bool, true, false, ◌&&◌, ◌||◌, Option, none, some, ltb, if◌then◌else◌,
  is_some, str_eq,
}
use mom_rpc.Error.{
  RpcError, Result, ok, err, transport, missing_config, config_conflict, ◌>>=◌, ◌>>◌,
}
use mom_rpc.Domain.{TransportMode, TransportConfig}

pub record TransportBuilder : Type 0 where
  pub uri : Option String
  pub node_id : Option String
  pub request_queue : Option String
  pub response_queue : Option String
  pub transport_type : Option String
  pub keep_alive_secs : Option ℕ
  pub called_client_mode : Bool
  pub called_server_mode : Bool
  pub called_full_duplex : Bool

unfoldable pub new : TransportBuilder
new = record {
  uri = none;
  node_id = none;
  request_queue = none;
  response_queue = none;
  transport_type = none;
  keep_alive_secs = none;
  called_client_mode = false;
  called_server_mode = false;
  called_full_duplex = false;
}

unfoldable pub uri : TransportBuilder → String → TransportBuilder
uri b u = record b { uri = some u }

unfoldable pub node_id : TransportBuilder → String → TransportBuilder
node_id b id = record b { node_id = some id }

unfoldable pub request_queue : TransportBuilder → String → TransportBuilder
request_queue b queue = record b { request_queue = some queue }

unfoldable pub response_queue : TransportBuilder → String → TransportBuilder
response_queue b queue = record b { response_queue = some queue }

unfoldable pub client_mode : TransportBuilder → TransportBuilder
client_mode b = record b { called_client_mode = true }

unfoldable pub server_mode : TransportBuilder → TransportBuilder
server_mode b = record b { called_server_mode = true }

unfoldable pub full_duplex : TransportBuilder → TransportBuilder
full_duplex b = record b { called_full_duplex = true }

unfoldable pub transport_type : TransportBuilder → String → TransportBuilder
transport_type b flag = record b { transport_type = some flag }

unfoldable pub keep_alive_secs : TransportBuilder → ℕ → TransportBuilder
keep_alive_secs b secs = record b { keep_alive_secs = some secs }

-- format!("requests/{node_id}") and format!("responses/{node_id}")
abbrev pub requests : String → String
requests id = "requests/" <> id

abbrev pub responses : String → String
responses id = "responses/" <> id

abbrev pub ok_or : {A : Type 0} → Option A → RpcError → Result A
ok_or none e = err e
ok_or (some a) e = ok a

abbrev pub refuse : Bool → RpcError → Result (Unit {0})
refuse true e = err e
refuse false e = ok tt

abbrev pub bit : Bool → ℕ
bit true = 1
bit false = 0

unfoldable pub sugar_count : TransportBuilder → ℕ
sugar_count b = bit b.called_client_mode + bit b.called_server_mode + bit b.called_full_duplex

unfoldable pub has_explicit_queues : TransportBuilder → Bool
has_explicit_queues b = is_some b.request_queue || is_some b.response_queue

-- The queue names that a sugar method stands for.
unfoldable pub generate_queues : TransportBuilder → String → TransportBuilder
generate_queues b id =
    if b.called_client_mode
    then record b { response_queue = some (responses id) }
    else if b.called_server_mode
    then record b { request_queue = some (requests id) }
    else if b.called_full_duplex
    then record b { request_queue = some (requests id); response_queue = some (responses id) }
    else b

-- `none` is the case that the source marks as unreachable.
abbrev pub infer_mode : Option String → Option String → Option TransportMode
infer_mode (some _) (some _) = some TransportMode.full_duplex
infer_mode (some _) none = some TransportMode.server
infer_mode none (some _) = some TransportMode.client
infer_mode none none = none

-- The validation in `build` and the configuration that it arrives at.
unfoldable pub configure : TransportBuilder → Result TransportConfig
unfolding sugar_count has_explicit_queues generate_queues
configure b = do
  u ← ok_or b.uri (missing_config "uri")
  id ← ok_or b.node_id (missing_config "node_id")
  refuse (ltb 1 (sugar_count b)) (
      config_conflict
        "Cannot call multiple mode sugar methods (client_mode, server_mode, full_duplex)")
  refuse (ltb 0 (sugar_count b) && has_explicit_queues b)
      (config_conflict "Cannot use both mode sugar methods and explicit queue configuration")
  let q = generate_queues b id
  mode ←
      ok_or (infer_mode q.request_queue q.response_queue)
        (missing_config "at least one queue (request or response) or a mode method")
  ok (record {
    uri = u;
    node_id = id;
    mode = mode;
    request_queue = q.request_queue;
    response_queue = q.response_queue;
    transport_type = q.transport_type;
    keep_alive_secs = q.keep_alive_secs;
  })

-- The transport factories of the crate; `T` is what they make.
pub record Factories (T : Type 0) : Type 0 where
  pub create_rumqttc_transport : TransportConfig → Result T
  pub create_lapin_transport : TransportConfig → Result T
  pub create_dust_dds_transport : TransportConfig → Result T
  pub create_redis_transport : TransportConfig → Result T
  pub create_memory_transport : TransportConfig → Result T

-- if let Ok(t) = … { return Ok(t); }
abbrev pub or_else : {T : Type 0} → Result T → Result T → Result T
or_else (ok t) next = ok t
or_else (err e) next = next

unfoldable pub dispatch : {T : Type 0} → Factories T → Option String → TransportConfig → Result T
dispatch f (some flag) c =
    if str_eq flag "rumqttc"
    then f.create_rumqttc_transport c
    else if str_eq flag "lapin"
    then f.create_lapin_transport c
    else if str_eq flag "dust-dds"
    then f.create_dust_dds_transport c
    else if str_eq flag "redis"
    then f.create_redis_transport c
    else if str_eq flag "memory"
    then f.create_memory_transport c
    else err (
        transport (
          "unrecognized transport_type: " <> flag
          <> ", valid values: memory, rumqttc, lapin, dust-dds, redis"))
dispatch f none c = or_else (f.create_dust_dds_transport c) (
    or_else (f.create_rumqttc_transport c) (
      or_else (f.create_lapin_transport c)
        (or_else (f.create_redis_transport c) (f.create_memory_transport c))))

unfoldable pub build : {T : Type 0} → Factories T → TransportBuilder → Result T
unfolding configure dispatch
build f b = do c ← configure b; dispatch f b.transport_type c
