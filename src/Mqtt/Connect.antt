-- ===== src/Mqtt/Connect.antt =====
-- create_transport and create_mqtt_client of src/transport/mqtt/rumqttc.rs: the broker's address in the
-- URI, and the client that connects to it.
pub mod Address
use mom_rpc.Mqtt.Actor.{Client, MqttActor}
use mom_rpc.Mqtt.Commands.{create}
use mom_rpc.Channels.{Inboxes}
use mom_rpc.Domain.{TransportBase, base_of_config, Duration, TransportConfig}
use mathlib.Core.Option
use mom_rpc.Base.{unwrap_or, if◌then◌else◌, str_eq, map, some, none, Option, ◌<>◌, String, ℕ}
use mom_rpc.Error.{Result, ok, err, transport, map_err, ◌>>=◌}
use mom_rpc.Base.Texts.{strip_prefix, split_once, parse_u16}
use mom_rpc.Retry.{from_secs}

-- What MqttOptions is given. `keep_alive` is none where rumqttc's default stays.
pub record MqttOptions : Type 0 where
  pub client_id : String
  pub host : String
  pub port : ℕ
  pub keep_alive : Option Duration

-- Option::or_else
abbrev pub or_else : {A : Type 0} → Option A → Option A → Option A
or_else none later = later
or_else (some a) later = some a

-- The URI without its scheme.
unfoldable pub without_scheme : String → String
without_scheme uri =
    unwrap_or (or_else (strip_prefix "mqtt://" uri) (strip_prefix "tcp://" uri)) uri

abbrev pub port_after : String → String → Option (String × String) → Result (String × ℕ)
port_after uri url (some (h, p)) = do
  port ←
      map_err (parse_u16 p)
        (λ text. transport ("rumqttc: invalid port in broker URL " <> uri <> ": " <> text))
  ok (h, port)
port_after uri url none = ok (url, 1883)

-- The host, and the port or the default one.
unfoldable pub broker_address : String → Result (String × ℕ)
unfolding without_scheme split_once parse_u16
broker_address uri = port_after uri (without_scheme uri) (split_once ":" (without_scheme uri))

-- The client comes from AsyncClient::new, which cannot fail, with a request capacity of 10.
unfoldable pub create_mqtt_client :
    {C : Type 0} → (MqttOptions → ℕ → C) → TransportConfig → Result C
unfolding broker_address
create_mqtt_client new_client config =
    if str_eq config.uri "" then err (transport "MQTT transport requires URI") else do
      address ← broker_address config.uri
      ok (
          new_client
            (record {
              client_id = config.node_id;
              host = address.0;
              port = address.1;
              keep_alive = Option.map from_secs config.keep_alive_secs;
            })
            10)

-- The transport's base, and the actor that it spawns.
unfoldable pub create_transport :
    (c : Client) {Q : Type 0}
    → (MqttOptions → ℕ → c.State)
    → Inboxes Q
    → TransportConfig
    → Result (TransportBase × MqttActor Q c.State)
unfolding create_mqtt_client create base_of_config
create_transport c new_client inboxes config = do
  client ← create_mqtt_client new_client config
  ok (base_of_config config, create c config.node_id client inboxes)
