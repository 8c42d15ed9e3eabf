-- ===== src/Examples/Routes.antt =====
-- A builder with a URI of MQTT, in a build with the features of MQTT and DDS.
use mom_rpc.Base.{arith, ◌∷◌, [], some, none, false, true, refl, ◌≡◌, String}
use mom_rpc.Error.{ok, done}
use mom_rpc.Domain.{TransportConfig, TransportMode, base_of_config}
use mom_rpc.TransportBuilder.{TransportBuilder, configure, build}
use mom_rpc.Channels.Bounded.{bounded}
use mom_rpc.Mqtt.Connect.Address.{mqtt}
use mom_rpc.Mqtt.Commands.{create as create_mqtt_actor}
use mom_rpc.Gateways.{Features, Crates, over_mqtt, factories}
use mom_rpc.Gateways.Routes.{build_routes}
use mom_rpc.Examples.Mqtt.{logging}
use mom_rpc.Examples.Redis.{connections}
use mom_rpc.Examples.Amqp.{amqp, no_tasks, no_inboxes}
use mom_rpc.Examples.Dds.{participant}

abbrev crates : Crates bounded
crates = record {
  rumqttc = logging;
  new_client = λ options capacity. options.host ∷ [];
  redis = connections;
  redis_client = record {
    Opened = String;
    open_client = λ uri. done uri;
    get_multiplexed_async_connection = λ client. done tt;
    get_async_pubsub = λ client. done false;
  };
  lapin = amqp;
  connector = record {
    Connection = String;
    connect = λ uri. done uri;
    create_channel = λ connection. done false;
  };
  dust_dds = participant;
  create_participant = λ domain. done [];
  inboxes = no_inboxes;
  no_tasks = no_tasks;
}

abbrev features : Features
features = record {
  transport_rumqttc = true;
  transport_lapin = false;
  transport_dust_dds = true;
  transport_redis = false;
}

abbrev builder : TransportBuilder
builder = record {
  uri = some "mqtt://localhost:1884";
  node_id = some "alpha";
  request_queue = none;
  response_queue = none;
  transport_type = none;
  keep_alive_secs = none;
  called_client_mode = true;
  called_server_mode = false;
  called_full_duplex = false;
}

abbrev config : TransportConfig
config = record {
  uri = "mqtt://localhost:1884";
  node_id = "alpha";
  mode = TransportMode.client;
  request_queue = none;
  response_queue = some "responses/alpha";
  transport_type = none;
  keep_alive_secs = none;
}

build_routes_example :
    build (factories bounded crates features) builder
    ≡ ok (
        over_mqtt
          (base_of_config config, create_mqtt_actor logging "alpha" ("localhost" ∷ []) no_inboxes))
unfolding configure
build_routes_example =
    build_routes bounded crates features builder config mqtt "localhost" "1" "884"
      (refl, (refl, (refl, (refl, (refl, (refl, (refl, (refl, (refl, tt)))))))))
      (refl, (refl, (refl, (refl, tt)))) (omega arith) refl refl refl refl
