-- ===== src/Amqp/Connect.antt =====
-- create_transport and create_amqp_connection of src/transport/amqp/lapin.rs.
use mom_rpc.Base.{if◌then◌else◌, str_eq, ◌<>◌, String, ℕ}
use mom_rpc.Error.{Result, ok, err, transport, Attempt, map_err, ◌>>=◌}
use mom_rpc.Domain.{TransportConfig, TransportBase, base_of_config}
use mom_rpc.Channels.{Inboxes}
use mom_rpc.Amqp.Actor.{Channel, Actor, ConsumerTask, create}

-- Connection::connect and Connection::create_channel.
pub record Connector (S : Type 0) : Type 1 where
  pub Connection : Type 0
  pub connect : String → Attempt Connection
  pub create_channel : Connection → Attempt S

unfoldable pub create_amqp_connection : {S : Type 0} → Connector S → TransportConfig → Result S
create_amqp_connection connector config =
    if str_eq config.uri "" then err (transport "AMQP transport requires URI") else do
      connection ←
          map_err (connector.connect config.uri)
            (λ text. transport ("amqp: connection failed: " <> text))
      map_err (connector.create_channel connection)
          (λ text. transport ("amqp: channel creation failed: " <> text))

-- The transport's base, and the actor that it spawns.
unfoldable pub create_transport :
    (c : Channel) {Q : Type 0}
    → Connector c.State
    → Inboxes Q
    → (ℕ → ConsumerTask)
    → TransportConfig
    → Result (TransportBase × Actor Q c.State)
unfolding create_amqp_connection create base_of_config
create_transport c connector inboxes no_tasks config = do
  channel ← create_amqp_connection connector config
  ok (base_of_config config, create c config.node_id channel inboxes no_tasks)
