-- ===== src/Examples.antt =====
-- Concrete inputs, and runs of the operations on them: a log as transport, byte strings that stand
-- for themselves, and the instances of the interfaces.
mod Requests
mod Serving
mod Retrying
mod Hubs
mod Building
mod Mqtt
mod Exchanging
mod Networking
mod Lossy
mod Codec
mod RedisFleet
mod MqttFleet
mod AmqpFleet
mod DdsFleet
mod Redis
mod Amqp
mod Dds
mod Routes
use mom_rpc.Base.{◌++◌, ◌∷◌, [], List, some, String, suc, zero, ℕ}
use mom_rpc.Error.{Result, ok, Attempt, done}
use mom_rpc.Domain.{Bytes, Duration, Envelope, Transport, TransportBase, TransportMode, response}
use mom_rpc.BrokerMode.{BrokerMode}
use mom_rpc.BrokerBuilder.{BrokerParams}
use mom_rpc.Floats.{Fraction}
use mom_rpc.Retry.{RetryConfig}
use mom_rpc.Oneshot.{Poll, waiting, cells}
use mom_rpc.Broker.Pending.{Pending, Event, arrives, no_requests}
use mom_rpc.Broker.Request.{Environment, Session}

abbrev pub alpha_base : TransportBase
alpha_base = record {
  transport_id = "alpha";
  mode = TransportMode.full_duplex;
  request_queue = some "requests/alpha";
  response_queue = some "responses/alpha";
}

-- A transport that logs what is published.
abbrev pub log : Transport (List Envelope)
log = record {
  base = alpha_base;
  publish = λ e w. some (ok tt, w ++ e ∷ []);
  subscribe = λ s w. some (ok 0, w);
  close = λ w. some (ok tt, w);
}

abbrev pub two_retries : RetryConfig Fraction
two_retries = record {
  max_attempts = 2;
  multiplier = record { plus = 2; minus = 0; over = 1 };
  initial_delay = 100;
  max_delay = 150;
}

abbrev pub alpha : BrokerParams (List Envelope) Fraction
alpha = record {
  transport = log;
  node_id = "alpha";
  mode = BrokerMode.full_duplex;
  retry_config = some two_retries;
  request_total_timeout = 30;
}

abbrev pub uuid : ℕ → String
uuid zero = "first"
uuid (suc n) = "second"

abbrev pub reply : Envelope
reply = response (record { name = "responses/alpha" }) (7 ∷ []) "second" "application/json"

abbrev pub stray : Envelope
stray = response (record { name = "responses/alpha" }) (9 ∷ []) "nobody" "application/json"

-- Nothing arrives for the first attempt, and an answer for each later one.
abbrev pub during : ℕ → Duration → List Event
during zero wait = []
during (suc n) wait = arrives stray ∷ arrives reply ∷ []

abbrev pub network : Environment (List Envelope)
network = record { uuid = uuid; during = during; elsewhere = λ a d w. w }

abbrev pub idle : Pending Poll
idle = no_requests cells (λ i. waiting)

abbrev pub session : Session Poll (List Envelope)
session = record { pending = idle; world = []; attempt = 0 }

-- Payloads as they are.
abbrev pub as_is : Bytes → Attempt Bytes
as_is b = done b

-- The handler that puts a 1 in front.
abbrev pub prefix : Bytes → Result Bytes
prefix b = ok (1 ∷ b)
