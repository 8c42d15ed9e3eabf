-- ===== src/Examples/Serving.antt =====
-- Runs of handlers, and of a broker's life.
use mom_rpc.Broker.Request.{Session, request_to_with_timeout, Environment, request_envelope}
use mom_rpc.BrokerBuilder.{BrokerParams, build, new as new_builder}
use mom_rpc.Examples.{as_is, log, alpha, session, prefix, stray}
use mom_rpc.Error.{done, Result, ok}
use mom_rpc.Broker.Server.{handler_call, HandlerRegistry, handle_request}
use mom_rpc.Retry.{returned}
use mom_rpc.Broker.Server.RoundTrip.{call_returns}
use mom_rpc.Base.{◌∷◌, [], List, some, none, false, true, ◌↔◌, refl, ◌≡◌, String}
use mom_rpc.Base.HashMap.{get}
use mom_rpc.Domain.{
  Address, Envelope, Bytes, TransportConfig, TransportMode, request, response, base_of_config,
}
use mom_rpc.Floats.{exact, Fraction}
use mom_rpc.Oneshot.{Poll, waiting, cells}
use mom_rpc.Broker.Pending.{arrives}
use mom_rpc.Broker.Pending.Answers.{no_requests-Inv, answer}
use mom_rpc.Broker.Server.Responses.{handle_request_iff}
use mom_rpc.Broker.Lifecycle.{RpcBroker, new, run, resume, finished}
use mom_rpc.Broker.Lifecycle.Shutdown.{run_ends, shuts_down, after_calls}
use mom_rpc.Broker.Lifecycle.Queues.{broker_subscriptions}
use mom_rpc.TransportBuilder.{TransportBuilder, configure}

abbrev echo_handlers : HandlerRegistry
echo_handlers = ("echo", prefix) ∷ []

-- The response of a server with an `echo` handler.
abbrev echoed : Envelope
echoed = response (record { name = "responses/alpha" }) (1 ∷ 3 ∷ []) "only" "application/json"

abbrev served : Environment (List Envelope)
served = record {
  uuid = λ a. "only";
  during = λ a d. arrives stray ∷ arrives echoed ∷ [];
  elsewhere = λ a d w. w;
}

abbrev asked : Envelope
asked = request_envelope "alpha" "beta" "echo" (3 ∷ []) "only"

handle_request_iff_example : (handle_request echo_handlers asked ≡ some echoed) ↔ (
    (method : String) × (reply_to : Address) × (id : String) × (h : Bytes → Result Bytes)
    × (bytes : Bytes) × (asked.method ≡ some method)
    × (asked.reply_to ≡ some reply_to)
    × (asked.correlation_id ≡ some id)
    × (get echo_handlers method ≡ some h)
    × (h asked.payload ≡ ok bytes)
    × (echoed ≡ response reply_to bytes id "application/json"))
handle_request_iff_example = handle_request_iff echo_handlers asked echoed

-- A broker without retries, whose server puts a 1 in front of what it gets.
abbrev plain : BrokerParams (List Envelope) Fraction
plain = record alpha { retry_config = none }

as_is_decodes :
    (r : Bytes) (v : Bytes) (b : Bytes) → as_is r ≡ done v → as_is v ≡ done b → as_is b ≡ done r
as_is_decodes r v b e g = cc

as_is_reads : (r : Bytes) (b : Bytes) → as_is r ≡ done b → as_is b ≡ done r
as_is_reads r b e = cc

abbrev typed_handlers : HandlerRegistry
typed_handlers = ("echo", handler_call as_is as_is prefix) ∷ []

call_returns_example :
    (s' : Session Poll (List Envelope)) × (request_to_with_timeout cells exact
        (λ _. 0)
        1
        served
        as_is
        as_is
        as_is
        plain
        "beta"
        "echo"
        (3 ∷ [])
        30
        session
      ≡ returned (ok (1 ∷ 3 ∷ [])) s' [])
unfolding get handle_request request_envelope request answer response handler_call
call_returns_example =
    call_returns as_is as_is as_is as_is as_is as_is_decodes as_is_reads prefix (3 ∷ []) (3 ∷ [])
      (3 ∷ []) (1 ∷ 3 ∷ []) (1 ∷ 3 ∷ []) refl refl refl refl cells exact served plain "beta" "echo"
      30 session (asked ∷ []) (no_requests-Inv cells (λ i. waiting)) (λ _. 0) 1 typed_handlers
      echoed (arrives stray ∷ []) [] refl refl tt refl refl refl refl refl

abbrev broker : RpcBroker Poll (List Envelope) Fraction
broker = new cells (λ i. waiting) alpha

run_ends_example :
    resume cells
      (run cells (after_calls cells [] broker)).0
      (after_calls cells (shuts_down ∷ []) (run cells (after_calls cells [] broker)).1)
    ≡ finished (ok tt)
run_ends_example = run_ends cells (λ i. waiting) alpha [] (shuts_down ∷ []) refl

abbrev full_duplex_builder : TransportBuilder
full_duplex_builder = record {
  uri = some "memory://";
  node_id = some "alpha";
  request_queue = none;
  response_queue = none;
  transport_type = none;
  keep_alive_secs = none;
  called_client_mode = false;
  called_server_mode = false;
  called_full_duplex = true;
}

abbrev full_duplex_config : TransportConfig
full_duplex_config = record {
  uri = "memory://";
  node_id = "alpha";
  mode = TransportMode.full_duplex;
  request_queue = some "requests/alpha";
  response_queue = some "responses/alpha";
  transport_type = none;
  keep_alive_secs = none;
}

abbrev custom_builder : TransportBuilder
custom_builder = record full_duplex_builder {
  response_queue = some "mine";
  called_full_duplex = false;
}

abbrev custom_config : TransportConfig
custom_config = record full_duplex_config {
  mode = TransportMode.client;
  request_queue = none;
  response_queue = some "mine";
}

-- The broker of a transport with a custom response queue still receives from responses/alpha.
broker_subscriptions_example :
    ((new cells
        (λ i. waiting)
        (build exact (new_builder (record log { base = base_of_config custom_config })))).rx_task
      ≡ some (record { name = "responses/alpha" }))
    × ((new cells
          (λ i. waiting)
          (build exact
            (new_builder (record log { base = base_of_config custom_config })))).server_rx_task
        ≡ none)
unfolding configure
broker_subscriptions_example =
    broker_subscriptions cells exact (λ i. waiting)
      (record log { base = base_of_config custom_config }) custom_builder custom_config refl refl
