-- ===== src/Broker/Request.antt =====
-- request_to and its inner attempt, of src/broker.rs. What the other tasks do while a request waits,
-- and the UUIDs that are drawn, come from an environment, by the number of the attempt.
pub mod Outcome
pub mod Retries
pub mod Failures
use mom_rpc.Base.{is_some, map, [], List, Option, not, false, true, Bool, ◌<>◌, String, suc, ℕ}
use mathlib.Core.Option
use mom_rpc.Error.{
  RpcError, Result, ok, err, transport, transport_retryable, serialization, invalid_mode, Attempt,
  map_err, ◌>>=◌,
}
use mom_rpc.Domain.{Async, Bytes, Duration, Envelope, request}
use mom_rpc.BrokerMode.{BrokerMode}
use mom_rpc.BrokerBuilder.{BrokerParams}
use mom_rpc.Floats.{Floats}
use mom_rpc.Retry.{Retried, returned, panicked, suspended, out_of_fuel, retry_with_backoff}
use mom_rpc.Correlation.{generate, to_string}
use mom_rpc.Oneshot.{Oneshots, Poll, waiting, ready, closed}
use mom_rpc.Broker.Pending.{Pending, Event, register, meanwhile}

-- The broker's pending requests, the state of the transports, and the attempts made so far.
pub record Session (C W : Type 0) : Type 0 where
  pub pending : Pending C
  pub world : W
  pub attempt : ℕ

pub record Environment (W : Type 0) : Type 0 where
  -- Uuid::new_v4().to_string()
  pub uuid : ℕ → String
  -- What happens to the pending map, and to the transports, within a time that an attempt waits.
  pub during : ℕ → Duration → List Event
  pub elsewhere : ℕ → Duration → W → W

-- The envelope of a request.
unfoldable pub request_envelope : String → String → String → Bytes → String → Envelope
unfolding request
request_envelope node_id target method req_bytes id =
    request (record { name = "requests/" <> target }) method req_bytes id
      (record { name = "responses/" <> node_id }) "application/json"

-- What `time::timeout(timeout, rx).await` and the two `map_err` make of the channel's state when
-- the wait ends.
abbrev pub received : Oneshots → Bool → Poll → Result Bytes
received k has_retry (ready b) = ok b
received k has_retry closed = err (
    transport
      ("response channel closed (server dropped or transport shutdown:" <> k.recv_error <> ")"))
received k true waiting =
    err (transport_retryable "request timeout waiting for response, will retry")
received k false waiting = err RpcError.timeout

abbrev pub decode_bytes : {Resp : Type 0} → (Bytes → Attempt Resp) → Result Bytes → Result Resp
decode_bytes from_slice (ok b) = map_err (from_slice b) serialization
decode_bytes from_slice (err e) = err e

abbrev pub decode_response :
    {Resp S : Type 0} → (Bytes → Attempt Resp) → Retried Bytes S → Retried Resp S
decode_response from_slice (returned r s sleeps) = returned (decode_bytes from_slice r) s sleeps
decode_response from_slice panicked = panicked
decode_response from_slice suspended = suspended
decode_response from_slice out_of_fuel = out_of_fuel

-- Only a client and a full-duplex broker may send requests.
abbrev pub may_request : BrokerMode → Result (Unit {0})
may_request BrokerMode.client = ok tt
may_request BrokerMode.full_duplex = ok tt
may_request BrokerMode.server = err (invalid_mode "request_to() not allowed in Server mode")

module _ (k : Oneshots) {W : Type 0} where
  -- After `publish`: an error ends the attempt, or it waits for the response.
  abbrev pub await_response :
      Environment W
      → Bool
      → Duration
      → ℕ
      → Session k.Cell W
      → Result (Unit {0})
      → Result Bytes × Session k.Cell W
  await_response env has_retry wait rx s (err e) = (err e, record s { attempt = suc s.attempt })
  await_response env has_retry wait rx s (ok _) =
      let p = meanwhile k (env.during s.attempt wait) s.pending in
      (
        received k has_retry (k.poll (p.cells rx)),
        record s {
          pending = p;
          world = env.elsewhere s.attempt wait s.world;
          attempt = suc s.attempt;
        },
      )

  unfoldable pub request_to_inner_with_timeout :
      {F : Type 0}
      → Environment W
      → BrokerParams W F
      → String
      → String
      → Bytes
      → Duration
      → Async (Session k.Cell W) Bytes
  unfolding request_envelope
  request_to_inner_with_timeout env inner target method req_bytes wait s =
      let id = to_string (generate env.uuid s.attempt) in
      let rx = s.pending.next in
      let pending = register k id s.pending in
      let has_retry = is_some inner.retry_config in
      Option.map
        (λ sent.
          await_response env has_retry wait rx (record s { pending = pending; world = sent.1 })
            sent.0)
        (inner.transport.publish (request_envelope inner.node_id target method req_bytes id)
          s.world)

  module _ (f : Floats) (random : ℕ → ℕ) (fuel : ℕ) (env : Environment W) {Req Value Resp : Type 0}
      (to_value : Req → Attempt Value) (to_vec : Value → Attempt Bytes)
      (from_slice : Bytes → Attempt Resp) where
    -- The request in bytes, or the error that ends the call before anything is sent.
    abbrev pub encode_request : BrokerMode → Req → Result Bytes
    encode_request mode req = may_request mode >>= λ _.
        map_err (to_value req) serialization >>= λ value. map_err (to_vec value) serialization

    abbrev pub send_bytes :
        BrokerParams W f.F64
        → String
        → String
        → Duration
        → Session k.Cell W
        → Result Bytes
        → Retried Resp (Session k.Cell W)
    send_bytes inner target method wait s (err e) = returned (err e) s []
    send_bytes inner target method wait s (ok req_bytes) = decode_response from_slice (
        retry_with_backoff f (request_to_inner_with_timeout env inner target method req_bytes wait)
          random fuel inner.retry_config s)

    unfoldable pub request_to_with_timeout :
        BrokerParams W f.F64
        → String
        → String
        → Req
        → Duration
        → Session k.Cell W
        → Retried Resp (Session k.Cell W)
    request_to_with_timeout inner target method req wait s =
        send_bytes inner target method wait s (encode_request inner.mode req)

    -- With the broker's configured timeout.
    unfoldable pub request_to :
        BrokerParams W f.F64
        → String
        → String
        → Req
        → Session k.Cell W
        → Retried Resp (Session k.Cell W)
    unfolding request_to_with_timeout
    request_to inner target method req s =
        request_to_with_timeout inner target method req inner.request_total_timeout s
