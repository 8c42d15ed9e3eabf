-- ===== src/Broker/Server/RoundTrip.antt =====
-- A typed call, from the caller's value to the handler and back.
use mom_rpc.Base.{◌++◌, ◌∷◌, [], List, some, none, Option, ◌∙◌, ap, refl, ◌≡◌, String, ℕ}
use mathlib.Core.Option
use mom_rpc.Base.HashMap.{get}
use mom_rpc.Error.{Result, ok, Attempt, done}
use mom_rpc.Domain.{Async, Bytes, Duration, Envelope}
use mom_rpc.BrokerBuilder.{BrokerParams}
use mom_rpc.Floats.{Floats}
use mom_rpc.Oneshot.{Oneshots}
use mom_rpc.BrokerMode.{BrokerMode}
use mom_rpc.Retry.{RetryConfig, returned, retry_with_backoff}
use mom_rpc.Broker.Pending.{Event, arrives}
use mom_rpc.Broker.Pending.Answers.{Inv, Unregistered, answer}
use mom_rpc.Broker.Request.{
  Session, Environment, request_envelope, request_to_inner_with_timeout, request_to_with_timeout,
  may_request, decode_response, decode_bytes, encode_request, send_bytes,
}
use mom_rpc.Broker.Server.{HandlerRegistry, handler_call, handle_request}
use mom_rpc.Broker.Server.Responses.{attempt-response}

-- Without a configuration the operation runs once.
runs_once :
    {T S : Type 0} (f : Floats) (op : Async S T) (random : ℕ → ℕ) (fuel : ℕ)
    (o : Option (RetryConfig f.F64)) (s s' : S) (r : Result T)
    → o ≡ none
    → op s ≡ some (r, s')
    → retry_with_backoff f op random fuel o s ≡ returned r s' []
unfolding retry_with_backoff
runs_once f op random fuel o s s' r plain runs = rw (plain, retry_with_backoff, runs) refl

module _ {Req Value Resp : Type 0} (to_value : Req → Attempt Value) (to_vec : Value → Attempt Bytes)
    (from_req : Bytes → Attempt Req) (resp_to_vec : Resp → Attempt Bytes)
    (from_resp : Bytes → Attempt Resp)
    (req_decodes : (r : Req) (v : Value) (b : Bytes)
      → to_value r ≡ done v
      → to_vec v ≡ done b
      → from_req b ≡ done r)
    (resp_decodes : (r : Resp) (b : Bytes) → resp_to_vec r ≡ done b → from_resp b ≡ done r)
    (func : Req → Result Resp) (req : Req) (value : Value) (req_bytes : Bytes) (resp : Resp)
    (resp_bytes : Bytes) (to_json : to_value req ≡ done value)
    (encoded : to_vec value ≡ done req_bytes) (handled : func req ≡ ok resp)
    (answered : resp_to_vec resp ≡ done resp_bytes) where
  handled_bytes : handler_call from_req resp_to_vec func req_bytes ≡ ok resp_bytes
  unfolding handler_call
  handled_bytes = rw (req_decodes req value req_bytes to_json encoded, handled, answered)

  encodes :
      (k : Oneshots) {W : Type 0} (f : Floats) (random : ℕ → ℕ) (fuel : ℕ) (env : Environment W)
      (m : BrokerMode)
      → may_request m ≡ ok tt
      → encode_request k f random fuel env to_value to_vec from_resp m req ≡ ok req_bytes
  encodes k f random fuel env m permitted = rw (permitted, to_json, encoded)

  module _ (k : Oneshots) (f : Floats) {W : Type 0} (env : Environment W)
      (inner : BrokerParams W f.F64) (target method : String) (wait : Duration)
      (s : Session k.Cell W) (w : W) (valid : Inv k s.pending) where
    -- A typed call of a broker without retries, on a pending map that meets its invariant: if what is
    -- encoded decodes to what it was, the request can be encoded and is published, its correlation ID
    -- is no other request's, the server has the handler for the method, its function succeeds
    -- and its result can be encoded, and the server's response is the first with the ID to arrive
    -- within the wait, then the call returns the result of the function, without a sleep.
    pub call_returns :
        (random : ℕ → ℕ) (fuel : ℕ) (handlers : HandlerRegistry) (reply : Envelope)
        (before after : List Event)
        → inner.retry_config ≡ none
        → may_request inner.mode ≡ ok tt
        → Unregistered (env.uuid s.attempt) (env.during s.attempt wait)
        → inner.transport.publish
            (request_envelope inner.node_id target method req_bytes (env.uuid s.attempt))
            s.world
          ≡ some (ok tt, w)
        → get handlers method ≡ some (handler_call from_req resp_to_vec func)
        → handle_request handlers
            (request_envelope inner.node_id target method req_bytes (env.uuid s.attempt))
          ≡ some reply
        → env.during s.attempt wait ≡ before ++ arrives reply ∷ after
        → answer (env.uuid s.attempt) before ≡ none
        → (s' : Session k.Cell W) × (request_to_with_timeout k f random fuel env to_value to_vec
              from_resp inner target method req wait s
            ≡ returned (ok resp) s' [])
    unfolding request_to_with_timeout
    call_returns random fuel handlers reply before after no_retries permitted fresh published found
          served arrived none_before =
        let (_, result) =
          attempt-response k env inner target method req_bytes wait s w valid handlers
            (handler_call from_req resp_to_vec func) resp_bytes reply before after fresh published
            found handled_bytes served arrived none_before in
        let (p, runs, same) = (Option.map-eq-some_iff _ _).0 result in
        (
          p.1,
          ap (send_bytes k f random fuel env to_value to_vec from_resp inner target method wait s)
                (encodes k f random fuel env inner.mode permitted)
              ∙ ap (decode_response from_resp) (
                  runs_once f
                    (request_to_inner_with_timeout k env inner target method req_bytes wait) random
                    fuel inner.retry_config s p.1 p.0 no_retries runs)
              ∙ ap (λ r. returned (decode_bytes from_resp r) p.1 []) same
              ∙ rw (resp_decodes resp resp_bytes answered),
        )
