-- ===== src/Broker/Request/Failures.antt =====
-- Requests whose publish fails.
use mom_rpc.Base.{arith, eq_iff, [], some, none, Option, refl, ◌≡◌, String, suc, ℕ}
use mom_rpc.Base.HashMap.{get}
use mom_rpc.Error.{ok, err, transport, Attempt}
use mom_rpc.Domain.{Async, Bytes, Duration}
use mom_rpc.BrokerBuilder.{BrokerParams}
use mom_rpc.Floats.{Floats}
use mom_rpc.Retry.{returned, RetryConfig, retry_with_backoff, retry_loop}
use mom_rpc.Oneshot.{Oneshots}
use mom_rpc.Broker.Pending.{register}
use mom_rpc.Broker.Pending.Answers.{get-register}
use mom_rpc.Broker.Request.{
  Session, Environment, encode_request, request_envelope, request_to_inner_with_timeout,
  request_to_with_timeout,
}

-- An operation that ends with Transport is run once.
run_once :
    (f : Floats) {S : Type 0} (op : Async S Bytes) (random : ℕ → ℕ) (fuel : ℕ)
    (c : Option (RetryConfig f.F64)) (s s' : S) (text : String)
    → op s ≡ some (err (transport text), s')
    → retry_with_backoff f op random (suc fuel) c s ≡ returned (err (transport text)) s' []
unfolding retry_with_backoff retry_loop
run_once f op random fuel none s s' text h = rw (h, retry_with_backoff) refl
run_once f op random fuel (some cfg) s s' text h = rw (h, retry_loop) refl

module _ (k : Oneshots) {W : Type 0} (f : Floats) (env : Environment W)
    (inner : BrokerParams W f.F64) (target method : String) (wait : Duration) where
  -- A request that may be sent, with fuel for one attempt, whose publish fails with the error Transport:
  -- the request returns this error without a wait, a sleep or a second attempt, also if the broker
  -- retries. Its sender stays in the pending map.
  pub failed_publish :
      {Req Value Resp : Type 0} (to_value : Req → Attempt Value) (to_vec : Value → Attempt Bytes)
      (from_slice : Bytes → Attempt Resp) (random : ℕ → ℕ) (fuel : ℕ) (req : Req)
      (req_bytes : Bytes) (s : Session k.Cell W) (w : W) (text : String)
      → encode_request k f random (suc fuel) env to_value to_vec from_slice inner.mode req
        ≡ ok req_bytes
      → inner.transport.publish
          (request_envelope inner.node_id target method req_bytes (env.uuid s.attempt))
          s.world
        ≡ some (err (transport text), w)
      → (s' : Session k.Cell W) × (request_to_with_timeout k f random
            (suc fuel)
            env
            to_value
            to_vec
            from_slice
            inner
            target
            method
            req
            wait
            s
          ≡ returned (err (transport text)) s' [])
        × (get s'.pending.senders (env.uuid s.attempt) ≡ some s.pending.next)
        × (s'.world ≡ w)
        × (s'.attempt ≡ suc s.attempt)
  unfolding request_to_with_timeout request_to_inner_with_timeout
  failed_publish to_value to_vec from_slice random fuel req req_bytes s w text encoded refused =
      let after : Session k.Cell W = record {
        pending = register k (env.uuid s.attempt) s.pending;
        world = w;
        attempt = suc s.attempt;
      } in
      let op = request_to_inner_with_timeout k env inner target method req_bytes wait in
      let one : op s ≡ some (err (transport text), after) = rw refused refl in
      (
        after,
        rw (encoded, run_once f op random fuel inner.retry_config s after text one) refl,
        ground (
          arith,
          get-register k (env.uuid s.attempt) s.pending (env.uuid s.attempt),
          eq_iff (env.uuid s.attempt) (env.uuid s.attempt),
        ),
        refl,
        refl,
      )
