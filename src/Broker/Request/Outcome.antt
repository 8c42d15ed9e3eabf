-- ===== src/Broker/Request/Outcome.antt =====
-- What one attempt of a request returns, and what it leaves behind.
use mom_rpc.Base.{is_some, eq_iff, arith, List, some, ◌∙◌, ap, ◌≡◌, String, suc}
use mathlib.Core.Option
use mom_rpc.Base.HashMap.{get}
use mom_rpc.Error.{ok}
use mom_rpc.Domain.{Bytes, Duration}
use mom_rpc.BrokerBuilder.{BrokerParams}
use mom_rpc.Oneshot.{Oneshots}
use mom_rpc.Broker.Pending.{Event, register, meanwhile}
use mom_rpc.Broker.Pending.Answers.{
  Inv, answer, outcome, Unregistered, get-register, register-Inv, meanwhile-Inv, meanwhile-answer,
}
use mom_rpc.Broker.Pending.Leaks.{entry_left, meanwhile-get}
use mom_rpc.Broker.Request.{
  Session, Environment, received, request_envelope, request_to_inner_with_timeout,
}

module _ (k : Oneshots) {W F : Type 0} (env : Environment W) (inner : BrokerParams W F)
    (target method : String) (req_bytes : Bytes) (wait : Duration) (s : Session k.Cell W) (w : W)
    (valid : Inv k s.pending) where
  abbrev id : String
  id = env.uuid s.attempt

  abbrev events : List Event
  events = env.during s.attempt wait

  -- The session after an attempt that was published.
  abbrev pub after_attempt : Session k.Cell W
  after_attempt = record {
    pending = meanwhile k events (register k id s.pending);
    world = env.elsewhere s.attempt wait w;
    attempt = suc s.attempt;
  }

  module _ (fresh : Unregistered id events)
      (published : inner.transport.publish
          (request_envelope inner.node_id target method req_bytes id)
          s.world
        ≡ some (ok tt, w)) where
    -- On a pending map that meets its invariant, a published attempt whose correlation ID no other
    -- request takes returns the payload of the first response that carries its ID within the wait.
    -- Without one it fails: by a retryable error if the broker retries, and by Timeout if not.
    pub attempt-answer :
        request_to_inner_with_timeout k env inner target method req_bytes wait s
        ≡ some (received k (is_some inner.retry_config) (outcome (answer id events)), after_attempt)
    unfolding request_to_inner_with_timeout
    attempt-answer = rw (published, meanwhile-answer k id events s.pending valid fresh)

    -- On a pending map that meets its invariant, after an attempt that was published and whose
    -- correlation ID no other request takes, the map has no entry for the ID if the attempt was answered; if the wait ended first, the
    -- entry is still there.
    pub attempt_leaks :
        Option.map
          (λ r. get r.1.pending.senders id)
          (request_to_inner_with_timeout k env inner target method req_bytes wait s)
        ≡ some (entry_left (answer id events) (some s.pending.next))
    attempt_leaks = rw attempt-answer (
        ap some (
          meanwhile-get k id events (register k id s.pending) fresh
          ∙ ap (entry_left (answer id events))
              (ground (arith, get-register k id s.pending id, eq_iff id id))))

  -- The pending map keeps its invariant.
  pub attempt-Inv : Inv k after_attempt.pending
  attempt-Inv = meanwhile-Inv k events _ (register-Inv k id s.pending valid)
