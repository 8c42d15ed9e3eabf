-- ===== src/Broker/Request/Retries.antt =====
-- Requests of a broker that retries.
use mom_rpc.Base.{
  is_some, List, some, none, Option, true, subst, ap, sym, refl, ◌≡◌, String, ◌<◌, ◌≤◌, ◌+◌, suc,
  zero, ℕ,
}
use mom_rpc.Error.{ok, Attempt}
use mom_rpc.Domain.{Async, Bytes, Duration, Envelope}
use mom_rpc.BrokerBuilder.{BrokerParams}
use mom_rpc.Floats.{exact, Fraction}
use mom_rpc.Retry.{returned, RetryConfig, u32_mod, retry_with_backoff}
use mom_rpc.Retry.Attempts.{attempts}
use mom_rpc.Retry.Delays.{Convertible}
use mom_rpc.Retry.Backoff.{retry_returns}
use mom_rpc.Oneshot.{Oneshots}
use mom_rpc.Broker.Pending.Answers.{Inv, answer, outcome, Unregistered}
use mom_rpc.Broker.Request.{
  Session, Environment, received, decode_response, decode_bytes, encode_request, request_envelope,
  request_to_inner_with_timeout, request_to_with_timeout,
}
use mom_rpc.Broker.Request.Outcome.{after_attempt, attempt-answer, attempt-Inv}

abbrev pub or_later : Option Bytes → Option Bytes → Option Bytes
or_later none later = later
or_later (some b) later = some b

-- The answer of the first answered attempt among the first and n more, counted from a number on.
abbrev pub first_answer : {W : Type 0} → Environment W → Duration → ℕ → ℕ → Option Bytes
first_answer env wait zero a = answer (env.uuid a) (env.during a wait)
first_answer env wait (suc n) a =
    or_later (answer (env.uuid a) (env.during a wait)) (first_answer env wait n (suc a))

attempts_step :
    (k : Oneshots) {S : Type 0} (op : Async S Bytes) (n : ℕ) (s s' : S) (o later : Option Bytes)
    → op s ≡ some (received k true (outcome o), s')
    → ((t : S) × (j : ℕ) × (attempts op n s' ≡ some (received k true (outcome later), t, j)))
    → (t : S) × (j : ℕ) × (attempts op (suc n) s
        ≡ some (received k true (outcome (or_later o later)), t, j))
unfolding attempts
attempts_step k op n s s' none later e (t, j, rest) = (t, suc j, rw (e, attempts, rest))
attempts_step k op n s s' (some b) later e rest = (s', 0, rw (e, attempts))

module _ (k : Oneshots) {W : Type 0} (env : Environment W) (inner : BrokerParams W Fraction)
    (cfg : RetryConfig Fraction) (target method : String) (wait : Duration)
    (retries : inner.retry_config ≡ some cfg)
    (unique : (a : ℕ) → Unregistered (env.uuid a) (env.during a wait))
    (publishes : (e : Envelope) (w : W)
      → (w' : W) × (inner.transport.publish e w ≡ some (ok tt, w'))) where
  -- One attempt, with the state that it leaves.
  one_attempt :
      (req_bytes : Bytes) (s : Session k.Cell W)
      → Inv k s.pending
      → (s' : Session k.Cell W) × (request_to_inner_with_timeout k env inner target method req_bytes
            wait s
          ≡ some (
            received k true (outcome (answer (env.uuid s.attempt) (env.during s.attempt wait))),
            s',
          ))
        × Inv k s'.pending
        × (s'.attempt ≡ suc s.attempt)
  one_attempt req_bytes s v =
      let (w, published) =
        publishes (request_envelope inner.node_id target method req_bytes (env.uuid s.attempt))
          s.world in
      (
        after_attempt k env inner target method req_bytes wait s w v,
        subst
            (λ c.
              request_to_inner_with_timeout k env inner target method req_bytes wait s
              ≡ some (
                received k (is_some c)
                    (outcome (answer (env.uuid s.attempt) (env.during s.attempt wait))),
                after_attempt k env inner target method req_bytes wait s w v,
              ))
            retries
            (attempt-answer k env inner target method req_bytes wait s w v (unique s.attempt)
              published),
        attempt-Inv k env inner target method req_bytes wait s w v,
        refl,
      )

  attempts_answer :
      (req_bytes : Bytes) (n : ℕ) (s : Session k.Cell W)
      → Inv k s.pending
      → (s' : Session k.Cell W) × (j : ℕ) × (attempts
            (request_to_inner_with_timeout k env inner target method req_bytes wait)
            n
            s
          ≡ some (received k true (outcome (first_answer env wait n s.attempt)), s', j))
  unfolding attempts
  attempts_answer req_bytes zero s v =
      let (s', e, _, _) = one_attempt req_bytes s v in (s', 0, rw e)
  attempts_answer req_bytes (suc n) s v =
      let (s', e, v', count) = one_attempt req_bytes s v in
      attempts_step k _ n s s' _ _ e (
        subst
          (λ a.
            (t : Session k.Cell W) × (j : ℕ) × (attempts
                (request_to_inner_with_timeout k env inner target method req_bytes wait) n s'
              ≡ some (received k true (outcome (first_answer env wait n a)), t, j)))
          count (attempts_answer req_bytes n s' v'))

  -- A request of a broker that retries and may send it, in exact arithmetic, with enough fuel, a
  -- max_attempts at which the u32 counter does not wrap, a bound on the initial and the maximal delay
  -- that has a Duration as 5/4 of it and as its product with the multiplier, which is not negative, a
  -- transport that publishes, correlation IDs that no other request takes, and a pending map that meets
  -- its invariant: it returns the decoded payload of the first attempt that is answered within its own
  -- wait, among max_attempts + 1; and if none is, it ends with a retryable error, and never with Timeout.
  pub request-first_answer :
      {Req Value Resp : Type 0} (to_value : Req → Attempt Value) (to_vec : Value → Attempt Bytes)
      (from_slice : Bytes → Attempt Resp) (random : ℕ → ℕ) (fuel : ℕ) (req : Req)
      (req_bytes : Bytes) (s : Session k.Cell W) (b : Duration)
      → Inv k s.pending
      → cfg.initial_delay ≤ b
      → cfg.max_delay ≤ b
      → Convertible cfg b
      → cfg.max_attempts + 1 < u32_mod
      → cfg.max_attempts < fuel
      → encode_request k exact random fuel env to_value to_vec from_slice inner.mode req
        ≡ ok req_bytes
      → (s' : Session k.Cell W) × (sleeps : List Duration) × (request_to_with_timeout k exact random
            fuel env to_value to_vec from_slice inner target method req wait s
          ≡ returned
              (decode_bytes from_slice
                (received k true (outcome (first_answer env wait cfg.max_attempts s.attempt))))
              s'
              sleeps)
  unfolding request_to_with_timeout
  request-first_answer to_value to_vec from_slice random fuel req req_bytes s b v small capped fits
        no_overflow enough encoded =
      let (s', j, runs) = attempts_answer req_bytes cfg.max_attempts s v in
      let (sleeps, run, _, _) =
        retry_returns (request_to_inner_with_timeout k env inner target method req_bytes wait)
          random cfg b capped fits fuel s s' _ j no_overflow enough small runs in
      (
        s',
        sleeps,
        rw encoded (
            ap (decode_response from_slice) (
              subst
                (λ o.
                  retry_with_backoff exact
                    (request_to_inner_with_timeout k env inner target method req_bytes wait) random
                    fuel o s
                  ≡ returned
                      (received k true (outcome (first_answer env wait cfg.max_attempts s.attempt)))
                      s' sleeps)
                (sym retries) run)),
      )
