-- ===== src/Network/Records/States.antt =====
-- The two states of a request, by records that are consistent.
use mom_rpc.Base.{
  Option-cases, if◌then◌else◌, some, none, false, true, Bool, inr, inl, ◌⊎◌, ◌≢◌, subst, ◌∙◌, ap,
  sym, refl, ◌≡◌, String, ℕ,
}
use mathlib.Core.Option.{some-injective}
use mom_rpc.Oneshot.{waiting, ready, Oneshots}
use mom_rpc.Error.{ok, err, RpcError, transport_retryable}
use mom_rpc.Base.HashMap.{get}
use mom_rpc.Network.Records.{Consistent, Ledger, Sent}
use mom_rpc.Broker.Request.{received}
use mom_rpc.Domain.{Bytes}

module _ (o : Oneshots) (Answer : Sent → Bytes → Type 0) where
  -- A request waits, and the end of its wait would be a timeout; or it has its answer, and no sender.
  abbrev pub WaitsOrAnswered : Ledger o.Cell → String → Sent → Bool → Type 0
  WaitsOrAnswered s id q retries =
      ((get (s.pending q.caller).senders id ≡ some q.rx)
        × (received o retries (o.poll ((s.pending q.caller).cells q.rx)) ≡ (
            if retries
            then err (transport_retryable "request timeout waiting for response, will retry")
            else err RpcError.timeout)))
      ⊎ ((get (s.pending q.caller).senders id ≡ none)
          × (b : Bytes) × (received o retries (o.poll ((s.pending q.caller).cells q.rx)) ≡ ok b)
          × Answer q b)

  timeouts :
      (retries : Bool)
      → received o retries waiting ≡ (
          if retries
          then err (transport_retryable "request timeout waiting for response, will retry")
          else err RpcError.timeout)
  timeouts true = refl
  timeouts false = refl

  module _ (s : Ledger o.Cell) (v : Consistent o Answer s) (id : String) (q : Sent)
      (sent : get s.sent id ≡ some q) where
    answered_gone :
        (rx : ℕ) (b : Bytes)
        → o.poll ((s.pending q.caller).cells q.rx) ≡ ready b
        → get (s.pending q.caller).senders id ≢ some rx
    answered_gone rx b r still =
        let (p, g, _, e) = v.known q.caller id rx still in
        let same : p ≡ q = some-injective _ _ (sym g ∙ sent) in
        let own : rx ≡ q.rx = sym e ∙ ap (λ (x : Sent). x.rx) same in
        let waits = (v.valid q.caller).unanswered id rx still in
        cc (r, subst (λ i. o.poll ((s.pending q.caller).cells i) ≡ waiting) own waits)

    pub states : (retries : Bool) → WaitsOrAnswered s id q retries
    states retries = elim (v.accounted id q sent) [
      | inl waits ↦ inl (waits, rw ((v.valid q.caller).unanswered id q.rx waits) (timeouts retries))
      | inr (b, r) ↦ inr (
        elim (Option-cases (get (s.pending q.caller).senders id)) [
          | inl gone ↦ gone
          | inr (rx, still) ↦ absurd (answered_gone rx b r still)
        ],
        b,
        rw r refl,
        v.answered id q b sent r,
      )
    ]
