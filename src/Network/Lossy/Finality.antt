-- ===== src/Network/Lossy/Finality.antt =====
-- What a repeated or a late message changes.
use mom_rpc.Base.{
  Bool-cases, eq_iff, str_eq, arith, some, none, Option, false, true, Bool, inr, inl, subst, ◌∙◌,
  ap, sym, refl, ◌≡◌, String, ℕ,
}
use mom_rpc.Error.{ok}
use mom_rpc.Base.HashMap.{get}
use mom_rpc.Network.Envelopes.{Answered}
use mom_rpc.Broker.Request.{received}
use mom_rpc.Network.{Node}
use mom_rpc.Domain.{Bytes}
use mom_rpc.Network.Records.{Sent}
use mom_rpc.Network.Lossy.{Medium, Step, Reach, posts, replies, resolves, later}
use mom_rpc.Network.Lossy.Authenticity.{Sound, Reach-Sound, resolved_answers}
use mom_rpc.Network.Refinement.{
  View, Change, calls, returns, idles, view, seen, answer_of, ask-Change, complete-Change,
}
use mom_rpc.Oneshot.{Oneshots, Poll, waiting, ready, closed}
use mathlib.Core.Option.{some-injective}

module _ (o : Oneshots) (nodes : ℕ → Node) where
  pub data Steps : Medium o.Cell → Medium o.Cell → Type 0 where
    done : {s : Medium o.Cell} → Steps s s
    then_ : {s m n : Medium o.Cell} → Step o nodes s m → Steps m n → Steps s n

-- An answer stays through a change of the service.
kept_answer :
    (Answer : Sent → Bytes → Type 0) (v w : View) (id : String) (q : Sent) (b : Bytes)
    → Change Answer v w
    → v id ≡ some (q, some b)
    → w id ≡ some (q, some b)
kept_answer Answer v w id q b (idles same) h = same id ∙ h
kept_answer Answer v w id q b (calls j p fresh new same) h = elim (Bool-cases (str_eq id j)) [
  | inl e ↦
      let here = subst (λ x. v x ≡ none) (sym ((eq_iff id j).0 e)) fresh in absurd (cc (here, h))
  | inr e ↦ same id (λ g. ground (arith, eq_iff id j)) ∙ h
]
kept_answer Answer v w id q b (returns j p c answer open_ given same) h =
    elim (Bool-cases (str_eq id j)) [
      | inl e ↦
          let here = subst (λ x. v x ≡ some (p, none)) (sym ((eq_iff id j).0 e)) open_ in
          absurd (cc (here, h))
      | inr e ↦ same id (λ g. ground (arith, eq_iff id j)) ∙ h
    ]

received-ok :
    (o : Oneshots) (retries : Bool) (p : Poll) (b : Bytes)
    → received o retries p ≡ ok b
    → p ≡ ready b
received-ok o retries (ready c) b h = cc
received-ok o true waiting b h = cc
received-ok o false waiting b h = cc
received-ok o retries closed b h = cc

answer_of-some : (p : Poll) (b : Bytes) → answer_of p ≡ some b → p ≡ ready b
answer_of-some (ready c) b h = cc
answer_of-some waiting b h = cc
answer_of-some closed b h = cc

module _ (o : Oneshots) (nodes : ℕ → Node) where
  Step-Change :
      {s s' : Medium o.Cell}
      → Sound o nodes s
      → Step o nodes s s'
      → Change (Answered nodes) (view o s.records) (view o s'.records)
  Step-Change {s} v (posts n target method payload id may fresh) =
      ask-Change o (Answered nodes) n s.records v.consistent target method payload id fresh
  Step-Change v (replies n e m here) = idles (λ j. refl)
  Step-Change {s} v (resolves n e m here) =
      complete-Change o (Answered nodes) n s.records v.consistent e
        (resolved_answers o nodes v n e m here)

  Steps-answer :
      {cells : ℕ → o.Cell} {s s' : Medium o.Cell} (id : String) (q : Sent) (b : Bytes)
      → Reach o nodes cells s
      → Steps o nodes s s'
      → view o s.records id ≡ some (q, some b)
      → view o s'.records id ≡ some (q, some b)
  Steps-answer id q b reach done h = h
  Steps-answer id q b reach (then_ step steps) h =
      Steps-answer id q b (later reach step) steps
        (kept_answer (Answered nodes) _ _ id q b (Step-Change (Reach-Sound o nodes reach) step) h)

  -- A request with an answer, by the view of it.
  seen-answered :
      (s : Medium o.Cell) (id : String) (q : Sent) (b : Bytes) (r : Option Sent)
      → get s.records.sent id ≡ r
      → seen o s.records.pending r ≡ some (q, some b)
      → (get s.records.sent id ≡ some q)
        × (o.poll ((s.records.pending q.caller).cells q.rx) ≡ ready b)
  seen-answered s id q b none e h = cc
  seen-answered s id q b (some p) e h =
      let both = some-injective _ _ h in
      let one : p ≡ q = ap (λ x. x.0) both in
      (
        e ∙ ap some one,
        subst (λ (x : Sent). o.poll ((s.records.pending x.caller).cells x.rx) ≡ ready b) one
            (answer_of-some _ b (ap (λ x. x.1) both)),
      )

  -- Brokers over a transport that may lose, repeat, delay and reorder envelopes, but gives a receiving
  -- task only envelopes published on its topic, where each request takes a correlation ID that no
  -- request had: once a request has been given a payload, in a state that the tasks reach from the
  -- start, it is the same request, with the same payload, in every state that they reach from there,
  -- whatever other responses carry its correlation ID.
  pub answer_is_final :
      (cells : ℕ → o.Cell) (s s' : Medium o.Cell) (id : String) (q : Sent) (retries : Bool)
      (b : Bytes)
      → Reach o nodes cells s
      → get s.records.sent id ≡ some q
      → received o retries (o.poll ((s.records.pending q.caller).cells q.rx)) ≡ ok b
      → Steps o nodes s s'
      → (get s'.records.sent id ≡ some q)
        × (received o retries (o.poll ((s'.records.pending q.caller).cells q.rx)) ≡ ok b)
  answer_is_final cells s s' id q retries b reach sent answer steps =
      let before = received-ok o retries _ b answer in
      let at_start : view o s.records id ≡ some (q, some b) = rw (sent, before) refl in
      let (same, after) =
        seen-answered s' id q b (get s'.records.sent id) refl
          (Steps-answer id q b reach steps at_start) in
      (same, rw after refl)
