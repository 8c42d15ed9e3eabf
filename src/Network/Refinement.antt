-- ===== src/Network/Refinement.antt =====
-- The service that the brokers make together, and their steps as steps of it.
use mom_rpc.Base.{
  Option-cases, Bool-cases, eq_iff, str_eq, arith, some, none, Option, inr, inl, ◌⊎◌, ◌≢◌, subst,
  ◌∙◌, ap, sym, refl, ◌≡◌, String, ℕ,
}
use mathlib.Core.Option.{some-injective}
use mom_rpc.Network.{
  Network, Node, Step, Reach, listens, asks, begins, sends, skips, serves, completes, closes,
}
use mom_rpc.Network.Records.{Sent, Ledger, Consistent, ask, complete}
use mom_rpc.Network.Records.Asks.{kept, new_channel, get-insert_same, get-insert_apart}
use mom_rpc.Network.Records.Answers.{settled}
use mom_rpc.Oneshot.{Oneshots, Poll, waiting, ready, closed}
use mom_rpc.Domain.{Bytes, Envelope}
use mom_rpc.Broker.Pending.{Pending}
use mom_rpc.Base.HashMap.{get}
use mom_rpc.Network.Invariant.{Sound, Reach-Sound, taken_answers}
use mom_rpc.Channels.{Channels, Inboxes}
use mom_rpc.Network.Envelopes.{Answered}

-- What is known of a request, by its correlation ID: nothing, that it was made, or its answer too.
abbrev pub View : Type 0
View = String → Option (Sent × Option Bytes)

-- One request at most changes in a step.
pub data Change (Answer : Sent → Bytes → Type 0) (v w : View) : Type 0 where
  calls :
      (id : String) (q : Sent)
      → v id ≡ none
      → w id ≡ some (q, none)
      → ((j : String) → j ≢ id → w j ≡ v j)
      → Change Answer v w
  returns :
      (id : String) (q : Sent) (b : Bytes)
      → Answer q b
      → v id ≡ some (q, none)
      → w id ≡ some (q, some b)
      → ((j : String) → j ≢ id → w j ≡ v j)
      → Change Answer v w
  idles : ((j : String) → w j ≡ v j) → Change Answer v w

abbrev pub answer_of : Poll → Option Bytes
answer_of waiting = none
answer_of (ready b) = some b
answer_of closed = none

module _ (o : Oneshots) where
  abbrev pub seen : (ℕ → Pending o.Cell) → Option Sent → Option (Sent × Option Bytes)
  seen pending none = none
  seen pending (some q) = some (q, answer_of (o.poll ((pending q.caller).cells q.rx)))

  abbrev pub view : Ledger o.Cell → View
  view s id = seen s.pending (get s.sent id)

  module _ (Answer : Sent → Bytes → Type 0) (n : ℕ) (s : Ledger o.Cell)
      (v : Consistent o Answer s) where
    module _ (target method : String) (payload : Bytes) (id : String)
        (fresh : get s.sent id ≡ none) where
      old_requests :
          (j : String) (r : Option Sent)
          → get s.sent j ≡ r
          → seen (ask o n target method payload id s).pending r ≡ seen s.pending r
      old_requests j none h = refl
      old_requests j (some q) h =
          ap (λ c. some (q, answer_of (o.poll c)))
            ((kept o Answer n target method payload id s v fresh q.caller).1 q.rx (v.made j q h))

      pub ask-Change : Change Answer (view s) (view (ask o n target method payload id s))
      ask-Change =
          let new : Sent = record {
            caller = n;
            rx = (s.pending n).next;
            target = target;
            method = method;
            payload = payload;
          } in
          calls id new (rw fresh)
            (rw
              (
                get-insert_same s.sent id new,
                (new_channel o Answer n target method payload id s v fresh (s.pending n).next
                    refl).1,
              )
              refl)
            (λ j apart.
              rw (get-insert_apart s.sent id j new apart) (old_requests j (get s.sent j) refl))

    module _ (e : Envelope)
        (right : (id : String) (q : Sent)
          → e.correlation_id ≡ some id
          → get s.sent id ≡ some q
          → Answer q e.payload) where
      -- The channel of a request is as it was, or the response carries the request's ID.
      channel_changes :
          (j : String) (q : Sent)
          → get s.sent j ≡ some q
          → ((((complete o n e s).pending q.caller).cells q.rx) ≡ ((s.pending q.caller).cells q.rx))
            ⊎ ((e.correlation_id ≡ some j)
                × (o.poll ((s.pending q.caller).cells q.rx) ≡ waiting)
                × (o.poll (((complete o n e s).pending q.caller).cells q.rx) ≡ ready e.payload))
      channel_changes j q h = elim ((settled o Answer n e s v right q.caller).3 q.rx) [
        | inl same ↦ inl same
        | inr (id, c, sender, r) ↦
            let (p, g, caller, rx) = v.known q.caller id q.rx sender in
            let one = v.distinct id j p q g h caller rx in
            inr (c ∙ ap some one, (v.valid q.caller).unanswered id q.rx sender, r)
      ]

      unchanged :
          (j : String)
          → e.correlation_id ≢ some j
          → (r : Option Sent) → get s.sent j ≡ r
          → seen (complete o n e s).pending r ≡ seen s.pending r
      unchanged j apart none h = refl
      unchanged j apart (some q) h = elim (channel_changes j q h) [
        | inl same ↦ ap (λ c. some (q, answer_of (o.poll c))) same
        | inr (c, _, _) ↦ absurd (apart c)
      ]

      other_id : (id j : String) → e.correlation_id ≡ some id → j ≢ id → e.correlation_id ≢ some j
      other_id id j c apart d = apart (some-injective _ _ (sym d ∙ c))

      -- Nothing changes, if nothing does for the response's ID.
      idles_at :
          (id : String)
          → e.correlation_id ≡ some id
          → view (complete o n e s) id ≡ view s id
          → Change Answer (view s) (view (complete o n e s))
      idles_at id c here = idles (λ j. elim (Bool-cases (str_eq j id)) [
        | inl same ↦
            subst (λ a. view (complete o n e s) a ≡ view s a) (sym ((eq_iff j id).0 same)) here
        | inr apart ↦
            unchanged j (other_id id j c (λ same. ground (arith, eq_iff j id))) (get s.sent j) refl
      ])

      complete_one :
          (id : String) (r : Option Sent)
          → e.correlation_id ≡ some id
          → get s.sent id ≡ r
          → Change Answer (view s) (view (complete o n e s))
      complete_one id none c h = idles_at id c (rw h refl)
      complete_one id (some q) c h = elim (channel_changes id q h) [
        | inl same ↦ idles_at id c (rw h (ap (λ x. some (q, answer_of (o.poll x))) same))
        | inr (_, before, after) ↦
            returns id q e.payload (right id q c h) (rw (h, before) refl) (rw (h, after) refl)
              (λ j apart. unchanged j (other_id id j c apart) (get s.sent j) refl)
      ]

      pub complete-Change : Change Answer (view s) (view (complete o n e s))
      complete-Change = elim (Option-cases e.correlation_id) [
        | inl c ↦ idles (λ j. unchanged j (λ d. cc) (get s.sent j) refl)
        | inr (id, c) ↦ complete_one id (get s.sent id) c refl
      ]

module _ (k : Channels) (o : Oneshots) (nodes : ℕ → Node) where
  Step-Change :
      {s s' : Network k.Inbox o.Cell}
      → Sound k o nodes s
      → Step k o nodes s s'
      → Change (Answered nodes) (view o s.records) (view o s'.records)
  Step-Change v (listens n role sub i h topic e) = idles (λ j. refl)
  Step-Change {s} v (asks n target method payload id may fresh) =
      ask-Change o (Answered nodes) n s.records v.consistent target method payload id fresh
  Step-Change v (begins before after e outgoing) = idles (λ j. refl)
  Step-Change v (sends before after i rest e q chosen sent) = idles (λ j. refl)
  Step-Change v (skips before after i rest e chosen shut) = idles (λ j. refl)
  Step-Change v (serves i n e q own got) = idles (λ j. refl)
  Step-Change {s} v (completes i n e q own got) =
      complete-Change o (Answered nodes) n s.records v.consistent e
        (taken_answers k o nodes v i n e q own got)
  Step-Change v (closes r h e) = idles (λ j. refl)

  -- Brokers on one in-memory bus, in every state that their tasks reach from the start, where each
  -- request takes a correlation ID that no request had: a step of any task is a step of the abstract
  -- service. It makes one request; or it gives one request, which had no answer, what a handler of a
  -- broker with the node ID that it asked returns on its payload; or it changes nothing of what is
  -- known of the requests.
  pub steps_refine_service :
      (t : Inboxes k.Inbox) (cells : ℕ → o.Cell) (s s' : Network k.Inbox o.Cell)
      → Reach k o nodes t cells s
      → Step k o nodes s s'
      → Change (Answered nodes) (view o s.records) (view o s'.records)
  steps_refine_service t cells s s' reach step = Step-Change (Reach-Sound k o nodes reach) step
