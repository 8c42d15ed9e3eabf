-- ===== src/Network/Actors/Publishing.antt =====
-- What a caller is given by the publish of its request and by the channel that it awaits then
-- (request_to_inner_with_timeout in src/broker.rs).
use mom_rpc.Base.{
  Option-cases, Bool-cases, str_eq, eq_iff, some, none, Bool, inr, inl, ◌⊎◌, subst, ◌∙◌, sym, refl,
  ◌≡◌, String, ℕ,
}
use mathlib.Core.Option.{some-injective}
use mom_rpc.Base.HashMap.{HashMap, get, insert, get-insert}
use mom_rpc.Error.{Result, ok, err, transport}
use mom_rpc.Domain.{Bytes, Duration}
use mom_rpc.Calls.{Call, refused, dropped, answered, Ends}
use mom_rpc.Channels.{Channels}
use mom_rpc.Oneshot.{Oneshots, Poll}
use mom_rpc.Network.{Node}
use mom_rpc.Broker.Pending.{meanwhile}
use mom_rpc.Broker.Request.{Session, Environment, received, await_response}
use mom_rpc.Network.Envelopes.{Answered}
use mom_rpc.Network.Records.{Sent}
use mom_rpc.Network.Records.Asks.{get-insert_other}
use mom_rpc.Network.Records.States.{WaitsOrAnswered}
use mom_rpc.Network.Actors.{
  ActorTransport, Fleet, Step, Reach, listens, asks, selects, answers, refuses, drops, serves,
  completes, start, later, envelope_of,
}

-- By the result of `publish` and by the state of the channel when the wait ends.
abbrev pub given : Oneshots → Bool → Result (Unit {0}) → Poll → Result Bytes
given o retries (err e) p = err e
given o retries (ok _) p = received o retries p

await_response-given :
    (o : Oneshots) {W : Type 0} (env : Environment W) (retries : Bool) (wait : Duration) (rx : ℕ)
    (s : Session o.Cell W) (r : Result (Unit {0}))
    → (await_response o env retries wait rx s r).0
      ≡ given o retries r (o.poll ((meanwhile o (env.during s.attempt wait) s.pending).cells rx))
await_response-given o env retries wait rx s (err e) = refl
await_response-given o env retries wait rx s (ok _) = refl

module _ (k : Channels) (t : ActorTransport k) (nodes : ℕ → Node) where
  -- How the publish of a request can end: its command is refused, or its responder dropped, or the actor,
  -- in some state, answers what it has to answer to the request's envelope.
  abbrev pub EndsBy : String → Sent → Call (Result (Unit {0})) → Type 0
  EndsBy id q call =
      ((text : String) × (call ≡ refused text))
      ⊎ ((text : String) × (call ≡ dropped text))
      ⊎ ((a : t.State) × (call ≡ answered (t.answer (envelope_of nodes id q) a)))

  -- The publish of a request ended so.
  abbrev Ended : HashMap Sent → String → Call (Result (Unit {0})) → Type 0
  Ended sent id call = (q : Sent) × (get sent id ≡ some q) × EndsBy id q call

  insert-Ended :
      (calls : HashMap (Call (Result (Unit {0})))) (sent : HashMap Sent) (i : String)
      (c : Call (Result (Unit {0})))
      → Ended sent i c
      → ((j : String) (d : Call (Result (Unit {0}))) → get calls j ≡ some d → Ended sent j d)
      → (j : String) (d : Call (Result (Unit {0}))) → get (insert calls i c) j ≡ some d
      → Ended sent j d
  insert-Ended calls sent i c new old j d h = elim (Bool-cases (str_eq i j)) [
    | inl e ↦
        let same : c ≡ d = some-injective _ _ (rw (get-insert calls i c j, e) at h) in
        let here : i ≡ j = (eq_iff i j).0 e in
        subst (λ x. Ended sent x d) here (subst (Ended sent i) same new)
    | inr e ↦ old j d (rw (get-insert calls i c j, e) at h)
  ]

  ask-Ended :
      (sent : HashMap Sent) (i : String) (q : Sent) (j : String) (d : Call (Result (Unit {0})))
      → get sent i ≡ none
      → Ended sent j d
      → Ended (insert sent i q) j d
  ask-Ended sent i q j d fresh (r, made, by) = (r, get-insert_other sent i j q r fresh made, by)

module _ (k : Channels) (t : ActorTransport k) (o : Oneshots) (nodes : ℕ → Node) where
  -- The publish of a request is still awaited. Or it has ended. If it failed, its error Transport is the
  -- caller's result, whatever the channel holds and whether the broker retries or not. If it returned
  -- Ok, the request waits or is answered, which is the caller's result when its wait ends.
  abbrev pub Progress : Fleet t.State o.Cell → String → Sent → Bool → Type 0
  Progress s id q retries =
      (get s.calls id ≡ none)
      ⊎ (call : Call (Result (Unit {0}))) × (get s.calls id ≡ some call)
        × EndsBy k t nodes id q call
        × (((text : String) × ((p : Poll)
                → given o retries (t.publish (nodes q.caller).node_id call) p
                  ≡ err (transport text)))
            ⊎ ((p : Poll)
                → given o retries (t.publish (nodes q.caller).node_id call) p
                  ≡ received o retries p)
              × WaitsOrAnswered o (Answered nodes) s.records id q retries)

module _ (k : Channels) (t : ActorTransport k) (o : Oneshots) (nodes : ℕ → Node)
    (cells : ℕ → o.Cell) where
  abbrev Recorded : Fleet t.State o.Cell → Type 0
  Recorded s =
      (id : String) (call : Call (Result (Unit {0})))
      → get s.calls id ≡ some call
      → Ended k t nodes s.records.sent id call

  Step-Recorded : {s s' : Fleet t.State o.Cell} → Recorded s → Step k t o nodes s s' → Recorded s'
  Step-Recorded v (listens n role sub topic) = v
  Step-Recorded {s} v (asks n target method payload id may fresh) =
      λ j call h. ask-Ended k t nodes s.records.sent id _ j call fresh (v j call h)
  Step-Recorded v (selects n i known wired) = v
  Step-Recorded {s} v (answers i id q sent open_ sends takes known) =
      insert-Ended k t nodes s.calls s.records.sent id _
        (q, sent, inr (inr ((s.members q.caller).actor, refl))) v
  Step-Recorded {s} v (refuses id q text sent open_) =
      insert-Ended k t nodes s.calls s.records.sent id _ (q, sent, inl (text, refl)) v
  Step-Recorded {s} v (drops id q text sent open_) =
      insert-Ended k t nodes s.calls s.records.sent id _ (q, sent, inr (inl (text, refl))) v
  Step-Recorded v (serves n i e q own got) = v
  Step-Recorded v (completes n i e q own got) = v

  Reach-Recorded : {s : Fleet t.State o.Cell} → Reach k t o nodes cells s → Recorded s
  unfolding get
  Reach-Recorded (start actors empty unwritten) id call h = absurd (cc h)
  Reach-Recorded (later r step) id call h = Step-Recorded (Reach-Recorded r) step id call h

  EndsBy-Ends :
      (node_id id : String) (q : Sent) (call : Call (Result (Unit {0})))
      → EndsBy k t nodes id q call
      → Ends (t.publish node_id call)
  EndsBy-Ends node_id id q call (inl (text, e)) = rw e (t.refused-Ends node_id text)
  EndsBy-Ends node_id id q call (inr (inl (text, e))) = rw e (t.dropped-Ends node_id text)
  EndsBy-Ends node_id id q call (inr (inr (a, e))) = rw e (t.answer-Ends node_id _ a)

  pub progress :
      (s : Fleet t.State o.Cell) (id : String) (q : Sent) (retries : Bool)
      → Reach k t o nodes cells s
      → get s.records.sent id ≡ some q
      → WaitsOrAnswered o (Answered nodes) s.records id q retries
      → Progress k t o nodes s id q retries
  progress s id q retries reach sent waits = elim (Option-cases (get s.calls id)) [
    | inl open_ ↦ inl open_
    | inr (call, made) ↦
        let (r, known, from) = Reach-Recorded reach id call made in
        let same : r ≡ q = some-injective _ _ (sym known ∙ sent) in
        let by = subst (λ x. EndsBy k t nodes id x call) same from in
        elim (EndsBy-Ends (nodes q.caller).node_id id q call by) [
          | inl done_ ↦ inr (call, made, by, inr (λ p. rw done_ refl, waits))
          | inr (text, failed) ↦ inr (call, made, by, inl (text, λ p. rw failed refl))
        ]
  ]
