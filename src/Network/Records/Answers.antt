-- ===== src/Network/Records/Answers.antt =====
-- The records stay consistent when a client task takes a response.
use mom_rpc.Base.{
  eq_iff, str_eq, Option-cases, Bool-cases, ==_iff, ◌==◌, arith, some, none, Option, inr, inl, ◌⊎◌,
  subst, ◌∙◌, ap, sym, refl, ◌≡◌, String, ℕ,
}
use mom_rpc.Network.Records.{Sent, Ledger, Consistent, set_at-all, complete}
use mom_rpc.Base.HashMap.{get, get-remove}
use mom_rpc.Oneshot.{Oneshots, ready}
use mom_rpc.Domain.{Bytes, Envelope}
use mom_rpc.Broker.Pending.{Pending, respond, on_response}
use mom_rpc.Broker.Pending.Answers.{Inv as PendingInv, respond-Inv}

module _ (o : Oneshots) (Answer : Sent → Bytes → Type 0) where
  -- A response reaches the channel of its correlation ID at most.
  complete_one :
      (id : String) (b : Bytes) (p : Pending o.Cell) (rx : ℕ)
      → PendingInv o p
      → ((respond o (some id) b p).cells rx ≡ p.cells rx)
        ⊎ ((get p.senders id ≡ some rx) × (o.poll ((respond o (some id) b p).cells rx) ≡ ready b))
  complete_one id b p rx w = elim (Option-cases (get p.senders id)) [
    | inl e ↦ inl (rw e)
    | inr (i, e) ↦ elim (Bool-cases (i == rx)) [
      | inl g ↦
          let same = (==_iff i rx).0 g in
          inr (e ∙ ap some same, rw (e, g) (o.poll-send (p.cells i) b (w.unanswered id i e)))
      | inr g ↦ inl (rw (e, g))
    ]
  ]

  pub complete_own :
      (a : String) (b : Bytes) (p : Pending o.Cell) (rx : ℕ)
      → PendingInv o p
      → get p.senders a ≡ some rx
      → (id : String) → id ≡ a
      → o.poll ((respond o (some id) b p).cells rx) ≡ ready b
  complete_own a b p rx w h id e = ground (arith, o.poll-send (p.cells rx) b, w.unanswered a rx)

  -- What a response does to a map: fewer senders, and an answer in the channel of
  -- its request, the only one that loses its sender.
  abbrev pub Settled : Option String → Bytes → Pending o.Cell → Pending o.Cell → Type 0
  Settled c b p p' =
      PendingInv o p'
      × (p'.next ≡ p.next)
      × ((a : String) (rx : ℕ) → get p'.senders a ≡ some rx → get p.senders a ≡ some rx)
      × ((rx : ℕ)
          → (p'.cells rx ≡ p.cells rx)
            ⊎ ((id : String) × (c ≡ some id)
                × (get p.senders id ≡ some rx)
                × (o.poll (p'.cells rx) ≡ ready b)))
      × ((a : String) (rx : ℕ)
          → get p.senders a ≡ some rx
          → (get p'.senders a ≡ some rx) ⊎ (o.poll (p'.cells rx) ≡ ready b))

  settles :
      (c : Option String) (b : Bytes) (p : Pending o.Cell)
      → PendingInv o p
      → Settled c b p (respond o c b p)
  settles none b p w = (w, refl, λ a rx h. h, λ rx. inl refl, λ a rx h. inl h)
  settles (some id) b p w = (
    respond-Inv o (some id) b p w,
    refl,
    λ a rx h. ground (arith, get-remove p.senders id a),
    λ rx. elim (complete_one id b p rx w) [ inl e ↦ inl e | inr (g, r) ↦ inr (id, refl, g, r) ],
    λ a rx h. elim (Bool-cases (str_eq id a)) [
      | inl e ↦ inr (complete_own a b p rx w h id ((eq_iff id a).0 e))
      | inr e ↦ inl (ground (arith, get-remove p.senders id a))
    ],
  )

  module _ (n : ℕ) (e : Envelope) (s : Ledger o.Cell) (v : Consistent o Answer s)
      (right : (id : String) (q : Sent)
        → e.correlation_id ≡ some id
        → get s.sent id ≡ some q
        → Answer q e.payload) where
    abbrev pub after : Ledger o.Cell
    after = complete o n e s

    -- As `settles`, for every broker.
    pub settled : (m : ℕ) → Settled e.correlation_id e.payload (s.pending m) (after.pending m)
    unfolding on_response
    settled =
        set_at-all (λ m p. Settled e.correlation_id e.payload (s.pending m) p) n
          (on_response o e (s.pending n)) s.pending
          (settles e.correlation_id e.payload (s.pending n) (v.valid n))
          (λ m. (v.valid m, refl, λ a rx h. h, λ rx. inl refl, λ a rx h. inl h))

    same_payload : {b c : Bytes} → ready b ≡ ready c → b ≡ c
    same_payload h = cc

    complete_answers :
        (a : String) (q : Sent) (b : Bytes)
        → get s.sent a ≡ some q
        → o.poll ((after.pending q.caller).cells q.rx) ≡ ready b
        → Answer q b
    complete_answers a q b g w = elim ((settled q.caller).3 q.rx) [
      | inl same ↦ v.answered a q b g (ap o.poll (sym same) ∙ w)
      | inr (id, c, sender, r) ↦
          let (p, h, caller, rx) = v.known q.caller id q.rx sender in
          let one = v.distinct id a p q h g caller rx in
          subst (Answer q) (same_payload (sym r ∙ w))
            (right id q c (subst (λ j. get s.sent j ≡ some q) (sym one) g))
    ]

    complete_accounts :
        (a : String) (q : Sent)
        → get s.sent a ≡ some q
        → (get (after.pending q.caller).senders a ≡ some q.rx)
          ⊎ ((b : Bytes) × (o.poll ((after.pending q.caller).cells q.rx) ≡ ready b))
    complete_accounts a q g = elim (v.accounted a q g) [
      | inl waits ↦ elim ((settled q.caller).4 a q.rx waits) [
        | inl still ↦ inl still
        | inr r ↦ inr (e.payload, r)
      ]
      | inr (b, w) ↦ elim ((settled q.caller).3 q.rx) [
        | inl same ↦ inr (b, ap o.poll same ∙ w)
        | inr (_, _, _, r) ↦ inr (e.payload, r)
      ]
    ]

    pub complete-Consistent : Consistent o Answer after
    complete-Consistent = record {
      valid = λ m. (settled m).0;
      known = λ m a rx h. v.known m a rx ((settled m).2 a rx h);
      made = λ a q h. rw (settled q.caller).1 (v.made a q h);
      distinct = v.distinct;
      answered = complete_answers;
      accounted = complete_accounts;
    }
