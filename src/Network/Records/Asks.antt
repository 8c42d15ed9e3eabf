-- ===== src/Network/Records/Asks.antt =====
-- The records stay consistent when a request is made.
use mom_rpc.Base.{
  Option-cases, Bool-cases, eq_iff, str_eq, arith, some, none, inr, inl, ◌⊎◌, ◌≢◌, subst, ◌∙◌, ap,
  sym, refl, ◌≡◌, String, ◌<◌, ◌≤◌, ℕ,
}
use mom_rpc.Network.Records.{Sent, Ledger, Consistent, set_at-all, ask}
use mom_rpc.Base.HashMap.{get, insert, get-insert, HashMap}
use mom_rpc.Oneshot.{Oneshots, ready, waiting}
use mom_rpc.Domain.{Bytes}
use mom_rpc.Broker.Pending.{register}
use mom_rpc.Broker.Pending.Answers.{Inv as PendingInv, register-Inv, get-register}

inserted :
    (m : HashMap Sent) (id a : String) (x q : Sent)
    → get (insert m id x) a ≡ some q
    → ((a ≡ id) × (q ≡ x)) ⊎ (get m a ≡ some q)
inserted m id a x q h = elim (Bool-cases (str_eq id a)) [
  | inl e ↦ inl (ground (arith, eq_iff id a), ground (arith, get-insert m id x a))
  | inr e ↦ inr (ground (arith, get-insert m id x a))
]

pub get-insert_same : (m : HashMap Sent) (id : String) (x : Sent) → get (insert m id x) id ≡ some x
get-insert_same m id x = ground (arith, get-insert m id x id, eq_iff id id)

pub get-insert_apart :
    (m : HashMap Sent) (id a : String) (x : Sent) → a ≢ id → get (insert m id x) a ≡ get m a
get-insert_apart m id a x apart = ground (arith, get-insert m id x a, eq_iff id a)

pub get-insert_other :
    (m : HashMap Sent) (id a : String) (x q : Sent)
    → get m id ≡ none
    → get m a ≡ some q
    → get (insert m id x) a ≡ some q
get-insert_other m id a x q fresh h = ground (arith, get-insert m id x a, eq_iff id a)

module _ (o : Oneshots) (Answer : Sent → Bytes → Type 0) where
  module _ (n : ℕ) (target method : String) (payload : Bytes) (id : String) (s : Ledger o.Cell)
      (v : Consistent o Answer s) (fresh : get s.sent id ≡ none) where
    abbrev asked : Ledger o.Cell
    asked = ask o n target method payload id s

    unknown : get (s.pending n).senders id ≡ none
    unknown = elim (Option-cases (get (s.pending n).senders id)) [
      | inl e ↦ e
      | inr (rx, e) ↦ absurd (let (q, g, _, _) = v.known n id rx e in cc)
    ]

    -- The channels made before are as they were, and the new one waits.
    pub kept :
        (m : ℕ)
        → ((s.pending m).next ≤ (asked.pending m).next)
          × ((i : ℕ) → i < (s.pending m).next → (asked.pending m).cells i ≡ (s.pending m).cells i)
    unfolding register
    kept =
        set_at-all
          (λ m p.
            ((s.pending m).next ≤ p.next)
            × ((i : ℕ) → i < (s.pending m).next → p.cells i ≡ (s.pending m).cells i))
          n (register o id (s.pending n)) s.pending (omega arith, λ i l. rw unknown (ground arith))
          (λ m. (omega arith, λ i l. refl))

    abbrev new : Sent
    new = record {
      caller = n;
      rx = (s.pending n).next;
      target = target;
      method = method;
      payload = payload;
    }

    -- The new channel waits, and there is room for it.
    pub new_channel :
        (rx : ℕ)
        → rx ≡ (s.pending n).next
        → (rx < (asked.pending n).next) × (o.poll ((asked.pending n).cells rx) ≡ waiting)
    unfolding register
    new_channel rx e = (ground arith, ground (arith, o.poll-channel))

    knows_new :
        (a : String) (rx : ℕ)
        → get (register o id (s.pending n)).senders a ≡ some rx
        → (q : Sent) × (get asked.sent a ≡ some q) × (q.caller ≡ n) × (q.rx ≡ rx)
    knows_new a rx h = elim (Bool-cases (str_eq id a)) [
      | inl e ↦ (
        new,
        ground (arith, get-insert s.sent id new a),
        refl,
        ground (arith, get-register o id (s.pending n) a),
      )
      | inr e ↦
          let (q, g, c, r) = v.known n a rx (ground (arith, get-register o id (s.pending n) a)) in
          (q, get-insert_other s.sent id a new q fresh g, c, r)
    ]

    ask_knows :
        (m : ℕ) (a : String) (rx : ℕ)
        → get (asked.pending m).senders a ≡ some rx
        → (q : Sent) × (get asked.sent a ≡ some q) × (q.caller ≡ m) × (q.rx ≡ rx)
    ask_knows =
        set_at-all
          (λ m p.
            (a : String) (rx : ℕ)
            → get p.senders a ≡ some rx
            → (q : Sent) × (get asked.sent a ≡ some q) × (q.caller ≡ m) × (q.rx ≡ rx))
          n (register o id (s.pending n)) s.pending knows_new
          (λ m a rx h.
            let (q, g, c, r) = v.known m a rx h in
            (q, get-insert_other s.sent id a new q fresh g, c, r))

    ask_makes :
        (a : String) (q : Sent) → get asked.sent a ≡ some q → q.rx < (asked.pending q.caller).next
    ask_makes a q h = elim (inserted s.sent id a new q h) [
      | inl (_, e) ↦
          subst (λ (x : Sent). x.rx < (asked.pending x.caller).next) (sym e) (new_channel _ refl).0
      | inr g ↦ omega (arith, v.made a q g, (kept q.caller).0)
    ]

    -- No request before had the new channel.
    not_new :
        (b : String) (q : Sent) → get s.sent b ≡ some q → q.caller ≡ n → q.rx ≢ (s.pending n).next
    not_new b q g c r =
        let l = subst (λ m. q.rx < (s.pending m).next) c (v.made b q g) in absurd (omega arith)

    ask_separates :
        (a b : String) (p q : Sent)
        → get asked.sent a ≡ some p
        → get asked.sent b ≡ some q
        → p.caller ≡ q.caller
        → p.rx ≡ q.rx
        → a ≡ b
    ask_separates a b p q h g c r = elim (inserted s.sent id a new p h) [
      | inl (ea, ep) ↦ elim (inserted s.sent id b new q g) [
        | inl (eb, _) ↦ ea ∙ sym eb
        | inr old ↦ absurd (
            not_new b q old (sym c ∙ ap (λ (x : Sent). x.caller) ep)
              (sym r ∙ ap (λ (x : Sent). x.rx) ep))
      ]
      | inr old_a ↦ elim (inserted s.sent id b new q g) [
        | inl (_, eq) ↦ absurd (
            not_new a p old_a (c ∙ ap (λ (x : Sent). x.caller) eq) (r ∙ ap (λ (x : Sent). x.rx) eq))
        | inr old ↦ v.distinct a b p q old_a old c r
      ]
    ]

    ask_answers :
        (a : String) (q : Sent) (b : Bytes)
        → get asked.sent a ≡ some q
        → o.poll ((asked.pending q.caller).cells q.rx) ≡ ready b
        → Answer q b
    ask_answers a q b h w = elim (inserted s.sent id a new q h) [
      | inl (_, e) ↦
          let waits =
            subst (λ (x : Sent). o.poll ((asked.pending x.caller).cells x.rx) ≡ waiting) (sym e)
              (new_channel _ refl).1 in
          absurd (cc)
      | inr g ↦ v.answered a q b g (ap o.poll (sym ((kept q.caller).1 q.rx (v.made a q g))) ∙ w)
    ]

    -- The new sender is in the caller's map, and no other goes away.
    keeps_senders :
        (m : ℕ) (a : String) (rx : ℕ)
        → get (s.pending m).senders a ≡ some rx
        → get (asked.pending m).senders a ≡ some rx
    keeps_senders =
        set_at-all
          (λ m p.
            (a : String) (rx : ℕ)
            → get (s.pending m).senders a ≡ some rx
            → get p.senders a ≡ some rx)
          n (register o id (s.pending n)) s.pending
          (λ a rx h. ground (arith, get-register o id (s.pending n) a, eq_iff id a, unknown))
          (λ m a rx h. h)

    new_sender : (a : String) → a ≡ id → get (asked.pending n).senders a ≡ some (s.pending n).next
    new_sender a e = ground (arith, get-register o id (s.pending n) a, eq_iff id a)

    ask_accounts :
        (a : String) (q : Sent)
        → get asked.sent a ≡ some q
        → (get (asked.pending q.caller).senders a ≡ some q.rx)
          ⊎ ((b : Bytes) × (o.poll ((asked.pending q.caller).cells q.rx) ≡ ready b))
    ask_accounts a q h = elim (inserted s.sent id a new q h) [
      | inl (same, e) ↦ inl (
          subst (λ (x : Sent). get (asked.pending x.caller).senders a ≡ some x.rx) (sym e)
            (new_sender a same))
      | inr g ↦ elim (v.accounted a q g) [
        | inl waits ↦ inl (keeps_senders q.caller a q.rx waits)
        | inr (b, w) ↦ inr (b, ap o.poll ((kept q.caller).1 q.rx (v.made a q g)) ∙ w)
      ]
    ]

    pub ask-Consistent : Consistent o Answer asked
    ask-Consistent = record {
      valid =
          set_at-all (λ m p. PendingInv o p) n _ s.pending (register-Inv o id _ (v.valid n))
            v.valid;
      known = ask_knows;
      made = ask_makes;
      distinct = ask_separates;
      answered = ask_answers;
      accounted = ask_accounts;
    }
