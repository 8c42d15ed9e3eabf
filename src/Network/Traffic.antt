-- ===== src/Network/Traffic.antt =====
-- What is on its way: every envelope that waits to be published or to be received is good, and one
-- that a receiving task finds in its inbox is addressed to the task.
use mom_rpc.Base.{
  Bool-cases, ==_iff, ◌==◌, All-map, All-take_out, All-append, All, arith, ◌++◌, ◌∷◌, [], List,
  some, none, Option, false, true, inr, inl, subst, ◌∙◌, ap, sym, refl, ◌≡◌, ℕ,
}
use mathlib.Core.Option.{some-injective}
use mom_rpc.Error.{Result, ok}
use mom_rpc.Network.{Node, Listener, listen, take, emit}
use mom_rpc.Network.Routing.{listens_to, subscribed}
use mom_rpc.Channels.{Channels, accepted, Inboxes}
use mom_rpc.Domain.{Envelope, Subscription}
use mom_rpc.Memory.{MemoryHub, subscribe, close, new, inbox_capacity}

module _ (k : Channels) (P : Envelope → Type 0) where
  pub offer-All :
      (q : k.Inbox) (e : Envelope) (q' : k.Inbox)
      → k.offer q e ≡ accepted q'
      → P e
      → All P (k.queued q)
      → All P (k.queued q')
  offer-All q e q' h p all = rw (k.queued-offer q e q' h) (All-append P _ (e ∷ []) all (p, tt))

  -- What is left after the first message, and that message.
  pub recv-All :
      (q : k.Inbox) (e : Envelope) (q' : k.Inbox)
      → k.recv q ≡ some (e, q')
      → All P (k.queued q)
      → P e × All P (k.queued q')
  recv-All q e q' h all = subst (All P) (k.queued-recv q e q' h) all

module _ (nodes : ℕ → Node) (k : Channels) where
  abbrev pub Delivered : (Envelope → Type 0) → Listener → Envelope → Type 0
  Delivered Good l e = Good e × (e.address.name ≡ listens_to nodes l)

  pub record Carried (Good : Envelope → Type 0) (h : MemoryHub k.Inbox)
      (owner : ℕ → Option Listener) (outgoing : List Envelope) : Type 0 where
    pub queues :
        (i : ℕ) (l : Listener)
        → owner i ≡ some l
        → All (Delivered Good l) (k.queued (h.inboxes.cell i))
    pub waiting : All Good outgoing

  pub new-Carried :
      (Good : Envelope → Type 0) (t : Inboxes k.Inbox) → Carried Good (new k t) (λ i. none) []
  new-Carried Good t = record { queues = λ i l h. absurd (cc); waiting = tt }

  -- More envelopes become good.
  pub Carried-map :
      (Good Better : Envelope → Type 0) (h : MemoryHub k.Inbox) (owner : ℕ → Option Listener)
      (outgoing : List Envelope)
      → ((e : Envelope) → Good e → Better e)
      → Carried Good h owner outgoing
      → Carried Better h owner outgoing
  Carried-map Good Better h owner outgoing f v = record {
    queues = λ i l o. All-map _ _ _ (λ e (g, a). (f e g, a)) (v.queues i l o);
    waiting = All-map _ _ outgoing f v.waiting;
  }

  module _ (Good : Envelope → Type 0) (owner : ℕ → Option Listener) (outgoing : List Envelope) where
    pub subscribe-Carried :
        (l : Listener) (sub : Subscription) (i : ℕ) (h h' : MemoryHub k.Inbox)
        → subscribe k sub h ≡ some (ok i, h')
        → Carried Good h owner outgoing
        → Carried Good h' (listen i l owner) outgoing
    subscribe-Carried l sub i h h' e v =
        let (new, _, cells, _) = subscribed nodes k owner sub i h h' e in
        record {
          queues = λ j m o. elim (Bool-cases (i == j)) [
            | inl g ↦
                let here : (h.inboxes.next == j) ≡ true = rw new at g in
                rw (cells j, here, k.queued-channel inbox_capacity) tt
            | inr g ↦
                let other : (h.inboxes.next == j) ≡ false = rw new at g in
                rw (cells j, other) (v.queues j m (rw g at o))
          ];
          waiting = v.waiting;
        }

    pub begin-Carried :
        (before after : List Envelope) (e : Envelope) (h : MemoryHub k.Inbox)
        → outgoing ≡ before ++ e ∷ after
        → Carried Good h owner outgoing
        → Good e × Carried Good h owner (before ++ after)
    begin-Carried before after e h o v =
        let (good, rest) = All-take_out Good before e after (subst (All Good) o v.waiting) in
        (good, record { queues = v.queues; waiting = rest })

    pub send-Carried :
        (i : ℕ) (e : Envelope) (q : k.Inbox) (h : MemoryHub k.Inbox)
        → k.offer (h.inboxes.cell i) e ≡ accepted q
        → Good e
        → ((l : Listener) → owner i ≡ some l → e.address.name ≡ listens_to nodes l)
        → Carried Good h owner outgoing
        → Carried Good (take i q h) owner outgoing
    send-Carried i e q h sent good heads v = record {
      queues = λ j m o. elim (Bool-cases (i == j)) [
        | inl g ↦
            let own = ap owner ((==_iff i j).0 g) ∙ o in
            rw g (offer-All k (Delivered Good m) _ e q sent (good, heads m own) (v.queues i m own))
        | inr g ↦ rw g (v.queues j m o)
      ];
      waiting = v.waiting;
    }

    pub take-Carried :
        (i : ℕ) (l : Listener) (e : Envelope) (q : k.Inbox) (h : MemoryHub k.Inbox)
        → owner i ≡ some l
        → k.recv (h.inboxes.cell i) ≡ some (e, q)
        → Carried Good h owner outgoing
        → Delivered Good l e × Carried Good (take i q h) owner outgoing
    take-Carried i l e q h own got v =
        let (first, rest) = recv-All k (Delivered Good l) _ e q got (v.queues i l own) in
        (
          first,
          record {
            queues = λ j m o. elim (Bool-cases (i == j)) [
              | inl g ↦
                  let same : l ≡ m =
                    some-injective _ _ (sym own ∙ ap owner ((==_iff i j).0 g) ∙ o) in
                  rw g (subst (λ a. All (Delivered Good a) (k.queued q)) same rest)
              | inr g ↦ rw g (v.queues j m o)
            ];
            waiting = v.waiting;
          },
        )

    pub kept_inboxes :
        (r : Result (Unit {0})) (h h' : MemoryHub k.Inbox)
        → close k h ≡ some (r, h')
        → h.inboxes ≡ h'.inboxes
    unfolding close
    kept_inboxes r h h' e = ground arith

    pub close-Carried :
        (r : Result (Unit {0})) (h h' : MemoryHub k.Inbox)
        → close k h ≡ some (r, h')
        → Carried Good h owner outgoing
        → Carried Good h' owner outgoing
    close-Carried r h h' e v = record {
      queues = λ i l o.
          subst (λ (t : Inboxes k.Inbox). All (Delivered Good l) (k.queued (t.cell i)))
            (kept_inboxes r h h' e) (v.queues i l o);
      waiting = v.waiting;
    }

    pub emit-Carried :
        (e : Option Envelope) (h : MemoryHub k.Inbox)
        → ((x : Envelope) → e ≡ some x → Good x)
        → Carried Good h owner outgoing
        → Carried Good h owner (emit e outgoing)
    emit-Carried none h good v = v
    emit-Carried (some x) h good v = record {
      queues = v.queues;
      waiting = All-append Good outgoing (x ∷ []) v.waiting (good x refl, tt);
    }
