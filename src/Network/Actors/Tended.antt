-- ===== src/Network/Actors/Tended.antt =====
-- The inboxes of one broker's map: what stands in them, and to which topics they are subscribed.
use mom_rpc.Base.{
  Bool-cases, ==_iff, if◌then◌else◌, ◌==◌, All-map, All, eq_iff, arith, [], some, none, Option,
  true, inr, inl, subst, ◌∙◌, ap, sym, refl, ◌≡◌, String, ◌<◌, suc, zero, ℕ,
}
use mom_rpc.Network.Traffic.{offer-All, recv-All}
use mom_rpc.Channels.{
  after_offer, entry_push, accepted, full, closed, Offer, write, Channels, count,
}
use mathlib.Core.Option.{some-injective}
use mom_rpc.Memory.Delivery.{offered}
use mom_rpc.Network.Actors.Handing.{HandsOut, HandsOut-Inv}
use mom_rpc.FanOut.Reachable.{add_subscriber-Inv, count-entry_push, Inv}
use mom_rpc.FanOut.Delivery.{senders_of}
use mom_rpc.FanOut.{add_subscriber, Local}
use mom_rpc.Base.HashMap.{get}
use mom_rpc.Domain.{Envelope}
use mom_rpc.Network.{Role, topic_of}

module _ (k : Channels) (node_id : String) where
  -- An inbox that a receiving task owns holds good envelopes that are addressed to the task, and is
  -- subscribed to the topic of the task only.
  pub record Tended (Good : Envelope → Type 0) (owner : ℕ → Option Role) (l : Local k.Inbox)
      : Type 0 where
    pub map : Inv l
    pub made : (i : ℕ) (role : Role) → owner i ≡ some role → i < l.inboxes.next
    pub topics :
        (i : ℕ) (role : Role) (topic : String)
        → owner i ≡ some role
        → 0 < count i (senders_of l.subscribers topic)
        → topic ≡ topic_of role node_id
    pub queues :
        (i : ℕ) (role : Role)
        → owner i ≡ some role
        → All (λ e. Good e × (e.address.name ≡ topic_of role node_id)) (k.queued (l.inboxes.cell i))

  pub Tended-map :
      (Good Better : Envelope → Type 0) (owner : ℕ → Option Role) (l : Local k.Inbox)
      → ((e : Envelope) → Good e → Better e)
      → Tended Good owner l
      → Tended Better owner l
  Tended-map Good Better owner l f v = record {
    map = v.map;
    made = v.made;
    topics = v.topics;
    queues = λ i role o. All-map _ _ _ (λ e (g, a). (f e g, a)) (v.queues i role o);
  }

  offered-All :
      (P : Envelope → Type 0) (e : Envelope) (n : ℕ) (q : k.Inbox)
      → (0 < n → P e)
      → All P (k.queued q)
      → All P (k.queued (offered k e n q))
  offered-All P e zero q h all = all
  offered-All P e (suc n) q h all =
      offered-All P e n _ (λ m. h (omega arith)) (after_offer-All (k.offer q e) refl)
    where
      after_offer-All : (o : Offer k.Inbox) → k.offer q e ≡ o → All P (k.queued (after_offer q o))
      after_offer-All (accepted q') g = offer-All k P q e q' g (h (omega arith)) all
      after_offer-All full g = all
      after_offer-All closed g = all

  module _ (Good : Envelope → Type 0) (owner : ℕ → Option Role) where
    pub no_owner-Tended : (l : Local k.Inbox) → l.subscribers ≡ [] → Tended Good (λ i. none) l
    unfolding get
    no_owner-Tended l empty = record {
      map = record { fresh = λ topic i h. rw empty refl; once = λ topic i. rw empty (omega arith) };
      made = λ i role h. absurd (cc);
      topics = λ i role topic h. absurd (cc);
      queues = λ i role h. absurd (cc);
    }

    abbrev owned : Role → ℕ → ℕ → Option Role
    owned role j i = if j == i then some role else owner i

    new_topic :
        (topic : String) (l : Local k.Inbox) (j : ℕ) (t : String)
        → (l.inboxes.next == j) ≡ true
        → Tended Good owner l
        → 0 < count j (senders_of (entry_push l.subscribers topic l.inboxes.next) t)
        → t ≡ topic
    new_topic topic l j t g v c = ground (
      arith,
      eq_iff topic t,
      v.map.fresh t j,
      count-entry_push l.subscribers topic l.inboxes.next t j,
    )

    pub add_subscriber-Tended :
        (role : Role) (topic : String) (l : Local k.Inbox)
        → topic ≡ topic_of role node_id
        → Tended Good owner l
        → Tended Good (owned role (add_subscriber k topic l).0) (add_subscriber k topic l).1
    unfolding add_subscriber
    add_subscriber-Tended role topic l own v =
        let n = l.inboxes.next in
        record {
          map = add_subscriber-Inv k topic l v.map;
          made = λ j r o. elim (Bool-cases (n == j)) [
            | inl g ↦ omega (arith, (==_iff n j).0 g)
            | inr g ↦ omega (arith, v.made j r (rw g at o))
          ];
          topics = λ j r t o c. elim (Bool-cases (n == j)) [
            | inl g ↦
                let same : role ≡ r = some-injective _ _ (rw g at o) in
                new_topic topic l j t g v c ∙ own ∙ ap (λ x. topic_of x node_id) same
            | inr g ↦
                v.topics j r t (rw g at o)
                  (ground (arith, count-entry_push l.subscribers topic n t j))
          ];
          queues = λ j r o. elim (Bool-cases (n == j)) [
            | inl g ↦ rw (g, k.queued-channel 16) tt
            | inr g ↦ rw g (v.queues j r (rw g at o))
          ];
        }

    pub HandsOut-Tended :
        (topic : String) (e : Envelope) (l l' : Local k.Inbox)
        → Good e
        → e.address.name ≡ topic
        → HandsOut k topic e l l'
        → Tended Good owner l
        → Tended Good owner l'
    HandsOut-Tended topic e l l' good to h v = record {
      map = HandsOut-Inv k topic e l l' v.map h;
      made = λ i r o. rw h.next (v.made i r o);
      topics = λ i r t o c. v.topics i r t o (ground (arith, h.fewer i t));
      queues = λ i r o. rw (h.cells i) (
          offered-All (λ x. Good x × (x.address.name ≡ topic_of r node_id)) e
            (count i (senders_of l.subscribers topic)) _ (λ c. (good, to ∙ v.topics i r topic o c))
            (v.queues i r o));
    }

    pub take-Tended :
        (i : ℕ) (role : Role) (e : Envelope) (q : k.Inbox) (l : Local k.Inbox)
        → owner i ≡ some role
        → k.recv (l.inboxes.cell i) ≡ some (e, q)
        → Tended Good owner l
        → (Good e × (e.address.name ≡ topic_of role node_id))
          × Tended Good owner (record l { inboxes = write l.inboxes i q })
    take-Tended i role e q l own got v =
        let (first, rest) =
          recv-All k (λ x. Good x × (x.address.name ≡ topic_of role node_id)) _ e q got
            (v.queues i role own) in
        (
          first,
          record {
            map = record { fresh = v.map.fresh; once = v.map.once };
            made = v.made;
            topics = v.topics;
            queues = λ j r o. elim (Bool-cases (i == j)) [
              | inl g ↦
                  let same : role ≡ r =
                    some-injective _ _ (sym own ∙ ap owner ((==_iff i j).0 g) ∙ o) in
                  rw g (
                    subst
                      (λ x. All (λ y. Good y × (y.address.name ≡ topic_of x node_id)) (k.queued q))
                      same rest)
              | inr g ↦ rw g (v.queues j r o)
            ];
          },
        )
