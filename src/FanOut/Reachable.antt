-- ===== src/FanOut/Reachable.antt =====
-- The invariant of a map of local subscribers, and what a subscription can rely on.
use mom_rpc.Base.{
  Option-cases, if◌then◌else◌, ◌==◌, eq_iff, str_eq, arith, ◌++◌, ◌∷◌, [], List, inr, inl, ◌∙◌, ap,
  refl, ◌≡◌, String, ◌≤◌, ◌+◌, ℕ,
}
use mom_rpc.Domain.{Envelope}
use mom_rpc.Base.HashMap.{HashMap, get}
use mom_rpc.Channels.{
  Channels, Inboxes, Offer, accepted, full, closed, write, count, count-append, entry_push,
}
use mom_rpc.Memory.Delivery.{offered}
use mom_rpc.FanOut.{Local, fan_out, hand_out, add_subscriber}
use mom_rpc.FanOut.Delivery.{senders_of, hand_out-evicts}

-- An inbox is in the list of a topic once at most, and only after it was made.
pub record Inv {Q : Type 0} (l : Local Q) : Type 0 where
  pub fresh :
      (topic : String) (i : ℕ) → l.inboxes.next ≤ i → count i (senders_of l.subscribers topic) ≡ 0
  pub once : (topic : String) (i : ℕ) → count i (senders_of l.subscribers topic) ≤ 1

pub count-entry_push :
    (m : HashMap (List ℕ)) (k : String) (x : ℕ) (topic : String) (i : ℕ)
    → count i (senders_of (entry_push m k x) topic)
      ≡ count i (senders_of m topic) + (if str_eq k topic then (if i == x then 1 else 0) else 0)
unfolding entry_push get
count-entry_push [] k x topic i = ground arith
count-entry_push ((j, l) ∷ m) k x topic i = ground (
  arith,
  eq_iff j k,
  eq_iff j topic,
  eq_iff k topic,
  count-append i l (x ∷ []),
  count-entry_push m k x topic i,
)

module _ (k : Channels) where
  -- What subscribers and messages do to the map, one after the other.
  pub data Reach (l : Local k.Inbox) : Local k.Inbox → Type 0 where
    here : Reach l l
    subscribes :
        {m : Local k.Inbox} (topic : String) → Reach l m → Reach l (add_subscriber k topic m).1
    hands_out :
        {m : Local k.Inbox} (topic : String) (env : Envelope)
        → Reach l m
        → Reach l (hand_out k topic env m)

  pub no_subscribers-Inv : (t : Inboxes k.Inbox) → Inv (record { subscribers = []; inboxes = t })
  unfolding get
  no_subscribers-Inv t = record { fresh = λ topic i h. refl; once = λ topic i. omega arith }

  pub add_subscriber-Inv :
      (topic : String) (l : Local k.Inbox) → Inv l → Inv (add_subscriber k topic l).1
  unfolding add_subscriber
  add_subscriber-Inv topic l v = record {
    fresh = λ t i h.
        ground (arith, v.fresh t i, count-entry_push l.subscribers topic l.inboxes.next t i);
    once = λ t i.
        ground
          (arith, v.fresh t i, v.once t i, count-entry_push l.subscribers topic l.inboxes.next t i);
  }

  fan_out-next :
      (senders : List ℕ) (env : Envelope) (t : Inboxes k.Inbox)
      → (fan_out k senders env t).1.next ≡ t.next
  unfolding fan_out
  fan_out-next [] env t = refl
  fan_out-next (i ∷ senders) env t =
      go (λ u. fan_out-next senders env u) (k.offer (t.cell i) env) refl
    where
      go :
          ((u : Inboxes k.Inbox) → (fan_out k senders env u).1.next ≡ u.next)
          → (o : Offer k.Inbox) → k.offer (t.cell i) env ≡ o
          → (fan_out k (i ∷ senders) env t).1.next ≡ t.next
      go ih (accepted q) e = rw (e, fan_out) (ih (write t i q))
      go ih full e = rw (e, fan_out) (ih t)
      go ih closed e = rw (e, fan_out) (ih t)

  pub hand_out-next :
      (topic : String) (env : Envelope) (l : Local k.Inbox)
      → (hand_out k topic env l).inboxes.next ≡ l.inboxes.next
  unfolding hand_out
  hand_out-next topic env l = elim (Option-cases (get l.subscribers topic)) [
    | inl e ↦ rw e refl
    | inr (senders, e) ↦ rw e (fan_out-next senders env l.inboxes)
  ]

  pub hand_out-Inv :
      (topic : String) (env : Envelope) (l : Local k.Inbox) → Inv l → Inv (hand_out k topic env l)
  hand_out-Inv topic env l v = record {
    fresh = λ t i h. ground (
      arith,
      hand_out-next topic env l,
      v.fresh t i,
      (hand_out-evicts k topic env l i t (v.once topic i)).1,
    );
    once =
        λ t i. ground (arith, v.once t i, (hand_out-evicts k topic env l i t (v.once topic i)).1);
  }

  pub Reach-Inv : {l m : Local k.Inbox} → Inv l → Reach l m → Inv m
  Reach-Inv v here = v
  Reach-Inv v (subscribes topic r) = add_subscriber-Inv topic _ (Reach-Inv v r)
  Reach-Inv v (hands_out topic env r) = hand_out-Inv topic env _ (Reach-Inv v r)

  -- The new inbox is subscribed once, and empty.
  pub new_subscriber :
      (topic : String) (l : Local k.Inbox)
      → Inv l
      → (count
            (add_subscriber k topic l).0
            (senders_of (add_subscriber k topic l).1.subscribers topic)
          ≡ 1)
        × ((add_subscriber k topic l).1.inboxes.cell (add_subscriber k topic l).0 ≡ k.channel 16)
  unfolding add_subscriber
  new_subscriber topic l v =
      let i = l.inboxes.next in
      (
        ground (
          arith,
          v.fresh topic i,
          count-entry_push l.subscribers topic i topic i,
          eq_iff topic topic,
        ),
        ground arith,
      )

  offer_once :
      (env : Envelope) (q q' : k.Inbox)
      → k.offer q env ≡ accepted q'
      → k.queued (offered k env 1 q) ≡ k.queued q ++ env ∷ []
  offer_once env q q' e = rw e (k.queued-offer q env q' e)

  -- From no subscribers on, after any subscriptions and messages: the inbox of a new subscription
  -- holds the first message that is handed out to its topic, and only it, and stays subscribed.
  pub add_subscriber-hand_out :
      (t : Inboxes k.Inbox) (l : Local k.Inbox) (topic : String) (env : Envelope)
      → Reach (record { subscribers = []; inboxes = t }) l
      → (k.queued (
            (hand_out k topic env (add_subscriber k topic l).1).inboxes.cell
              (add_subscriber k topic l).0)
          ≡ env ∷ [])
        × (count
              (add_subscriber k topic l).0
              (senders_of (hand_out k topic env (add_subscriber k topic l).1).subscribers topic)
            ≡ 1)
  unfolding add_subscriber
  add_subscriber-hand_out t l topic env reach =
      let v = Reach-Inv (no_subscribers-Inv t) reach in
      let v' = add_subscriber-Inv topic l v in
      let i = l.inboxes.next in
      let (one, new_cell) = new_subscriber topic l v in
      let (q, o) = k.offer-channel 16 env (omega arith) in
      let (cell, stays) =
        hand_out-evicts k topic env (add_subscriber k topic l).1 i topic (v'.once topic i) in
      (
        ap k.queued cell
            ∙ rw (one, new_cell)
                (offer_once env (k.channel 16) q o ∙ rw (k.queued-channel 16) refl),
        stays ∙ rw (new_cell, o) (ground (arith, one)),
      )
