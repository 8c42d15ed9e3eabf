-- ===== src/Memory/Hub.antt =====
-- The invariant of the in-memory hub, and what subscribers get under it.
use mom_rpc.Base.{
  if◌then◌else◌, ◌==◌, str_eq, arith, ◌++◌, ◌∷◌, [], some, false, true, Bool, ◌∙◌, sym, refl, ◌≡◌,
  ◌≤◌, suc, zero, ℕ,
}
use mathlib.Core.Option
use mathlib.Core.List.{append-nil}
use native.Mathlib.Nat.{le_trans}
use mom_rpc.Error.{Result, ok}
use mom_rpc.Domain.{Envelope, Subscription}
use mom_rpc.Channels.{
  Channels, accepted, Inboxes, copies, total, copies-le-total, total-entry_push, copies-entry_push,
}
use mom_rpc.Memory.{MemoryHub, inbox_capacity, publish, subscribe, close, new}
use mom_rpc.Memory.Delivery.{offered, deliver-offered}

-- An inbox is subscribed once at most, and only after it was made.
pub record Inv {Q : Type 0} (h : MemoryHub Q) : Type 0 where
  pub fresh : (i : ℕ) → h.inboxes.next ≤ i → total h.subscriptions i ≡ 0
  pub once : (i : ℕ) → total h.subscriptions i ≤ 1

-- What the transports on a hub can ask of it.
pub data Call : Type 0 where
  publishes : Envelope → Call
  subscribes : Subscription → Call
  closes : Call

one_if :
    (b : Bool) (e : Envelope)
    → [] ++ (if (if b then 1 else 0) == 0 then [] else e ∷ []) ≡ (if b then e ∷ [] else [])
one_if true e = refl
one_if false e = refl

module _ (k : Channels) where
  -- One call that completes.
  pub data Step (h h' : MemoryHub k.Inbox) : Call → Type 0 where
    publishing :
        (e : Envelope) (r : Result (Unit {0}))
        → publish k e h ≡ some (r, h')
        → Step h h' (publishes e)
    subscribing :
        (s : Subscription) (r : Result ℕ)
        → subscribe k s h ≡ some (r, h')
        → Step h h' (subscribes s)
    closing : (r : Result (Unit {0})) → close k h ≡ some (r, h') → Step h h' closes

  pub data Reach (h : MemoryHub k.Inbox) : MemoryHub k.Inbox → Type 0 where
    here : Reach h h
    next : {m n : MemoryHub k.Inbox} {c : Call} → Reach h m → Step m n c → Reach h n

  pub new-Inv : (t : Inboxes k.Inbox) → Inv (new k t)
  unfolding new
  new-Inv t = record { fresh = λ i l. refl; once = λ i. omega arith }

  pub subscribe-Inv :
      (s : Subscription) (h h' : MemoryHub k.Inbox) (r : Result ℕ)
      → Inv h
      → subscribe k s h ≡ some (r, h')
      → Inv h'
  unfolding subscribe
  subscribe-Inv s h h' r v e = record {
    fresh =
        λ i l. ground (arith, v.fresh i, total-entry_push h.subscriptions s.name h.inboxes.next i);
    once = λ i.
        ground
          (arith, v.fresh i, v.once i, total-entry_push h.subscriptions s.name h.inboxes.next i);
  }

  pub publish_lem :
      (e : Envelope) (h h' : MemoryHub k.Inbox) (r : Result (Unit {0})) (i : ℕ)
      → publish k e h ≡ some (r, h')
      → (r ≡ ok tt)
        × (h'.subscriptions ≡ h.subscriptions)
        × (h'.inboxes.next ≡ h.inboxes.next)
        × (h'.inboxes.cell i
            ≡ offered k e (copies h.subscriptions e.address.name i) (h.inboxes.cell i))
  unfolding publish
  publish_lem e h h' r i p =
      let (t, d, q) = (Option.map-eq-some_iff _ _).0 p in
      let (cells, upto) = deliver-offered k h.subscriptions e h.inboxes t i d in
      (ground arith, ground arith, ground arith, ground arith)

  pub publish-Inv :
      (e : Envelope) (h h' : MemoryHub k.Inbox) (r : Result (Unit {0}))
      → Inv h
      → publish k e h ≡ some (r, h')
      → Inv h'
  publish-Inv e h h' r v p =
      let (_, subs, upto, _) = publish_lem e h h' r 0 p in
      record { fresh = λ i l. rw subs (v.fresh i (omega arith)); once = λ i. rw subs (v.once i) }

  pub close-Inv :
      (h h' : MemoryHub k.Inbox) (r : Result (Unit {0})) → close k h ≡ some (r, h') → Inv h'
  unfolding close
  close-Inv h h' r p = record { fresh = λ i l. ground arith; once = λ i. ground arith }

  Step-Inv : {h h' : MemoryHub k.Inbox} {c : Call} → Inv h → Step h h' c → Inv h'
  Step-Inv v (publishing e r p) = publish-Inv e _ _ r v p
  Step-Inv v (subscribing s r p) = subscribe-Inv s _ _ r v p
  Step-Inv v (closing r p) = close-Inv _ _ r p

  Reach-Inv : {h h' : MemoryHub k.Inbox} → Inv h → Reach h h' → Inv h'
  Reach-Inv v here = v
  Reach-Inv v (next r s) = Step-Inv (Reach-Inv v r) s

  -- On every hub that calls reach from a new one, an inbox is subscribed once at most.
  pub Reach-new-Inv : (t : Inboxes k.Inbox) (h : MemoryHub k.Inbox) → Reach (new k t) h → Inv h
  Reach-new-Inv t h r = Reach-Inv (new-Inv t) r

  -- The effect of one offer on what is queued.
  queued-offered :
      (e : Envelope) (n : ℕ) (q q' : k.Inbox)
      → k.offer q e ≡ accepted q'
      → n ≤ 1
      → k.queued (offered k e n q) ≡ k.queued q ++ (if n == 0 then [] else e ∷ [])
  queued-offered e zero q q' o l = sym (append-nil _)
  queued-offered e (suc zero) q q' o l = rw o (k.queued-offer q e q' o)
  queued-offered e (suc (suc n)) q q' o l = absurd (omega arith)

  -- On a hub that calls reach from a new one, a publish that completes puts the message at the end
  -- of each open inbox that is subscribed to its address, once, and leaves every other open inbox
  -- as it was.
  pub publish-queued :
      (t : Inboxes k.Inbox) (h h' : MemoryHub k.Inbox) (e : Envelope) (r : Result (Unit {0}))
      (i : ℕ) (q : k.Inbox)
      → Reach (new k t) h
      → publish k e h ≡ some (r, h')
      → k.offer (h.inboxes.cell i) e ≡ accepted q
      → k.queued (h'.inboxes.cell i)
        ≡ k.queued (h.inboxes.cell i)
          ++ (if copies h.subscriptions e.address.name i == 0 then [] else e ∷ [])
  publish-queued t h h' e r i q reach p open_ =
      let v = Reach-new-Inv t h reach in
      let (_, _, _, cells) = publish_lem e h h' r i p in
      rw cells (
        queued-offered e _ _ q open_
          (le_trans (copies-le-total h.subscriptions e.address.name i) (v.once i)))

  subscribe_lem :
      (s : Subscription) (e : Envelope) (h h' : MemoryHub k.Inbox) (i : ℕ)
      → Inv h
      → subscribe k s h ≡ some (ok i, h')
      → (h'.inboxes.cell i ≡ k.channel inbox_capacity)
        × (copies h'.subscriptions e.address.name i
            ≡ (if str_eq s.name e.address.name then 1 else 0))
  unfolding subscribe
  subscribe_lem s e h h' i v sub = (
    ground arith,
    ground (
      arith,
      v.fresh h.inboxes.next,
      copies-le-total h.subscriptions e.address.name h.inboxes.next,
      copies-entry_push h.subscriptions s.name h.inboxes.next e.address.name h.inboxes.next,
    ),
  )

  -- On a hub that calls reach from a new one, the first message published after a subscription is
  -- queued in the new inbox exactly when its address is the subscription's.
  pub subscribe-publish :
      (t : Inboxes k.Inbox) (h h1 h2 : MemoryHub k.Inbox) (s : Subscription) (e : Envelope) (i : ℕ)
      (r : Result (Unit {0}))
      → Reach (new k t) h
      → subscribe k s h ≡ some (ok i, h1)
      → publish k e h1 ≡ some (r, h2)
      → k.queued (h2.inboxes.cell i) ≡ (if str_eq s.name e.address.name then e ∷ [] else [])
  subscribe-publish t h h1 h2 s e i r reach sub p =
      let (empty_inbox, single) = subscribe_lem s e h h1 i (Reach-new-Inv t h reach) sub in
      let (q, o) = k.offer-channel inbox_capacity e (omega arith) in
      let reach' = next reach (subscribing s (ok i) sub) in
      publish-queued t h1 h2 e r i q reach' p (rw empty_inbox o)
      ∙ rw (empty_inbox, k.queued-channel, single) (one_if (str_eq s.name e.address.name) e)
