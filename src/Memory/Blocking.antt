-- ===== src/Memory/Blocking.antt =====
-- When a publish on the in-memory bus completes, and when it waits for a subscriber.
use mom_rpc.Base.{
  Option-cases, if◌then◌else◌, str_eq, arith, ◌∷◌, [], List, some, none, Option, false, true, Bool,
  inr, inl, refl, ◌≡◌, ◌<◌, ◌≤◌, ℕ,
}
use mathlib.Core.Option
use native.Mathlib.Decide.{dec_lt}
use mom_rpc.Error.{ok}
use mom_rpc.Domain.{Envelope}
use mom_rpc.Base.HashMap.{HashMap}
use mom_rpc.Channels.{
  Channels, Offer, accepted, full, closed, Inboxes, write, is_full, count, copies, total,
  copies-le-total,
}
use mom_rpc.Memory.{MemoryHub, send_all, deliver, publish, new}
use mom_rpc.Memory.Delivery.{entry-offered}
use mom_rpc.Memory.Hub.{Reach, Reach-new-Inv}

module _ (k : Channels) where
  -- Nobody that is counted is full.
  abbrev Ready : (ℕ → ℕ) → Envelope → Inboxes k.Inbox → Type 0
  Ready members e t = (i : ℕ) → 0 < members i → is_full (k.offer (t.cell i) e) ≡ false

  abbrev Completes : Option (Inboxes k.Inbox) → Type 0
  Completes o = (t : Inboxes k.Inbox) × (o ≡ some t)

  send_all-Completes :
      (senders : List ℕ) (e : Envelope) (t : Inboxes k.Inbox)
      → Ready (λ i. count i senders) e t
      → ((i : ℕ) → count i senders ≤ 1)
      → Completes (send_all k senders e t)
  unfolding send_all
  send_all-Completes [] e t ready once = (t, refl)
  send_all-Completes (j ∷ senders) e t ready once =
      go (k.offer (t.cell j) e) refl
        (λ u r. send_all-Completes senders e u r (λ i. ground (arith, once i)))
    where
      go :
          (o : Offer k.Inbox)
          → k.offer (t.cell j) e ≡ o
          → ((u : Inboxes k.Inbox)
              → Ready (λ i. count i senders) e u
              → Completes (send_all k senders e u))
          → Completes (send_all k (j ∷ senders) e t)
      go (accepted q) o again =
          rw (o, send_all) (again (write t j q) (λ i l. ground (arith, ready i, once i)))
      go full o again = absurd (cc (rw o at (ready j (ground arith))))
      go closed o again = rw (o, send_all) (again t (λ i l. ready i (ground arith)))

  send_all_waits :
      (senders : List ℕ) (e : Envelope) (t : Inboxes k.Inbox) (i : ℕ)
      → 0 < count i senders
      → k.offer (t.cell i) e ≡ full
      → send_all k senders e t ≡ none
  unfolding send_all
  send_all_waits [] e t i l f = absurd (omega arith)
  send_all_waits (j ∷ senders) e t i l f =
      go (k.offer (t.cell j) e) refl (λ u. send_all_waits senders e u i)
    where
      go :
          (o : Offer k.Inbox)
          → k.offer (t.cell j) e ≡ o
          → ((u : Inboxes k.Inbox)
              → 0 < count i senders
              → k.offer (u.cell i) e ≡ full
              → send_all k senders e u ≡ none)
          → send_all k (j ∷ senders) e t ≡ none
      go (accepted q) o again = rw (o, send_all) (again (write t j q) (ground arith) (ground arith))
      go full o again = rw (o, send_all)
      go closed o again = rw (o, send_all) (again t (ground arith) f)

  entry-Completes :
      (b : Bool) (senders : List ℕ) (e : Envelope) (t : Inboxes k.Inbox)
      → Ready (λ i. if b then count i senders else 0) e t
      → ((i : ℕ) → count i senders ≤ 1)
      → Completes (if b then send_all k senders e t else some t)
  entry-Completes true senders e t ready once = send_all-Completes senders e t ready once
  entry-Completes false senders e t ready once = (t, refl)

  -- An inbox that a publish has not come to yet is as it was.
  untouched :
      (b : Bool) (senders : List ℕ) (e : Envelope) (t u : Inboxes k.Inbox) (i : ℕ)
      → count i senders ≡ 0
      → (if b then send_all k senders e t else some t) ≡ some u
      → u.cell i ≡ t.cell i
  untouched true senders e t u i z p = rw z at (entry-offered k true senders e t u i p).0
  untouched false senders e t u i z p = ground arith

  deliver-Completes :
      (subs : HashMap (List ℕ)) (e : Envelope) (t : Inboxes k.Inbox)
      → Ready (copies subs e.address.name) e t
      → ((i : ℕ) → total subs i ≤ 1)
      → Completes (deliver k subs e t)
  unfolding deliver
  deliver-Completes [] e t ready once = (t, refl)
  deliver-Completes ((sub, senders) ∷ subs) e t ready once =
      let match = str_eq sub e.address.name in
      let (u, p) =
        entry-Completes match senders e t (λ i l. ready i (omega arith))
          (λ i. omega (arith, once i)) in
      let (v, q) =
        deliver-Completes subs e u
          (λ i l.
            rw
              (untouched match senders e t u i
                (omega (arith, once i, copies-le-total subs e.address.name i)) p)
              (ready i (omega arith)))
          (λ i. omega (arith, once i)) in
      (v, (Option.bind-eq-some_iff _ _).1 (u, p, q))

  entry_waits :
      (b : Bool) (senders : List ℕ) (e : Envelope) (t : Inboxes k.Inbox) (i : ℕ)
      → 0 < (if b then count i senders else 0)
      → k.offer (t.cell i) e ≡ full
      → (if b then send_all k senders e t else some t) ≡ none
  entry_waits true senders e t i l f = send_all_waits senders e t i l f
  entry_waits false senders e t i l f = absurd (omega arith)

  deliver_waits :
      (subs : HashMap (List ℕ)) (e : Envelope) (t : Inboxes k.Inbox) (i : ℕ)
      → 0 < copies subs e.address.name i
      → total subs i ≤ 1
      → k.offer (t.cell i) e ≡ full
      → deliver k subs e t ≡ none
  unfolding deliver Option.bind
  deliver_waits [] e t i l once f = absurd (omega arith)
  deliver_waits ((sub, senders) ∷ subs) e t i l once f =
      let match = str_eq sub e.address.name in
      elim (dec_lt 0 (if match then count i senders else 0)) [
        | yes here ↦ rw (entry_waits match senders e t i here f, Option.bind)
        | no later ↦ elim (Option-cases (if match then send_all k senders e t else some t)) [
          | inl p ↦ rw (p, Option.bind)
          | inr (u, p) ↦
              let fewer = copies-le-total subs e.address.name i in
              let same = untouched match senders e t u i (omega (arith, fewer)) p in
              rw (p, Option.bind) (deliver_waits subs e u i (omega arith) (omega arith) (rw same f))
        ]
      ]

  -- On a hub that calls reach from a new one, a publish completes if no inbox that is subscribed to
  -- its address is full.
  pub publish_completes :
      (t : Inboxes k.Inbox) (h : MemoryHub k.Inbox) (e : Envelope)
      → Reach k (new k t) h
      → ((i : ℕ)
          → 0 < copies h.subscriptions e.address.name i
          → is_full (k.offer (h.inboxes.cell i) e) ≡ false)
      → (h' : MemoryHub k.Inbox) × (publish k e h ≡ some (ok tt, h'))
  unfolding publish
  publish_completes t h e reach ready =
      let v = Reach-new-Inv k t h reach in
      let (u, p) = deliver-Completes h.subscriptions e h.inboxes ready v.once in
      (record h { inboxes = u }, rw p)

  -- On a hub that calls reach from a new one, a publish stays suspended if an inbox that is
  -- subscribed to its address is full, whatever the other subscribers are ready for.
  pub publish_waits :
      (t : Inboxes k.Inbox) (h : MemoryHub k.Inbox) (e : Envelope) (i : ℕ)
      → Reach k (new k t) h
      → 0 < copies h.subscriptions e.address.name i
      → k.offer (h.inboxes.cell i) e ≡ full
      → publish k e h ≡ none
  unfolding publish
  publish_waits t h e i reach l f =
      rw (deliver_waits h.subscriptions e h.inboxes i l ((Reach-new-Inv k t h reach).once i) f)
