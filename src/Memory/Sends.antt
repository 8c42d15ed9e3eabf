-- ===== src/Memory/Sends.antt =====
-- A publish on the in-memory bus as the sends that it makes, one after the other.
use mom_rpc.Channels.{
  count-append, Channels, Offer, accepted, full, closed, Inboxes, write, count, copies,
}
use mom_rpc.Base.{
  if◌then◌else◌, All-map, All, str_eq, arith, ◌++◌, ◌∷◌, [], List, some, false, true, Bool, fun_ext,
  subst, sym, refl, ◌≡◌, String, ◌<◌, ℕ,
}
use mom_rpc.Error.{ok}
use mathlib.Core.Option
use mom_rpc.Domain.{Envelope}
use mom_rpc.Base.HashMap.{HashMap}
use mom_rpc.Memory.{MemoryHub, send_all, deliver, publish}

-- The senders that a publish to a topic goes through.
abbrev pub targets : HashMap (List ℕ) → String → List ℕ
targets [] topic = []
targets ((sub, senders) ∷ subs) topic =
    (if str_eq sub topic then senders else []) ++ targets subs topic

pub count-targets :
    (subs : HashMap (List ℕ)) (topic : String) (i : ℕ)
    → count i (targets subs topic) ≡ copies subs topic i
count-targets [] topic i = refl
count-targets ((sub, senders) ∷ subs) topic i = ground (
  arith,
  count-append i (if str_eq sub topic then senders else []) (targets subs topic),
  count-targets subs topic i,
)

All-count : (l : List ℕ) → All (λ i. 0 < count i l) l
All-count [] = tt
All-count (j ∷ l) = (ground arith, All-map _ _ l (λ i h. ground (arith, h)) (All-count l))

-- They are those that are subscribed to it.
pub targets-subscribed :
    (subs : HashMap (List ℕ)) (topic : String)
    → All (λ i. 0 < copies subs topic i) (targets subs topic)
targets-subscribed subs topic =
    All-map _ _ (targets subs topic) (λ i h. subst (λ n. 0 < n) (count-targets subs topic i) h)
      (All-count (targets subs topic))

module _ (k : Channels) where
  send_all-append :
      (l r : List ℕ) (e : Envelope) (t : Inboxes k.Inbox)
      → send_all k (l ++ r) e t ≡ Option.bind (send_all k l e t) (send_all k r e)
  unfolding send_all Option.bind
  send_all-append [] r e t = refl
  send_all-append (i ∷ l) r e t = go (k.offer (t.cell i) e) refl (λ u. send_all-append l r e u)
    where
      go :
          (o : Offer k.Inbox)
          → k.offer (t.cell i) e ≡ o
          → ((u : Inboxes k.Inbox)
              → send_all k (l ++ r) e u ≡ Option.bind (send_all k l e u) (send_all k r e))
          → send_all k (i ∷ (l ++ r)) e t ≡ Option.bind (send_all k (i ∷ l) e t) (send_all k r e)
      go (accepted q) h again = rw (h, send_all) (again (write t i q))
      go full h again = rw (h, send_all) refl
      go closed h again = rw (h, send_all) (again t)

  entry-targets :
      (b : Bool) (l r : List ℕ) (e : Envelope) (t : Inboxes k.Inbox)
      → Option.bind (if b then send_all k l e t else some t) (send_all k r e)
        ≡ send_all k ((if b then l else []) ++ r) e t
  unfolding Option.bind
  entry-targets true l r e t = sym (send_all-append l r e t)
  entry-targets false l r e t = refl

  deliver-targets :
      (subs : HashMap (List ℕ)) (e : Envelope) (t : Inboxes k.Inbox)
      → deliver k subs e t ≡ send_all k (targets subs e.address.name) e t
  unfolding deliver
  deliver-targets [] e t = refl
  deliver-targets ((sub, senders) ∷ subs) e t =
      rw (fun_ext (deliver-targets subs e))
        (entry-targets (str_eq sub e.address.name) senders (targets subs e.address.name) e t)

  -- A publish sends to these, one after the other.
  publish-targets :
      (e : Envelope) (h : MemoryHub k.Inbox)
      → publish k e h
        ≡ Option.map
            (λ t. (ok tt, record h { inboxes = t }))
            (send_all k (targets h.subscriptions e.address.name) e h.inboxes)
  unfolding publish
  publish-targets e h = rw (deliver-targets h.subscriptions e h.inboxes)
