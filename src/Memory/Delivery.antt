-- ===== src/Memory/Delivery.antt =====
-- Who receives what is published on the in-memory bus.
use mom_rpc.Base.{
  Bool-cases, ==_iff, if◌then◌else◌, ◌==◌, str_eq, arith, ◌∷◌, [], List, some, false, true, Bool,
  inr, inl, ◌∙◌, ap, sym, refl, ◌≡◌, ◌+◌, suc, zero, ℕ,
}
use native.Mathlib.Nat.{zero-add, suc-add}
use mathlib.Core.Option
use mom_rpc.Domain.{Envelope}
use mom_rpc.Base.HashMap.{HashMap}
use mom_rpc.Channels.{
  Channels, Offer, accepted, full, closed, Inboxes, write, after_offer, count, copies,
}
use mom_rpc.Memory.{send_all, deliver}

==_comm : (i j : ℕ) → (i == j) ≡ (j == i)
==_comm i j = ground arith

==_self : (i : ℕ) → (i == i) ≡ true
==_self i = ground arith

one_add : (n : ℕ) → 1 + n ≡ suc n
one_add n = omega arith

pub unwritten : {A : Type 0} (f : ℕ → A) (i j : ℕ) → (if j == i then f j else f i) ≡ f i
unwritten f i j = ground arith

module _ (k : Channels) where
  -- An inbox after it was offered a message n times.
  abbrev pub offered : Envelope → ℕ → k.Inbox → k.Inbox
  offered env zero q = q
  offered env (suc n) q = offered env n (after_offer q (k.offer q env))

  offered-add :
      (env : Envelope) (m n : ℕ) (q : k.Inbox)
      → offered env (m + n) q ≡ offered env n (offered env m q)
  offered-add env zero n q = rw zero-add
  offered-add env (suc m) n q = rw suc-add (offered-add env m n (after_offer q (k.offer q env)))

  -- An offer to inbox j counts for inbox i if they are one.
  pub offered_once :
      (env : Envelope) (cell : ℕ → k.Inbox) (i j n : ℕ) (q : k.Inbox)
      → after_offer (cell j) (k.offer (cell j) env) ≡ q
      → offered env n (if j == i then q else cell i)
        ≡ offered env ((if i == j then 1 else 0) + n) (cell i)
  offered_once env cell i j n q h = elim (Bool-cases (i == j)) [
    | inl e ↦ same ((==_iff i j).0 e)
    | inr e ↦ rw (==_comm j i, e, zero-add)
  ]
    where
      same :
          i ≡ j
          → offered env n (if j == i then q else cell i)
            ≡ offered env ((if i == j then 1 else 0) + n) (cell i)
      same p = rw (p, ==_self j, one_add n, h)

  pub send_all-offered :
      (senders : List ℕ) (env : Envelope) (t t' : Inboxes k.Inbox) (i : ℕ)
      → send_all k senders env t ≡ some t'
      → (t'.cell i ≡ offered env (count i senders) (t.cell i)) × (t'.next ≡ t.next)
  unfolding send_all
  send_all-offered [] env t t' i h = ground arith
  send_all-offered (j ∷ senders) env t t' i h =
      go (λ u. send_all-offered senders env u t' i) (k.offer (t.cell j) env) refl
    where
      go :
          ((u : Inboxes k.Inbox)
            → send_all k senders env u ≡ some t'
            → (t'.cell i ≡ offered env (count i senders) (u.cell i)) × (t'.next ≡ u.next))
          → (o : Offer k.Inbox) → k.offer (t.cell j) env ≡ o
          → (t'.cell i ≡ offered env (count i (j ∷ senders)) (t.cell i)) × (t'.next ≡ t.next)
      go ih (accepted q) e =
          let (cells, next) = ih (write t j q) (rw (e, send_all) at h) in
          (cells ∙ offered_once env t.cell i j (count i senders) q (rw e), next)
      go ih full e = cc (rw (e, send_all) at h)
      go ih closed e =
          let (cells, next) = ih t (rw (e, send_all) at h) in
          (
            cells
                ∙ ap (offered env (count i senders)) (sym (unwritten t.cell i j))
                ∙ offered_once env t.cell i j (count i senders) (t.cell j) (rw e),
            next,
          )

  pub entry-offered :
      (b : Bool) (senders : List ℕ) (env : Envelope) (t u : Inboxes k.Inbox) (i : ℕ)
      → (if b then send_all k senders env t else some t) ≡ some u
      → (u.cell i ≡ offered env (if b then count i senders else 0) (t.cell i)) × (u.next ≡ t.next)
  entry-offered true senders env t u i h = send_all-offered senders env t u i h
  entry-offered false senders env t u i h = ground arith

  -- A publish that completes has offered the message to each inbox as often as the inbox is
  -- subscribed to the address, and to no other.
  pub deliver-offered :
      (subs : HashMap (List ℕ)) (env : Envelope) (t t' : Inboxes k.Inbox) (i : ℕ)
      → deliver k subs env t ≡ some t'
      → (t'.cell i ≡ offered env (copies subs env.address.name i) (t.cell i)) × (t'.next ≡ t.next)
  unfolding deliver
  deliver-offered [] env t t' i h = ground arith
  deliver-offered ((sub, senders) ∷ subs) env t t' i h =
      let (u, e, rest) = (Option.bind-eq-some_iff _ _).0 h in
      let (cell, next) = entry-offered _ senders env t u i e in
      let (cell', next') = deliver-offered subs env u t' i rest in
      let n = copies subs env.address.name i in
      let m = if str_eq sub env.address.name then count i senders else 0 in
      (cell' ∙ ap (offered env n) cell ∙ sym (offered-add env m n (t.cell i)), next' ∙ next)
