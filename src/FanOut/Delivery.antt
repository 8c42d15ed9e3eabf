-- ===== src/FanOut/Delivery.antt =====
-- Who receives a message that is handed out, and who is evicted.
use mom_rpc.Base.{
  unwrap_or, Option-cases, Bool-cases, if◌then◌else◌, ◌==◌, length, eq_iff, str_eq, arith, ◌∷◌, [],
  List, some, not, ◌&&◌, false, true, Bool, inr, inl, ◌⊎◌, ◌∙◌, ap, sym, refl, ◌≡◌, String, ◌<◌,
  ◌≤◌, ℕ,
}
use mom_rpc.Domain.{Envelope}
use mom_rpc.Base.HashMap.{HashMap, get, get-insert}
use mom_rpc.Channels.{Channels, Inboxes, Offer, accepted, full, closed, write, count}
use mom_rpc.FanOut.{Local, fan_out, evict, hand_out}
use mom_rpc.Memory.Delivery.{offered, offered_once, unwritten}

abbrev pub is_accepted : {Q : Type 0} → Offer Q → Bool
is_accepted (accepted q) = true
is_accepted full = false
is_accepted closed = false

-- The senders of a topic.
abbrev pub senders_of : HashMap (List ℕ) → String → List ℕ
senders_of subs topic = unwrap_or (get subs topic) []

module _ (k : Channels) where
  -- What the messages do to an inbox does not depend on the others.
  fan_out-offered :
      (senders : List ℕ) (env : Envelope) (t : Inboxes k.Inbox) (i : ℕ)
      → (fan_out k senders env t).1.cell i ≡ offered k env (count i senders) (t.cell i)
  unfolding fan_out
  fan_out-offered [] env t i = refl
  fan_out-offered (j ∷ senders) env t i =
      go (λ u. fan_out-offered senders env u i) (k.offer (t.cell j) env) refl
    where
      go :
          ((u : Inboxes k.Inbox)
            → (fan_out k senders env u).1.cell i ≡ offered k env (count i senders) (u.cell i))
          → (o : Offer k.Inbox) → k.offer (t.cell j) env ≡ o
          → (fan_out k (j ∷ senders) env t).1.cell i
            ≡ offered k env (count i (j ∷ senders)) (t.cell i)
      go ih (accepted q) e =
          rw (e, fan_out)
            (ih (write t j q) ∙ offered_once k env t.cell i j (count i senders) q (rw e))
      go ih full e =
          rw (e, fan_out)
            (ih t
              ∙ ap (offered k env (count i senders)) (sym (unwritten t.cell i j))
              ∙ offered_once k env t.cell i j (count i senders) (t.cell j) (rw e))
      go ih closed e =
          rw (e, fan_out)
            (ih t
              ∙ ap (offered k env (count i senders)) (sym (unwritten t.cell i j))
              ∙ offered_once k env t.cell i j (count i senders) (t.cell j) (rw e))

  pub fan_out-survives :
      (senders : List ℕ) (env : Envelope) (t : Inboxes k.Inbox) (i : ℕ)
      → count i senders ≤ 1
      → count i (fan_out k senders env t).0
        ≡ (if is_accepted (k.offer (t.cell i) env) then count i senders else 0)
  unfolding fan_out
  fan_out-survives [] env t i once = ground arith
  fan_out-survives (j ∷ senders) env t i once =
      go (λ u. fan_out-survives senders env u i) (k.offer (t.cell j) env) refl
    where
      go :
          ((u : Inboxes k.Inbox)
            → count i senders ≤ 1
            → count i (fan_out k senders env u).0
              ≡ (if is_accepted (k.offer (u.cell i) env) then count i senders else 0))
          → (o : Offer k.Inbox) → k.offer (t.cell j) env ≡ o
          → count i (fan_out k (j ∷ senders) env t).0
            ≡ (if is_accepted (k.offer (t.cell i) env) then count i (j ∷ senders) else 0)
      go ih (accepted q) e = rw (e, fan_out) (ground (arith, ih (write t j q)))
      go ih full e = rw (e, fan_out) (ground (arith, ih t))
      go ih closed e = rw (e, fan_out) (ground (arith, ih t))

  -- No more senders survive than there are, and as many only if all do.
  fan_out-length :
      (senders : List ℕ) (env : Envelope) (t : Inboxes k.Inbox)
      → (length (fan_out k senders env t).0 ≤ length senders)
        × ((length (fan_out k senders env t).0 < length senders)
            ⊎ ((fan_out k senders env t).0 ≡ senders))
  unfolding fan_out
  fan_out-length [] env t = (omega arith, inr refl)
  fan_out-length (j ∷ senders) env t =
      go (λ u. fan_out-length senders env u) (k.offer (t.cell j) env) refl
    where
      go :
          ((u : Inboxes k.Inbox)
            → (length (fan_out k senders env u).0 ≤ length senders)
              × ((length (fan_out k senders env u).0 < length senders)
                  ⊎ ((fan_out k senders env u).0 ≡ senders)))
          → (o : Offer k.Inbox) → k.offer (t.cell j) env ≡ o
          → (length (fan_out k (j ∷ senders) env t).0 ≤ length (j ∷ senders))
            × ((length (fan_out k (j ∷ senders) env t).0 < length (j ∷ senders))
                ⊎ ((fan_out k (j ∷ senders) env t).0 ≡ j ∷ senders))
      go ih (accepted q) e =
          rw (e, fan_out)
            (let (le, r) = ih (write t j q) in
              (
                omega arith,
                elim r [ inl l ↦ inl (omega arith) | inr same ↦ inr (ap (λ l. j ∷ l) same) ],
              ))
      go ih full e = rw (e, fan_out) (let (le, r) = ih t in (omega arith, inl (omega arith)))
      go ih closed e = rw (e, fan_out) (let (le, r) = ih t in (omega arith, inl (omega arith)))

  evicted :
      (subs : HashMap (List ℕ)) (topic : String) (senders : List ℕ) (env : Envelope)
      (t : Inboxes k.Inbox) (other : String)
      → get subs topic ≡ some senders
      → get (evict subs topic senders (fan_out k senders env t).0) other
        ≡ (if str_eq topic other then some (fan_out k senders env t).0 else get subs other)
  evicted subs topic senders env t other found =
      let (_, r) = fan_out-length senders env t in
      elim (Bool-cases (length (fan_out k senders env t).0 == length senders)) [
        | inl e ↦
            let same : (fan_out k senders env t).0 ≡ senders = elim r [
              | inl l ↦ absurd (ground arith)
              | inr eq ↦ eq
            ] in
            rw e (ground (arith, eq_iff topic other))
        | inr e ↦ rw e (get-insert subs topic (fan_out k senders env t).0 other)
      ]

module _ (k : Channels) where
  kept :
      (topic other : String) (senders : List ℕ) (env : Envelope) (a : Local k.Inbox) (i : ℕ)
      → get a.subscribers topic ≡ some senders
      → count i (fan_out k senders env a.inboxes).0
        ≡ (if is_accepted (k.offer (a.inboxes.cell i) env) then count i senders else 0)
      → count i (
          unwrap_or
            (if str_eq topic other
              then some (fan_out k senders env a.inboxes).0
              else get a.subscribers other)
            [])
        ≡ (if str_eq topic other && not (is_accepted (k.offer (a.inboxes.cell i) env))
            then 0
            else count i (senders_of a.subscribers other))
  kept topic other senders env a i e survives = ground (arith, eq_iff topic other)

  -- A message is offered to each inbox as often as the inbox is subscribed to its topic; and an inbox
  -- that is subscribed once at most keeps its subscription to the topic exactly if it takes the
  -- message. Subscriptions to other topics stay.
  pub hand_out-evicts :
      (topic : String) (env : Envelope) (a : Local k.Inbox) (i : ℕ) (other : String)
      → count i (senders_of a.subscribers topic) ≤ 1
      → ((hand_out k topic env a).inboxes.cell i
          ≡ offered k env (count i (senders_of a.subscribers topic)) (a.inboxes.cell i))
        × (count i (senders_of (hand_out k topic env a).subscribers other) ≡ (
            if str_eq topic other && not (is_accepted (k.offer (a.inboxes.cell i) env))
            then 0
            else count i (senders_of a.subscribers other)))
  unfolding hand_out
  hand_out-evicts topic env a i other once = elim (Option-cases (get a.subscribers topic)) [
    | inl e ↦ rw e (refl, ground (arith, eq_iff topic other))
    | inr (senders, e) ↦ rw e (
      fan_out-offered k senders env a.inboxes i,
      rw (evicted k a.subscribers topic senders env a.inboxes other e) (
          kept topic other senders env a i e
            (fan_out-survives k senders env a.inboxes i (rw e at once))),
    )
  ]
