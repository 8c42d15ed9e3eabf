-- ===== src/Channels.antt =====
-- tokio's bounded mpsc channels, as an interface, and what the transports do with them: a table of
-- the inboxes made so far, and a map from topics to senders. A sender is the number of its inbox.
pub mod Bounded
use mom_rpc.Base.{
  if◌then◌else◌, ◌==◌, eq_iff, str_eq, arith, ◌++◌, ◌∷◌, [], List, false, true, Bool, ◌≡◌, String,
  ◌<◌, ◌≤◌, ◌+◌, suc, ℕ, Option, some,
}
use mom_rpc.Base.HashMap.{HashMap}
use mom_rpc.Domain.{Envelope}

-- What becomes of a message that is offered to a channel.
pub data Offer (Q : Type 0) : Type 0 where
  accepted : Q → Offer Q
  full : Offer Q
  closed : Offer Q

pub record Channels : Type 1 where
  pub Inbox : Type 0
  -- mpsc::channel(capacity)
  pub channel : ℕ → Inbox
  -- Sender::try_send; Sender::send().await waits where this is `full`.
  pub offer : Inbox → Envelope → Offer Inbox
  -- What the receiver has not taken yet, oldest first.
  pub queued : Inbox → List Envelope
  -- Receiver::recv, where a message is there.
  pub recv : Inbox → Option (Envelope × Inbox)
  pub queued-channel : (n : ℕ) → queued (channel n) ≡ []
  pub queued-offer :
      (q : Inbox) (e : Envelope) (q' : Inbox)
      → offer q e ≡ accepted q'
      → queued q' ≡ queued q ++ e ∷ []
  pub queued-recv :
      (q : Inbox) (e : Envelope) (q' : Inbox) → recv q ≡ some (e, q') → queued q ≡ e ∷ queued q'
  -- A channel takes a message while it has room.
  pub offer-channel :
      (n : ℕ) (e : Envelope) → 0 < n → (q : Inbox) × (offer (channel n) e ≡ accepted q)

abbrev pub is_full : {Q : Type 0} → Offer Q → Bool
is_full full = true
is_full (accepted q) = false
is_full closed = false

-- The inbox after an offer.
abbrev pub after_offer : {Q : Type 0} → Q → Offer Q → Q
after_offer q (accepted q') = q'
after_offer q full = q
after_offer q closed = q

pub record Inboxes (Q : Type 0) : Type 0 where
  pub cell : ℕ → Q
  pub next : ℕ

module _ {Q : Type 0} where
  abbrev pub write : Inboxes Q → ℕ → Q → Inboxes Q
  write t i q = record t { cell = λ j. if i == j then q else t.cell j }

  -- A new inbox at the number `next`.
  abbrev pub allocate : Inboxes Q → Q → Inboxes Q
  allocate t q = record { cell = λ j. if t.next == j then q else t.cell j; next = suc t.next }

-- map.entry(topic).or_default().push(tx)
unfoldable pub entry_push : HashMap (List ℕ) → String → ℕ → HashMap (List ℕ)
entry_push [] k i = (k, i ∷ []) ∷ []
entry_push ((j, l) ∷ m) k i = if str_eq j k then (j, l ++ i ∷ []) ∷ m else (j, l) ∷ entry_push m k i

-- How often a number stands in a list, and among the senders of a topic.
abbrev pub count : ℕ → List ℕ → ℕ
count i [] = 0
count i (j ∷ l) = (if i == j then 1 else 0) + count i l

abbrev pub copies : HashMap (List ℕ) → String → ℕ → ℕ
copies [] topic i = 0
copies ((k, l) ∷ m) topic i = (if str_eq k topic then count i l else 0) + copies m topic i

-- How often it stands in the whole map.
abbrev pub total : HashMap (List ℕ) → ℕ → ℕ
total [] i = 0
total ((k, l) ∷ m) i = count i l + total m i

pub count-append : (i : ℕ) (l r : List ℕ) → count i (l ++ r) ≡ count i l + count i r
count-append i [] r = omega arith
count-append i (j ∷ l) r = omega (arith, count-append i l r)

pub copies-le-total : (m : HashMap (List ℕ)) (topic : String) (i : ℕ) → copies m topic i ≤ total m i
copies-le-total [] topic i = omega arith
copies-le-total ((k, l) ∷ m) topic i = ground (arith, copies-le-total m topic i)

pub total-entry_push :
    (m : HashMap (List ℕ)) (k : String) (x i : ℕ)
    → total (entry_push m k x) i ≡ total m i + (if i == x then 1 else 0)
unfolding entry_push
total-entry_push [] k x i = omega arith
total-entry_push ((j, l) ∷ m) k x i =
    ground (arith, count-append i l (x ∷ []), total-entry_push m k x i)

pub copies-entry_push :
    (m : HashMap (List ℕ)) (k : String) (x : ℕ) (topic : String) (i : ℕ)
    → copies (entry_push m k x) topic i
      ≡ copies m topic i + (if str_eq k topic then (if i == x then 1 else 0) else 0)
unfolding entry_push
copies-entry_push [] k x topic i = ground arith
copies-entry_push ((j, l) ∷ m) k x topic i = ground (
  arith,
  eq_iff j k,
  eq_iff j topic,
  eq_iff k topic,
  count-append i l (x ∷ []),
  copies-entry_push m k x topic i,
)
