-- ===== src/Channels/Bounded.antt =====
-- Bounded queues as channels, for evaluation on concrete inputs.
use mom_rpc.Base.{
  if◌then◌else◌, ltb, length, arith, ◌++◌, ◌∷◌, [], List, false, Bool, refl, ◌≡◌, ◌<◌, ℕ, Option,
  some, none,
}
use mom_rpc.Channels.{Channels, Offer, accepted, full, closed}
use mom_rpc.Domain.{Envelope}

pub record Queue : Type 0 where
  pub capacity : ℕ
  pub held : List Envelope
  -- The receiver was dropped.
  pub dropped : Bool

abbrev pub offer : Queue → Envelope → Offer Queue
offer q e =
    if q.dropped
    then closed
    else if ltb (length q.held) q.capacity
    then accepted (record q { held = q.held ++ e ∷ [] })
    else full

abbrev pub channel : ℕ → Queue
channel n = record { capacity = n; held = []; dropped = false }

pub held-offer :
    (q : Queue) (e : Envelope) (q' : Queue) → offer q e ≡ accepted q' → q'.held ≡ q.held ++ e ∷ []
held-offer q e q' h = ground arith

pub offer-channel :
    (n : ℕ) (e : Envelope) → 0 < n → (q : Queue) × (offer (channel n) e ≡ accepted q)
offer-channel n e h = (record { capacity = n; held = e ∷ []; dropped = false }, ground arith)

abbrev pub recv_held : Queue → List Envelope → Option (Envelope × Queue)
recv_held q [] = none
recv_held q (e ∷ held) = some (e, record q { held = held })

pub held-recv :
    (q : Queue) (held : List Envelope) (e : Envelope) (q' : Queue)
    → recv_held q held ≡ some (e, q')
    → held ≡ e ∷ q'.held
held-recv q [] e q' h = cc
held-recv q (d ∷ held) e q' h = ground arith

abbrev pub recv : Queue → Option (Envelope × Queue)
recv q = recv_held q q.held

abbrev pub bounded : Channels
bounded = record {
  Inbox = Queue;
  channel = channel;
  offer = offer;
  queued = λ q. q.held;
  recv = recv;
  queued-channel = λ n. refl;
  queued-offer = held-offer;
  queued-recv = λ q e q' h. held-recv q q.held e q' h;
  offer-channel = offer-channel;
}
