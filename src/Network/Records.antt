-- ===== src/Network/Records.antt =====
-- The pending maps of all brokers, next to a record of every request that was made.
pub mod Asks
pub mod Answers
pub mod States
use mom_rpc.Base.{
  Bool-cases, ==_iff, inr, inl, ◌⊎◌, subst, if◌then◌else◌, ◌==◌, [], some, ◌≡◌, String, ◌<◌, ℕ,
}
use mom_rpc.Broker.Pending.Answers.{Inv as PendingInv, no_requests-Inv}
use mom_rpc.Base.HashMap.{HashMap, get, insert}
use mom_rpc.Broker.Pending.{Pending, register, on_response, no_requests}
use mom_rpc.Oneshot.{Oneshots, ready}
use mom_rpc.Domain.{Bytes, Envelope}

-- A request: who made it, the oneshot channel that it awaits, and what was asked.
pub record Sent : Type 0 where
  pub caller : ℕ
  pub rx : ℕ
  pub target : String
  pub method : String
  pub payload : Bytes

pub record Ledger (C : Type 0) : Type 0 where
  pub pending : ℕ → Pending C
  pub sent : HashMap Sent

abbrev pub set_at : {A : Type 0} → ℕ → A → (ℕ → A) → ℕ → A
set_at n x f m = if n == m then x else f m

module _ (o : Oneshots) where
  -- `request_to` up to its publish.
  abbrev pub ask : ℕ → String → String → Bytes → String → Ledger o.Cell → Ledger o.Cell
  ask n target method payload id s = record {
    pending = set_at n (register o id (s.pending n)) s.pending;
    sent = insert s.sent id (record {
      caller = n;
      rx = (s.pending n).next;
      target = target;
      method = method;
      payload = payload;
    });
  }

  abbrev pub complete : ℕ → Envelope → Ledger o.Cell → Ledger o.Cell
  complete n e s = record s { pending = set_at n (on_response o e (s.pending n)) s.pending }

  module _ (Answer : Sent → Bytes → Type 0) where
    -- A sender in a map is that of a request of the broker; two requests do not share a channel; what a
    -- channel holds is an answer to its request; and a request without an answer has its sender in the
    -- map.
    pub record Consistent (s : Ledger o.Cell) : Type 0 where
      pub valid : (n : ℕ) → PendingInv o (s.pending n)
      pub known :
          (n : ℕ) (id : String) (rx : ℕ)
          → get (s.pending n).senders id ≡ some rx
          → (q : Sent) × (get s.sent id ≡ some q) × (q.caller ≡ n) × (q.rx ≡ rx)
      pub made :
          (id : String) (q : Sent) → get s.sent id ≡ some q → q.rx < (s.pending q.caller).next
      pub distinct :
          (a b : String) (p q : Sent)
          → get s.sent a ≡ some p
          → get s.sent b ≡ some q
          → p.caller ≡ q.caller
          → p.rx ≡ q.rx
          → a ≡ b
      pub answered :
          (id : String) (q : Sent) (b : Bytes)
          → get s.sent id ≡ some q
          → o.poll ((s.pending q.caller).cells q.rx) ≡ ready b
          → Answer q b
      pub accounted :
          (id : String) (q : Sent)
          → get s.sent id ≡ some q
          → (get (s.pending q.caller).senders id ≡ some q.rx)
            ⊎ ((b : Bytes) × (o.poll ((s.pending q.caller).cells q.rx) ≡ ready b))

    pub no_requests-Consistent :
        (cells : ℕ → o.Cell) → Consistent (record { pending = λ n. no_requests o cells; sent = [] })
    unfolding no_requests get
    no_requests-Consistent cells = record {
      valid = λ n. no_requests-Inv o cells;
      known = λ n id rx h. absurd (cc h);
      made = λ id q h. absurd (cc h);
      distinct = λ a b p q h g c r. absurd (cc h);
      answered = λ id q b h w. absurd (cc h);
      accounted = λ id q h. absurd (cc h);
    }

-- A property of each broker's value, after one value is set.
pub set_at-all :
    {A : Type 0} (P : ℕ → A → Type 0) (n : ℕ) (x : A) (f : ℕ → A)
    → P n x
    → ((m : ℕ) → P m (f m))
    → (m : ℕ) → P m (set_at n x f m)
set_at-all P n x f here others m = elim (Bool-cases (n == m)) [
  | inl e ↦ rw e (subst (λ j. P j x) ((==_iff n m).0 e) here)
  | inr e ↦ rw e (others m)
]
