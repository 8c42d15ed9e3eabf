-- ===== src/Broker/Pending/Leaks.antt =====
-- What is left of a request in the map.
use mom_rpc.Base.{
  if◌then◌else◌, eq_iff, arith, ◌∷◌, [], List, some, none, Option, false, true, Bool, ◌∙◌, ap, refl,
  ◌≡◌, String, ℕ,
}
use mom_rpc.Base.HashMap.{get, get-remove}
use mom_rpc.Domain.{Bytes}
use mom_rpc.Oneshot.{Oneshots}
use mom_rpc.Broker.Pending.{
  Pending, Event, arrives, registers, register, respond, on_event, meanwhile,
}
use mom_rpc.Broker.Pending.Answers.{carries, answer, Unregistered, get-register}

-- The entry of a request after some events: only an answer removes it.
abbrev pub entry_left : Option Bytes → Option ℕ → Option ℕ
entry_left none o = o
entry_left (some b) o = none

entry_left-none : (a : Option Bytes) → entry_left a none ≡ none
entry_left-none none = refl
entry_left-none (some b) = refl

module _ (k : Oneshots) where
  get-respond :
      (o : Option String) (b : Bytes) (p : Pending k.Cell) (id : String)
      → get (respond k o b p).senders id ≡ (if carries o id then none else get p.senders id)
  get-respond none b p id = refl
  get-respond (some j) b p id = get-remove p.senders j id

  pub meanwhile-get :
      (id : String) (es : List Event) (p : Pending k.Cell)
      → Unregistered id es
      → get (meanwhile k es p).senders id ≡ entry_left (answer id es) (get p.senders id)
  unfolding meanwhile on_event answer
  meanwhile-get id [] p u = refl
  meanwhile-get id (registers j ∷ es) p u =
      meanwhile-get id es (register k j p) u.1
      ∙ ap (entry_left (answer id es)) (ground (arith, get-register k j p id, eq_iff j id, u.0))
  meanwhile-get id (arrives env ∷ es) p u =
      meanwhile-get id es (respond k env.correlation_id env.payload p) u
      ∙ rw (get-respond env.correlation_id env.payload p id) (taken (carries env.correlation_id id))
    where
      taken :
          (c : Bool)
          → entry_left (answer id es) (if c then none else get p.senders id)
            ≡ entry_left (if c then some env.payload else answer id es) (get p.senders id)
      taken true = entry_left-none (answer id es)
      taken false = refl
