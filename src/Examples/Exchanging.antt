-- ===== src/Examples/Exchanging.antt =====
-- A request and its response on an in-memory bus with a subscription for each.
use mom_rpc.Base.{if◌then◌else◌, ◌==◌, arith, ◌++◌, ◌∷◌, [], some, false, refl, ◌≡◌, ◌<◌, ℕ}
use mom_rpc.Examples.{alpha_base, prefix}
use mom_rpc.Error.{ok}
use mom_rpc.Domain.{Envelope, response}
use mom_rpc.Base.HashMap.{get}
use mom_rpc.Channels.{Inboxes, is_full, copies, entry_push}
use mom_rpc.Channels.Bounded.{Queue, bounded, channel, offer}
use mom_rpc.Memory.{MemoryHub, new, subscribe, publish, memory_transport}
use mom_rpc.Memory.Hub.{Reach, here, next, subscribing}
use mom_rpc.Oneshot.{waiting, ready, cells}
use mom_rpc.Broker.Pending.{no_requests, arrives, register, meanwhile}
use mom_rpc.Broker.Pending.Answers.{no_requests-Inv}
use mom_rpc.Broker.Request.{request_envelope}
use mom_rpc.Broker.Server.{HandlerRegistry, on_request}
use mom_rpc.Exchange.{exchange_completes}

abbrev no_inboxes : Inboxes Queue
no_inboxes = record { cell = λ i. channel 16; next = 0 }

abbrev listening : MemoryHub Queue
listening = record {
  subscriptions = ("requests/beta", 0 ∷ []) ∷ [];
  inboxes = record { cell = λ i. if 0 == i then channel 16 else channel 16; next = 1 };
}

abbrev both : MemoryHub Queue
both = record {
  subscriptions = ("requests/beta", 0 ∷ []) ∷ ("responses/alpha", 1 ∷ []) ∷ [];
  inboxes = record {
    cell = λ i. if 1 == i then channel 16 else if 0 == i then channel 16 else channel 16;
    next = 2;
  };
}

abbrev both_subscribed : Reach bounded (new bounded no_inboxes) both
unfolding subscribe entry_push new
both_subscribed =
    next {m = listening} (next here (subscribing (record { name = "requests/beta" }) (ok 0) refl))
      (subscribing (record { name = "responses/alpha" }) (ok 1) refl)

abbrev handlers : HandlerRegistry
handlers = ("echo", prefix) ∷ []

abbrev asked : Envelope
asked = request_envelope "alpha" "beta" "echo" (3 ∷ []) "only"

abbrev answered : Envelope
answered = response (record { name = "responses/alpha" }) (1 ∷ 3 ∷ []) "only" "application/json"

has_room : (i : ℕ) (e : Envelope) → is_full (offer (both.inboxes.cell i) e) ≡ false
has_room i e = ground arith

one_address :
    (i : ℕ)
    → 0 < copies both.subscriptions "responses/alpha" i
    → copies both.subscriptions "requests/beta" i ≡ 0
one_address i h = ground arith

exchange_completes_example :
    (h1 : MemoryHub Queue) × (h2 : MemoryHub Queue) × (publish bounded asked both
      ≡ some (ok tt, h1))
    × (on_request (memory_transport bounded alpha_base) handlers asked h1 ≡ some h2)
    × ((h1.inboxes.cell 0).held ≡ [] ++ asked ∷ [])
    × ((h2.inboxes.cell 1).held ≡ [] ++ answered ∷ [])
    × (cells.poll (
          (meanwhile cells
              (arrives answered ∷ [])
              (register cells "only" (no_requests cells (λ i. waiting)))).cells
            0)
        ≡ ready (1 ∷ 3 ∷ []))
unfolding get no_requests
exchange_completes_example =
    exchange_completes bounded cells no_inboxes alpha_base "alpha" "beta" "echo" "only" (3 ∷ [])
      (1 ∷ 3 ∷ []) handlers prefix both 0 1 (record (channel 16) { held = asked ∷ [] })
      (record (channel 16) { held = answered ∷ [] }) (no_requests cells (λ i. waiting))
      both_subscribed (λ i h. has_room i asked) (λ i h. (one_address i h, has_room i answered))
      (omega arith) refl (omega arith) refl refl refl (no_requests-Inv cells (λ i. waiting))
