-- ===== src/Examples/Hubs.antt =====
-- Runs on the in-memory bus.
use mom_rpc.Memory.{send_all, deliver, MemoryHub, new, publish, subscribe}
use mom_rpc.Base.{
  if◌then◌else◌, ◌==◌, ltb, length-append, length, arith, ◌++◌, ◌∷◌, [], List, some, none, false,
  true, fun_ext, ◌∙◌, ap, refl, ◌≡◌, ◌<◌, ◌≤◌, suc, zero, ℕ,
}
use mathlib.Core.Option
use mom_rpc.Examples.{reply}
use mom_rpc.Error.{ok}
use mom_rpc.Domain.{Envelope, Subscription, response}
use mom_rpc.Channels.{Inboxes, copies, entry_push, is_full}
use mom_rpc.Channels.Bounded.{Queue, bounded, channel, offer}
use mom_rpc.Memory.Hub.{Reach, here, next, subscribing, publishing, publish-queued}
use mom_rpc.Memory.Blocking.{publish_waits}

abbrev no_inboxes : Inboxes Queue
no_inboxes = record { cell = λ i. channel 16; next = 0 }

abbrev queue_of : List Envelope → Queue
queue_of l = record { capacity = 16; held = l; dropped = false }

abbrev alpha : Subscription
alpha = record { name = "responses/alpha" }

-- One subscriber with these messages in its inbox.
abbrev one_subscriber : List Envelope → MemoryHub Queue
one_subscriber l = record {
  subscriptions = ("responses/alpha", 0 ∷ []) ∷ [];
  inboxes = record { cell = λ i. if 0 == i then queue_of l else channel 16; next = 1 };
}

abbrev subscribed : Reach bounded (new bounded no_inboxes) (one_subscriber [])
unfolding subscribe entry_push new
subscribed = next here (subscribing alpha (ok 0) refl)

abbrev one_reply : MemoryHub Queue
one_reply = record {
  subscriptions = ("responses/alpha", 0 ∷ []) ∷ [];
  inboxes = record {
    cell =
        λ j. if 0 == j then queue_of (reply ∷ []) else if 0 == j then queue_of [] else channel 16;
    next = 1;
  };
}

publish-queued_example : (one_reply.inboxes.cell 0).held ≡ [] ++ reply ∷ []
unfolding publish response Option.bind
publish-queued_example =
    publish-queued bounded no_inboxes (one_subscriber []) one_reply reply (ok tt) 0
      (queue_of (reply ∷ [])) subscribed refl refl

roomy :
    (i : ℕ)
    → 0 < copies (one_subscriber []).subscriptions reply.address.name i
    → is_full (offer ((one_subscriber []).inboxes.cell i) reply) ≡ false
unfolding response
roomy i h = ground arith

abbrev many : ℕ → List Envelope
many zero = []
many (suc n) = many n ++ reply ∷ []

length-many : (n : ℕ) → length (many n) ≡ n
length-many zero = refl
length-many (suc n) = length-append (many n) (reply ∷ []) ∙ omega (arith, length-many n)

abbrev with_cells : (ℕ → Queue) → MemoryHub Queue
with_cells c = record {
  subscriptions = ("responses/alpha", 0 ∷ []) ∷ [];
  inboxes = record { cell = c; next = 1 };
}

written :
    (i : ℕ) (q q' : Queue)
    → (if 0 == i then q' else if 0 == i then q else channel 16)
      ≡ (if 0 == i then q' else channel 16)
written i q q' = ground arith

room : (n : ℕ) → n < 16 → ltb (length (many n)) 16 ≡ true
room n l = rw (length-many n) (ground arith)

one_more :
    (n : ℕ)
    → n < 16
    → publish bounded reply (one_subscriber (many n)) ≡ some (ok tt, one_subscriber (many (suc n)))
unfolding publish response Option.bind
one_more n l =
    rw (room n l, deliver, send_all)
      (ap (λ c. some (ok tt, with_cells c))
        (fun_ext (λ i. written i (queue_of (many n)) (queue_of (many (suc n))))))

filled : (n : ℕ) → n ≤ 16 → Reach bounded (new bounded no_inboxes) (one_subscriber (many n))
filled zero l = subscribed
filled (suc n) l =
    next (filled n (omega arith)) (publishing reply (ok tt) (one_more n (omega arith)))

publish_waits_example : publish bounded reply (one_subscriber (many 16)) ≡ none
unfolding response
publish_waits_example =
    publish_waits bounded no_inboxes (one_subscriber (many 16)) reply 0 (filled 16 (omega arith))
      (omega arith) refl
