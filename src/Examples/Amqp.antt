-- ===== src/Examples/Amqp.antt =====
-- Runs of the AMQP actor and its consumers, over a channel that remembers its consumers' tags.
use mom_rpc.Base.{
  eq_iff, String, if◌then◌else◌, ◌==◌, ◌∷◌, [], List, some, false, true, Bool, ◌≢◌, ap, sym, refl,
  ◌≡◌, ℕ,
}
use mom_rpc.Amqp.Replies.{answered, answered-run}
use mom_rpc.Amqp.Consumer.{consumer_error, delivery, Next, consume}
use mom_rpc.Examples.{reply}
use mathlib.Core.Option
use mom_rpc.Error.{Attempt, done, failed, is_ok}
use mom_rpc.Domain.{Bytes, Envelope}
use mom_rpc.Base.HashMap.{get}
use mom_rpc.Channels.{Inboxes}
use mom_rpc.Channels.Bounded.{Queue, bounded, channel}
use mom_rpc.FanOut.{Local}
use mom_rpc.Amqp.Actor.{Channel, Cmd, Actor, ConsumerTask, create, do_subscribe, handle_cmd, run}
use mom_rpc.Amqp.Consumers.{here, handles, run-stops_consumers}
use mom_rpc.Amqp.Tags.{Tags, do_subscribe-second}
use mom_rpc.Amqp.Deliveries.{consume-offered}

abbrev pub no_inboxes : Inboxes Queue
no_inboxes = record { cell = λ i. channel 16; next = 0 }

-- The state says whether a consumer has the one tag that is used.
abbrev once_consume : Bool → Attempt (Unit {0}) × Bool
once_consume true = (failed "not allowed", true)
once_consume false = (done tt, true)

abbrev pub amqp : Channel
amqp = record {
  State = Bool;
  queue_declare = λ queue s. (done tt, s);
  basic_consume = λ queue tag s. once_consume s;
  basic_publish = λ queue payload s. (done tt, s);
  close_channel = λ s. s;
  close_connection = λ s. s;
}

used_after : (s s' : Bool) → once_consume s ≡ (done tt, s') → s' ≡ true
used_after true s' h = cc h
used_after false s' h = sym (ap (λ (r : Attempt (Unit {0}) × Bool). r.1) h)

one_tag : Tags amqp
one_tag = record {
  InUse = λ tag s. s ≡ true;
  basic_consume-InUse = λ queue tag s s' h. used_after s s' h;
  queue_declare-InUse = λ queue tag s h. h;
  reused = λ queue tag s h. ("not allowed", rw h refl);
}

abbrev pub no_tasks : ℕ → ConsumerTask
no_tasks i = record { queue = ""; running = false }

abbrev started : Actor Queue Bool
started = create amqp "alpha" false no_inboxes no_tasks

abbrev to_vec : Envelope → Attempt Bytes
to_vec env = done (1 ∷ [])

abbrev from_slice : Bytes → Attempt Envelope
from_slice [] = failed "EOF"
from_slice (b ∷ bytes) = done reply

abbrev consuming : Actor Queue Bool
consuming = handle_cmd amqp to_vec (Cmd.subscribe "responses/alpha" 0) started

run-stops_consumers_example :
    (◌≡◌ {A = ℕ} 0 0)
    × (get consuming.consumer_handles "responses/alpha" ≡ some 0)
    × (((run amqp to_vec (Cmd.close 1 ∷ []) consuming).tasks 0).running ≡ false)
unfolding handle_cmd do_subscribe create get
run-stops_consumers_example =
    run-stops_consumers amqp to_vec "alpha" false no_inboxes no_tasks consuming (Cmd.close 1 ∷ []) 0
      0 0 (λ i. refl) (handles started (Cmd.subscribe "responses/alpha" 0) here) refl refl refl

apart : ◌≢◌ {A = String} "responses/alpha" "requests/alpha"
apart h = cc ((eq_iff "responses/alpha" "requests/alpha").1 h)

do_subscribe-second_example :
    is_ok (do_subscribe amqp "requests/alpha" (do_subscribe amqp "responses/alpha" started).1).0
    ≡ false
unfolding do_subscribe create get
do_subscribe-second_example =
    do_subscribe-second amqp one_tag "responses/alpha" "requests/alpha" started refl refl apart refl

abbrev one_local : Local Queue
one_local = record {
  subscribers = ("responses/alpha", 0 ∷ []) ∷ [];
  inboxes = record { cell = λ i. channel 16; next = 1 };
}

abbrev yielded : List Next
yielded =
    delivery (record { ack = done tt; payload = [] })
    ∷ delivery (record { ack = done tt; payload = 1 ∷ [] })
    ∷ consumer_error "closed"
    ∷ []

abbrev consumed : Local Queue
consumed = record {
  subscribers = ("responses/alpha", 0 ∷ []) ∷ [];
  inboxes = record {
    cell = λ j. if 0 == j then record (channel 16) { held = reply ∷ [] } else channel 16;
    next = 1;
  };
}

consume-offered_example :
    (consumed.inboxes.cell 0 ≡ record (channel 16) { held = reply ∷ [] })
    × (consumed.subscribers ≡ one_local.subscribers)
    × (false ≡ false)
unfolding consume Option.bind get
consume-offered_example =
    consume-offered bounded from_slice "responses/alpha" yielded one_local consumed false 0 refl

-- A command behind the close is answered too.
answered-run_example :
    answered
      (run amqp to_vec
        (Cmd.subscribe "responses/alpha" 5 ∷ Cmd.close 6 ∷ Cmd.publish reply 7 ∷ [])
        (create amqp "alpha" false no_inboxes no_tasks)).replies
    ≡ 7 ∷ 6 ∷ 5 ∷ []
answered-run_example =
    answered-run amqp to_vec "alpha" false no_inboxes no_tasks
      (Cmd.subscribe "responses/alpha" 5 ∷ Cmd.close 6 ∷ Cmd.publish reply 7 ∷ [])
