-- ===== src/FanOut/Races.antt =====
-- What becomes of a subscription made while a message is handed out: between its two accesses to the
-- map, handle_incoming holds no lock.
use mom_rpc.Base.{length, eq_iff, arith, List, some, ◌≡◌, String, ◌<◌, ℕ}
use mom_rpc.Domain.{Envelope}
use mom_rpc.Base.HashMap.{get, get-insert}
use mom_rpc.Channels.{Channels, count}
use mom_rpc.FanOut.{Local, fan_out, fan_out_to, add_subscriber}
use mom_rpc.FanOut.Delivery.{senders_of, fan_out-survives}

module _ (k : Channels) where
  -- A subscription that is made after a message's senders were read, the new inbox not among them,
  -- and before the survivors are written back, is lost if one of the senders does not survive: the
  -- new inbox is then in no list of the topic.
  pub late_subscriber_lost :
      (topic : String) (env : Envelope) (senders : List ℕ) (a : Local k.Inbox)
      → get a.subscribers topic ≡ some senders
      → count a.inboxes.next senders ≡ 0
      → length (fan_out k senders env (add_subscriber k topic a).1.inboxes).0 < length senders
      → count (add_subscriber k topic a).0 (
          senders_of
            (fan_out_to k (some senders) topic env (add_subscriber k topic a).1).subscribers
            topic)
        ≡ 0
  unfolding add_subscriber
  late_subscriber_lost topic env senders a read fresh fewer =
      let survives =
        fan_out-survives k senders env (add_subscriber k topic a).1.inboxes a.inboxes.next
          (omega (arith, fresh)) in
      let written =
        get-insert (add_subscriber k topic a).1.subscribers topic
          (fan_out k senders env (add_subscriber k topic a).1.inboxes).0 topic in
      ground (arith, eq_iff topic topic)
