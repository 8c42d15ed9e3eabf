-- ===== src/Amqp/Tags.antt =====
-- The tag that the AMQP actor gives its consumers, which is one for all queues.
use mom_rpc.Base.{eq_iff, arith, none, false, true, ◌≢◌, ◌∙◌, refl, ◌≡◌, ◌<>◌, String}
use mom_rpc.Error.{is_ok, Attempt, done, failed}
use mom_rpc.Base.HashMap.{get, get-insert}
use mom_rpc.Amqp.Actor.{Channel, Actor, do_subscribe, declared, spawn_consumer}

-- The channel's consumers by their tags, as AMQP 0-9-1 has them: basic.consume puts its tag in use,
-- and refuses one that is in use; queue.declare changes none.
pub record Tags (c : Channel) : Type 1 where
  pub InUse : String → c.State → Type 0
  pub basic_consume-InUse :
      (queue tag : String) (s s' : c.State)
      → c.basic_consume queue tag s ≡ (done tt, s')
      → InUse tag s'
  pub queue_declare-InUse :
      (queue tag : String) (s : c.State) → InUse tag s → InUse tag (c.queue_declare queue s).1
  pub reused :
      (queue tag : String) (s : c.State)
      → InUse tag s
      → (text : String) × ((c.basic_consume queue tag s).0 ≡ failed text)

module _ (c : Channel) (g : Tags c) {Q : Type 0} where
  -- The tag is in use in the actor's channel.
  abbrev Consuming : Actor Q c.State → Type 0
  Consuming a = g.InUse (a.transport_id <> "-consumer") a.channel

  spawn_consumer-Consuming :
      (queue : String) (a : Actor Q c.State) (r : Attempt (Unit {0}) × c.State)
      → c.basic_consume queue (a.transport_id <> "-consumer") a.channel ≡ r
      → is_ok (spawn_consumer c queue a r).0 ≡ true
      → Consuming (spawn_consumer c queue a r).1
  spawn_consumer-Consuming queue a (failed text, channel) consumed succeeds = cc succeeds
  spawn_consumer-Consuming queue a (done _, channel) consumed succeeds =
      g.basic_consume-InUse queue (a.transport_id <> "-consumer") a.channel channel consumed

  declared-Consuming :
      (queue : String) (a : Actor Q c.State) (r : Attempt (Unit {0}) × c.State)
      → get a.consumer_handles queue ≡ none
      → is_ok (declared c queue a r).0 ≡ true
      → Consuming (declared c queue a r).1
  declared-Consuming queue a (failed text, channel) new succeeds = cc succeeds
  declared-Consuming queue a (done _, channel) new succeeds =
      rw new (
        spawn_consumer-Consuming queue (record a { channel = channel }) _ refl (rw new at succeeds))

  spawn_consumer-refused :
      (queue : String) (a : Actor Q c.State) (r : Attempt (Unit {0}) × c.State) (text : String)
      → r.0 ≡ failed text
      → is_ok (spawn_consumer c queue a r).0 ≡ false
  spawn_consumer-refused queue a (failed e, channel) text refused = refl
  spawn_consumer-refused queue a (done _, channel) text refused = cc refused

  declared-refused :
      (queue : String) (a : Actor Q c.State) (r : Attempt (Unit {0}) × c.State)
      → get a.consumer_handles queue ≡ none
      → g.InUse (a.transport_id <> "-consumer") r.1
      → is_ok (declared c queue a r).0 ≡ false
  declared-refused queue a (failed text, channel) new used = refl
  declared-refused queue a (done _, channel) new used =
      let (text, refused) = g.reused queue (a.transport_id <> "-consumer") channel used in
      rw new (spawn_consumer-refused queue (record a { channel = channel }) _ text refused)

  handles-spawn_consumer :
      (queue : String) (a : Actor Q c.State) (r : Attempt (Unit {0}) × c.State) (other : String)
      → queue ≢ other
      → get (spawn_consumer c queue a r).1.consumer_handles other ≡ get a.consumer_handles other
  handles-spawn_consumer queue a (failed text, channel) other apart = refl
  handles-spawn_consumer queue a (done _, channel) other apart =
      ground
        (arith, get-insert a.consumer_handles queue a.next_task other, eq_iff queue other, apart)

  handles-declared :
      (queue : String) (a : Actor Q c.State) (r : Attempt (Unit {0}) × c.State) (other : String)
      → get a.consumer_handles queue ≡ none
      → queue ≢ other
      → get (declared c queue a r).1.consumer_handles other ≡ get a.consumer_handles other
  handles-declared queue a (failed text, channel) other new apart = refl
  handles-declared queue a (done _, channel) other new apart =
      rw new (handles-spawn_consumer queue (record a { channel = channel }) _ other apart)

  -- Over a channel that refuses a consumer's tag that is in use: an actor that has subscribed to a
  -- queue which it did not consume, and succeeded, fails to subscribe to any second queue that it
  -- does not consume.
  pub do_subscribe-second :
      (queue other : String) (a : Actor Q c.State)
      → get a.consumer_handles queue ≡ none
      → get a.consumer_handles other ≡ none
      → queue ≢ other
      → is_ok (do_subscribe c queue a).0 ≡ true
      → is_ok (do_subscribe c other (do_subscribe c queue a).1).0 ≡ false
  unfolding do_subscribe
  do_subscribe-second queue other a new other_new apart succeeds =
      let b = (declared c queue a (c.queue_declare queue a.channel)).1 in
      declared-refused other b (c.queue_declare other b.channel)
        (handles-declared queue a _ other new apart ∙ other_new)
        (g.queue_declare-InUse other _ b.channel
          (declared-Consuming queue a (c.queue_declare queue a.channel) new succeeds))
