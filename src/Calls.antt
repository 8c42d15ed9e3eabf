-- ===== src/Calls.antt =====
-- How the methods of the actor-based transports (src/transport/mqtt/rumqttc.rs, redis/redis.rs,
-- amqp/lapin.rs, dds/dust_dds.rs) use their actor: a command is sent, with a responder in it, and the
-- answer awaited.
use mom_rpc.Base.{inr, ◌⊎◌, refl, ◌≡◌, ◌<>◌, String, ℕ}
use mom_rpc.Channels.{Channels}
use mom_rpc.FanOut.{Local, add_subscriber}
use mom_rpc.Error.{◌>>=◌, Result, ok, err, transport}

-- What becomes of a command: the actor's channel is closed, the actor drops the responder, or it
-- answers. The first two carry the text of the channel's error.
pub data Call (A : Type 0) : Type 0 where
  refused : String → Call A
  dropped : String → Call A
  answered : A → Call A

-- The texts of the two errors.
pub record Texts : Type 0 where
  pub closed : String → String
  pub unread : String → String

abbrev pub publish_texts : Texts
publish_texts = record {
  closed = λ e. "actor command channel closed:" <> e;
  unread = λ e. "actor responder channel read failed:" <> e;
}

abbrev pub subscribe_texts : Texts
subscribe_texts = record {
  closed = λ e. "actor command channel closed:" <> e;
  unread = λ e. "actor resp_rx channel read failed:" <> e;
}

-- self.cmd_tx.send(…).await.map_err(…)?; rx.await.map_err(…)?
abbrev pub awaited : {A : Type 0} → Texts → Call A → Result A
awaited texts (refused e) = err (transport (texts.closed e))
awaited texts (dropped e) = err (transport (texts.unread e))
awaited texts (answered a) = ok a

-- The inner result of an answer.
abbrev pub answer_of : {A : Type 0} → Result (Result A) → Result A
answer_of (err e) = err e
answer_of (ok r) = r

-- `publish` of the transports over MQTT, Redis and AMQP.
unfoldable pub publish : Call (Result (Unit {0})) → Result (Unit {0})
publish call = answer_of (awaited publish_texts call)

-- `close`: neither error matters, and the actor's task is awaited.
unfoldable pub close : Call (Result (Unit {0})) → Result (Unit {0})
close call = ok tt

-- `subscribe` of the transports over AMQP and DDS: the new sender goes into the map first, and stays
-- there if the subscribe fails.
unfoldable pub subscribe :
    (k : Channels) → String → Call (Result (Unit {0})) → Local k.Inbox → Result ℕ × Local k.Inbox
unfolding add_subscriber
subscribe k topic call l =
    let r = add_subscriber k topic l in
    (answer_of (awaited subscribe_texts call) >>= λ _. ok r.0, r.1)

-- A publish ends with Ok, or with the error Transport.
abbrev pub Ends : Result (Unit {0}) → Type 0
Ends r = (r ≡ ok tt) ⊎ (text : String) × (r ≡ err (transport text))

pub refused-Ends : (e : String) → Ends (publish (refused e))
unfolding publish
refused-Ends e = inr (publish_texts.closed e, refl)

pub dropped-Ends : (e : String) → Ends (publish (dropped e))
unfolding publish
dropped-Ends e = inr (publish_texts.unread e, refl)

pub answered-Ends : (r : Result (Unit {0})) → Ends r → Ends (publish (answered r))
unfolding publish
answered-Ends r h = h
