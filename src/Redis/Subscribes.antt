-- ===== src/Redis/Subscribes.antt =====
-- What the callers of `subscribe` are told by the Redis actor.
use mom_rpc.Base.{
  if◌then◌else◌, ◌==◌, arith, ◌∷◌, [], List, false, ◌∙◌, refl, ◌≡◌, String, ◌+◌, suc, ℕ,
}
use mom_rpc.Error.{Result, ok, err, Attempt, done, failed}
use mom_rpc.Domain.{Envelope}
use mom_rpc.Channels.{Channels, Inboxes}
use mom_rpc.Mqtt.Actor.{Cmd, Ack}
use mom_rpc.Mqtt.Acks.{answers}
use mom_rpc.Redis.{
  Connections, RedisActor, Selected, command, message, stream_ended, shutdown_notified,
  commands_closed, create, handle_cmd, handle_subscribe, subscribe_result, handle_incoming, receive,
  on_selected, run,
}

-- How often a responder comes with a subscribe that the actor takes, up to what stops it.
abbrev pub taken : ℕ → List Selected → ℕ
taken resp [] = 0
taken resp (command (Cmd.subscribe topic r) ∷ selected) =
    (if r == resp then 1 else 0) + taken resp selected
taken resp (command (Cmd.publish env r) ∷ selected) = taken resp selected
taken resp (command (Cmd.close r) ∷ selected) = 0
taken resp (message topic payload ∷ selected) = taken resp selected
taken resp (stream_ended ∷ selected) = taken resp selected
taken resp (shutdown_notified ∷ selected) = 0
taken resp (commands_closed ∷ selected) = 0

-- How many answers tell a caller to try again.
abbrev pub retries : List (ℕ × Result Ack) → ℕ
retries [] = 0
retries ((r, ok Ack.retry) ∷ acks) = suc (retries acks)
retries ((r, ok Ack.granted) ∷ acks) = retries acks
retries ((r, err e) ∷ acks) = retries acks

module _ (k : Channels) (c : Connections) (to_string : Envelope → Attempt String)
    (from_str : String → Attempt Envelope) (resp : ℕ) where
  -- No subscribe is pending, n answers to the responder, and none that says to try again.
  abbrev Idle : ℕ → RedisActor k.Inbox c.State → Type 0
  Idle n a = (a.subscribe_pending ≡ false) × (answers resp a.acks ≡ n) × (retries a.acks ≡ 0)

  retries-subscribe_result :
      (id topic : String) (sent : Attempt (Unit {0})) (r : ℕ) (acks : List (ℕ × Result Ack))
      → retries ((r, subscribe_result id topic sent) ∷ acks) ≡ retries acks
  retries-subscribe_result id topic (done _) r acks = refl
  retries-subscribe_result id topic (failed text) r acks = refl

  handle_subscribe-Idle :
      (topic : String) (r n : ℕ) (a : RedisActor k.Inbox c.State)
      → Idle n a
      → Idle ((if r == resp then 1 else 0) + n) (handle_subscribe c topic r a)
  unfolding handle_subscribe
  handle_subscribe-Idle topic r n a (free, count, none_retried) = rw free (
    refl,
    omega (arith, count),
    retries-subscribe_result a.transport_id topic (c.subscribe topic a.connections).0 r a.acks
        ∙ none_retried,
  )

  receive-Idle :
      (o : Attempt Envelope) (topic : String) (n : ℕ) (a : RedisActor k.Inbox c.State)
      → Idle n a
      → Idle n (receive k o topic a)
  receive-Idle (failed text) topic n a h = h
  receive-Idle (done env) topic n a h = h

  handle_incoming-Idle :
      (payload : Attempt String) (topic : String) (n : ℕ) (a : RedisActor k.Inbox c.State)
      → Idle n a
      → Idle n (handle_incoming k from_str topic payload a)
  unfolding handle_incoming
  handle_incoming-Idle (failed text) topic n a h = h
  handle_incoming-Idle (done payload) topic n a h = receive-Idle (from_str payload) topic n a h

  run-Idle :
      (selected : List Selected) (n : ℕ) (a : RedisActor k.Inbox c.State)
      → Idle n a
      → Idle (taken resp selected + n) (run k c to_string from_str selected a)
  unfolding run on_selected handle_cmd
  run-Idle [] n a (free, count, none_retried) = (free, omega (arith, count), none_retried)
  run-Idle (command (Cmd.subscribe topic r) ∷ selected) n a h =
      let (free, count, none_retried) =
        run-Idle selected ((if r == resp then 1 else 0) + n) _
          (handle_subscribe-Idle topic r n a h) in
      (free, omega (arith, count), none_retried)
  run-Idle (command (Cmd.publish env r) ∷ selected) n a h = run-Idle selected n _ h
  run-Idle (command (Cmd.close r) ∷ selected) n a (free, count, none_retried) =
      (free, omega (arith, count), none_retried)
  run-Idle (message topic payload ∷ selected) n a h =
      run-Idle selected n _ (handle_incoming-Idle payload topic n a h)
  run-Idle (stream_ended ∷ selected) n a h = run-Idle selected n _ h
  run-Idle (shutdown_notified ∷ selected) n a (free, count, none_retried) =
      (free, omega (arith, count), none_retried)
  run-Idle (commands_closed ∷ selected) n a (free, count, none_retried) =
      (free, omega (arith, count), none_retried)

  -- From its creation on, the Redis actor has answered through a responder as often as it took a
  -- subscribe with it, up to what stops it, and none of its answers says to try again.
  pub retries-run :
      (transport_id : String) (connections : c.State) (inboxes : Inboxes k.Inbox)
      (selected : List Selected)
      → (answers resp
            (run k c to_string from_str selected (create c transport_id connections inboxes)).acks
          ≡ taken resp selected)
        × (retries
              (run k c to_string from_str selected (create c transport_id connections inboxes)).acks
            ≡ 0)
  unfolding create
  retries-run transport_id connections inboxes selected =
      let (_, count, none_retried) =
        run-Idle selected 0 (create c transport_id connections inboxes) (refl, refl, refl) in
      (omega (arith, count), none_retried)
