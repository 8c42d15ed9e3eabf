-- ===== src/Mqtt/Acks.antt =====
-- What the callers of `subscribe` are told by the actor.
use mom_rpc.Base.{
  Option-cases, if◌then◌else◌, ◌==◌, arith, ◌∷◌, [], List, some, none, Option, false, true, Bool,
  inr, inl, ◌∙◌, ap, refl, ◌≡◌, String, ◌+◌, ℕ,
}
use mom_rpc.Error.{Attempt, done, failed}
use mom_rpc.Domain.{Bytes, Envelope}
use mom_rpc.Channels.{Channels, Inboxes}
use mom_rpc.Mqtt.Incoming.{receive, handle_incoming}
use mom_rpc.Mqtt.Loop.{
  is_disconnect, Selected, commands_closed, command, incoming, suback, connack, other_event,
  poll_error, run, on_selected,
}
use mom_rpc.Mqtt.Actor.{Client, Cmd, MqttActor, SubscribeReasonCode}
use mom_rpc.Mqtt.Commands.{
  handle_cmd, handle_subscribe, handle_suback, on_connack, subscribe_sent, create,
}

-- How many answers a responder was sent, and whether it is the pending one.
abbrev pub answers : {A : Type 0} → ℕ → List (ℕ × A) → ℕ
answers resp [] = 0
answers resp ((r, ack) ∷ acks) = (if r == resp then 1 else 0) + answers resp acks

abbrev pub is_pending : ℕ → Option (String × ℕ) → ℕ
is_pending resp none = 0
is_pending resp (some (topic, r)) = if r == resp then 1 else 0

-- How often a responder comes with a subscribe that the actor takes, up to what stops it.
abbrev pub taken : ℕ → List Selected → ℕ
taken resp [] = 0
taken resp (command (Cmd.subscribe topic r) ∷ selected) =
    (if r == resp then 1 else 0) + taken resp selected
taken resp (command (Cmd.publish env r) ∷ selected) = taken resp selected
taken resp (command (Cmd.close r) ∷ selected) = 0
taken resp (incoming topic payload ∷ selected) = taken resp selected
taken resp (suback codes ∷ selected) = taken resp selected
taken resp (connack ∷ selected) = taken resp selected
taken resp (other_event ∷ selected) = taken resp selected
taken resp (commands_closed ∷ selected) = 0
taken resp (poll_error e ∷ selected) = taken resp selected

module _ (k : Channels) (c : Client) (to_vec : Envelope → Attempt Bytes)
    (from_slice : Bytes → Attempt Envelope) (resp : ℕ) where
  -- The answers and the pending subscribe of the responder.
  abbrev accounted : MqttActor k.Inbox c.State → ℕ
  accounted a = answers resp a.acks + is_pending resp a.pending_subscribe

  subscribe_sent-accounted :
      (topic : String) (r : ℕ) (a : MqttActor k.Inbox c.State) (sent : Attempt (Unit {0}) × c.State)
      → a.pending_subscribe ≡ none
      → accounted (subscribe_sent c topic r a sent) ≡ (if r == resp then 1 else 0) + accounted a
  subscribe_sent-accounted topic r a (done _, client) free = ground arith
  subscribe_sent-accounted topic r a (failed text, client) free = ground arith

  handle_subscribe-accounted :
      (topic : String) (r : ℕ) (a : MqttActor k.Inbox c.State)
      → accounted (handle_subscribe c topic r a) ≡ (if r == resp then 1 else 0) + accounted a
  unfolding handle_subscribe
  handle_subscribe-accounted topic r a = elim (Option-cases a.pending_subscribe) [
    | inl e ↦ rw e (
        subscribe_sent-accounted topic r (record a { pending_subscribe = none })
          (c.subscribe topic a.client) refl)
    | inr (p, e) ↦ rw e (omega arith)
  ]

  handle_suback-accounted :
      (codes : List SubscribeReasonCode) (a : MqttActor k.Inbox c.State)
      → accounted (handle_suback c codes a) ≡ accounted a
  unfolding handle_suback
  handle_suback-accounted codes a = elim (Option-cases a.pending_subscribe) [
    | inl e ↦ rw e refl
    | inr (p, e) ↦ rw e (omega arith)
  ]

  receive-accounted :
      (decoded : Attempt Envelope) (topic : String) (a : MqttActor k.Inbox c.State)
      → accounted (receive k decoded topic a) ≡ accounted a
  receive-accounted (failed text) topic a = refl
  receive-accounted (done env) topic a = refl

  handle_incoming-accounted :
      (topic : String) (payload : Bytes) (a : MqttActor k.Inbox c.State)
      → accounted (handle_incoming k from_slice topic payload a) ≡ accounted a
  unfolding handle_incoming
  handle_incoming-accounted topic payload a = receive-accounted (from_slice payload) topic a

  on_connack-accounted : (a : MqttActor k.Inbox c.State) → accounted (on_connack c a) ≡ accounted a
  unfolding on_connack
  on_connack-accounted a = ground arith

  reconnect-accounted :
      (b : Bool) (a : MqttActor k.Inbox c.State)
      → accounted (if b then record a { reconnect = true } else a) ≡ accounted a
  reconnect-accounted true a = refl
  reconnect-accounted false a = refl

  run-accounted :
      (selected : List Selected) (a : MqttActor k.Inbox c.State)
      → accounted (run k c to_vec from_slice selected a) ≡ taken resp selected + accounted a
  unfolding run on_selected handle_cmd
  run-accounted [] a = omega arith
  run-accounted (command (Cmd.subscribe topic r) ∷ selected) a =
      run-accounted selected _ ∙ omega (arith, handle_subscribe-accounted topic r a)
  run-accounted (command (Cmd.publish env r) ∷ selected) a = run-accounted selected _
  run-accounted (command (Cmd.close r) ∷ selected) a = omega arith
  run-accounted (incoming topic payload ∷ selected) a =
      run-accounted selected _
      ∙ ap (λ n. taken resp selected + n) (handle_incoming-accounted topic payload a)
  run-accounted (suback codes ∷ selected) a =
      run-accounted selected _ ∙ ap (λ n. taken resp selected + n) (handle_suback-accounted codes a)
  run-accounted (connack ∷ selected) a =
      run-accounted selected _ ∙ ap (λ n. taken resp selected + n) (on_connack-accounted a)
  run-accounted (other_event ∷ selected) a = run-accounted selected a
  run-accounted (commands_closed ∷ selected) a = omega arith
  run-accounted (poll_error e ∷ selected) a =
      run-accounted selected _
      ∙ ap (λ n. taken resp selected + n) (reconnect-accounted (is_disconnect e) a)

  -- No subscribe that the actor takes is lost or answered twice: from its creation on, each one that
  -- came with a responder was answered through it once, or is the pending one.
  pub answers-run :
      (transport_id : String) (client : c.State) (inboxes : Inboxes k.Inbox)
      (selected : List Selected)
      → answers resp
            (run k c to_vec from_slice selected (create c transport_id client inboxes)).acks
          + is_pending resp
              (run k c to_vec from_slice selected
                (create c transport_id client inboxes)).pending_subscribe
        ≡ taken resp selected
  unfolding create
  answers-run transport_id client inboxes selected =
      run-accounted selected (create c transport_id client inboxes) ∙ omega arith
