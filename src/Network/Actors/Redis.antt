-- ===== src/Network/Actors/Redis.antt =====
-- The actor of src/transport/redis/redis.rs as such an actor.
use mom_rpc.Base.{
  Bool-cases, arith, some, none, Option, inr, inl, ◌⊎◌, ◌∙◌, ap, sym, refl, ◌≡◌, ◌<>◌, String, ℕ,
}
use mom_rpc.Network.Actors.Handing.{Handed, decoded_one, hand_out-HandsOut}
use mom_rpc.FanOut.Reachable.{Inv}
use mom_rpc.Domain.{Envelope}
use mom_rpc.Error.{Attempt, done, failed, map_err, transport}
use mom_rpc.Calls
use mom_rpc.Calls.{Ends, answered, answered-Ends, refused-Ends, dropped-Ends}
use mom_rpc.Channels.{Channels}
use mom_rpc.Redis.{
  Connections, RedisActor, Selected, command, message, stream_ended, shutdown_notified,
  commands_closed, handle_publish, publish_payload, handle_subscribe, handle_incoming, receive,
  on_selected, handle_cmd, handle_close, receivers,
}
use mom_rpc.Network.Actors.{ActorTransport, Publishes, Quiet}
use mom_rpc.Mqtt.Actor.{Cmd}

-- The message that the loop takes, if its payload is a text, and the envelope that it is to publish.
abbrev pub takes : Selected → Option (String × String)
takes (command cmd) = none
takes (message topic (done payload)) = some (topic, payload)
takes (message topic (failed text)) = none
takes stream_ended = none
takes shutdown_notified = none
takes commands_closed = none

abbrev pub sends : Selected → Option Envelope
sends (command (Cmd.publish env resp)) = some env
sends (command (Cmd.subscribe topic resp)) = none
sends (command (Cmd.close resp)) = none
sends (message topic payload) = none
sends stream_ended = none
sends shutdown_notified = none
sends commands_closed = none

module _ (k : Channels) (c : Connections) (to_string : Envelope → Attempt String)
    (from_str : String → Attempt Envelope)
    (decodes : (e : Envelope) (s : String) → to_string e ≡ done s → from_str s ≡ done e)
    (Written : c.State → String → String → Type 0) (publishes : Publishes c.publish Written)
    (subscribes : (topic : String) → Quiet (c.subscribe topic) Written) where
  receive-Handed :
      (topic p : String) (a : RedisActor k.Inbox c.State) (r : Attempt Envelope)
      → from_str p ≡ r
      → Inv a.local
      → Handed k to_string (takes (message topic (done p))) a.local (receive k r topic a).local
  receive-Handed topic p a (failed text) read v = inl refl
  receive-Handed topic p a (done e) read v = inr (
    topic,
    p,
    e,
    refl,
    decoded_one to_string from_str decodes p e read,
    hand_out-HandsOut k topic e a.local v,
  )

  handle_subscribe-local :
      (topic : String) (resp : ℕ) (a : RedisActor k.Inbox c.State)
      → (handle_subscribe c topic resp a).local ≡ a.local
  unfolding handle_subscribe
  handle_subscribe-local topic resp a = ground arith

  pub on_selected-Handed :
      (i : Selected) (a : RedisActor k.Inbox c.State)
      → Inv a.local
      → Handed k to_string (takes i) a.local (on_selected k c to_string from_str i a).1.local
  unfolding on_selected handle_cmd handle_incoming handle_close
  on_selected-Handed (command (Cmd.publish env resp)) a v = inl refl
  on_selected-Handed (command (Cmd.subscribe topic resp)) a v =
      inl (handle_subscribe-local topic resp a)
  on_selected-Handed (command (Cmd.close resp)) a v = inl refl
  on_selected-Handed (message topic (done p)) a v = receive-Handed topic p a (from_str p) refl v
  on_selected-Handed (message topic (failed text)) a v = inl refl
  on_selected-Handed stream_ended a v = inl refl
  on_selected-Handed shutdown_notified a v = inl refl
  on_selected-Handed commands_closed a v = inl refl

  publish_payload-Written :
      (env : Envelope) (a : RedisActor k.Inbox c.State) (t p : String) (r : Attempt String)
      → to_string env ≡ r
      → Written (publish_payload c env.address.name a r).1 t p
      → Written a.connections t p
        ⊎ ((e : Envelope) × (some env ≡ some e) × (t ≡ e.address.name) × (to_string e ≡ done p))
  publish_payload-Written env a t p (failed text) wrote w = inl w
  publish_payload-Written env a t p (done payload) wrote w =
      elim (publishes env.address.name payload a.connections t p w) [
        | inl old ↦ inl old
        | inr (to, same) ↦ inr (env, refl, to, wrote ∙ ap done (sym same))
      ]

  handle_subscribe-Written :
      (topic : String) (resp : ℕ) (a : RedisActor k.Inbox c.State) (t p : String)
      → Written (handle_subscribe c topic resp a).connections t p
      → Written a.connections t p
  unfolding handle_subscribe
  handle_subscribe-Written topic resp a t p w = elim (Bool-cases a.subscribe_pending) [
    | inl e ↦ rw e at w
    | inr e ↦ subscribes topic a.connections t p (rw e at w)
  ]

  pub on_selected-Written :
      (i : Selected) (a : RedisActor k.Inbox c.State) (t p : String)
      → Written (on_selected k c to_string from_str i a).1.connections t p
      → Written a.connections t p
        ⊎ ((e : Envelope) × (sends i ≡ some e) × (t ≡ e.address.name) × (to_string e ≡ done p))
  unfolding on_selected handle_cmd handle_incoming handle_close handle_publish
  on_selected-Written (command (Cmd.publish env resp)) a t p w =
      publish_payload-Written env a t p (to_string env) refl w
  on_selected-Written (command (Cmd.subscribe topic resp)) a t p w =
      inl (handle_subscribe-Written topic resp a t p w)
  on_selected-Written (command (Cmd.close resp)) a t p w = inl w
  on_selected-Written (message topic (done q)) a t p w = inl (receive-Written (from_str q) w)
    where
      receive-Written :
          (r : Attempt Envelope)
          → Written (receive k r topic a).connections t p
          → Written a.connections t p
      receive-Written (failed text) w = w
      receive-Written (done e) w = w
  on_selected-Written (message topic (failed text)) a t p w = inl w
  on_selected-Written stream_ended a t p w = inl w
  on_selected-Written shutdown_notified a t p w = inl w
  on_selected-Written commands_closed a t p w = inl w

  payload-Ends :
      (env : Envelope) (a : RedisActor k.Inbox c.State) (r : Attempt String)
      → Ends (publish_payload c env.address.name a r).0
  payload-Ends env a (failed text) = inr (_, refl)
  payload-Ends env a (done payload) =
      attempt-Ends (receivers (c.publish env.address.name payload a.connections).0)
    where
      attempt-Ends :
          (r : Attempt (Unit {0}))
          → Ends (
              map_err r (λ text. transport (
                a.transport_id <> ": publish failed for topic " <> env.address.name <> ": "
                <> text)))
      attempt-Ends (done _) = inl refl
      attempt-Ends (failed text) = inr (_, refl)

  pub publish-Ends :
      (id : String) (env : Envelope) (a : RedisActor k.Inbox c.State)
      → Ends (Calls.publish (answered (handle_publish c to_string env a).0))
  unfolding handle_publish
  publish-Ends id env a = answered-Ends _ (payload-Ends env a (to_string env))

  abbrev pub redis_actors : ActorTransport k
  redis_actors = record {
    State = RedisActor k.Inbox c.State;
    Input = Selected;
    Payload = String;
    local = λ a. a.local;
    with_local = λ l a. record a { local = l };
    step = λ i a. (on_selected k c to_string from_str i a).1;
    takes = takes;
    sends = sends;
    encode = to_string;
    Written = λ a. Written a.connections;
    local-with_local = λ l a. refl;
    Written-with_local = λ l a topic p w. w;
    local-step = on_selected-Handed;
    answer = λ e a. (handle_publish c to_string e a).0;
    publish = λ id call. Calls.publish call;
    Written-step = on_selected-Written;
    answer-Ends = publish-Ends;
    refused-Ends = λ id. refused-Ends;
    dropped-Ends = λ id. dropped-Ends;
  }
