-- ===== src/Examples/RedisFleet.antt =====
-- A client and a server over Redis, with logs as connections, from their start to the answer.
use mom_rpc.Base.{All, ◌++◌, ◌∷◌, [], List, some, false, ◌≡◌, String, ℕ, refl}
use mom_rpc.Network.Actors.Publishing.{Progress}
use mom_rpc.Redis.{
  Connections, RedisActor, command, message, create, on_selected, handle_cmd, handle_publish,
  handle_incoming,
}
use mom_rpc.Mqtt.Actor.{Cmd}
use mom_rpc.Network.{client_task, server_task, Role, topic_of}
use mom_rpc.Network.Actors.{
  ActorTransport, Fleet, Reach, listens, asks, answers, selects, serves, completes, start, later,
  inboxes_of,
}
use mom_rpc.Network.Actors.States.{over_redis, states_over_redis}
use mom_rpc.Network.Actors.Simulation.{actors_refine_any_transport}
use mom_rpc.Network.Lossy
use mom_rpc.Examples.Codec.{
  asked, answered, to_string, from_str, decodes, Logs, append-Logs, entry, no_entry,
}
use mom_rpc.Examples.Networking.{nodes, question, no_inboxes}
use mom_rpc.Oneshot.{Poll, waiting, cells}
use mom_rpc.Channels.Bounded.{Queue, bounded}
use mom_rpc.Channels.{entry_push}
use mom_rpc.FanOut.{fan_out, hand_out, add_subscriber}
use mom_rpc.Broker.Pending.{no_requests, register, on_response}
use mom_rpc.Broker.Request.{request_envelope}
use mom_rpc.Broker.Server.{handle_request}
use mom_rpc.Domain.{request, response}
use mom_rpc.Base.HashMap.{insert, get, remove}
use mom_rpc.Error.{done}
use mathlib.Core.List.{Memᴰ}
use mathlib.Core.List.Memᴰ

abbrev logging : Connections
logging = record {
  State = List (String × String);
  publish = λ topic payload s. (done 1, s ++ (topic, payload) ∷ []);
  subscribe = λ topic s. (done tt, s);
}

abbrev actors : ℕ → RedisActor Queue (List (String × String))
unfolding create
actors n = create logging (nodes n).node_id [] no_inboxes

abbrev redis : ActorTransport bounded
redis =
    over_redis bounded logging to_string from_str decodes (Logs String) append-Logs
      (λ topic s t p w. w)

abbrev Reached : Fleet (RedisActor Queue (List (String × String))) Poll → Type 0
Reached = Reach bounded redis cells nodes (λ i. waiting)

abbrev listening : (s : Fleet (RedisActor Queue (List (String × String))) Poll) × Reached s
unfolding create add_subscriber entry_push
listening = (
  _,
  later
      (later (start actors (λ n. refl) (λ n topic p w. Memᴰ.not-nil w))
        (listens 0 client_task (record { name = "responses/alpha" }) refl))
      (listens 1 server_task (record { name = "requests/beta" }) refl),
)

-- The request is made, published, taken from the wire and handed out.
abbrev arrived : (s : Fleet (RedisActor Queue (List (String × String))) Poll) × Reached s
unfolding create add_subscriber entry_push get insert register request_envelope request no_requests
    hand_out fan_out on_selected handle_cmd handle_publish handle_incoming
arrived = (
  _,
  later
      (later (later listening.1 (asks 0 "beta" "echo" (3 ∷ []) "only" refl refl)) (
        answers (command (Cmd.publish asked 7)) "only" question refl refl refl refl
          (entry [] [] refl)))
      (selects 1 (message "requests/beta" (done "q")) (λ e h. absurd (no_entry h))
        (λ topic p h. (0, entry [] [] h))),
)

-- The response has come back in the same way.
abbrev returned : (s : Fleet (RedisActor Queue (List (String × String))) Poll) × Reached s
unfolding create add_subscriber entry_push get insert remove register request_envelope request
    no_requests hand_out fan_out on_selected handle_cmd handle_publish handle_incoming
    handle_request response on_response
returned = (
  _,
  later
      (later
        (later (later arrived.1 (serves 1 0 _ _ refl refl)) (
          selects 1 (command (Cmd.publish answered 8)) (λ e h. entry (asked ∷ []) [] h)
            (λ topic p h. absurd (no_entry h))))
        (selects 0 (message "responses/alpha" (done "a")) (λ e h. absurd (no_entry h))
          (λ topic p h. (1, entry [] [] h))))
      (completes 0 0 _ _ refl refl),
)

states_over_redis_example : Progress bounded redis cells nodes returned.0 "only" question false
unfolding create add_subscriber entry_push get insert remove register request_envelope request
    no_requests hand_out fan_out on_selected handle_cmd handle_publish handle_incoming
    handle_request response on_response
states_over_redis_example =
    states_over_redis bounded logging to_string from_str decodes (Logs String) append-Logs
      (λ topic s t p w. w) cells nodes (λ i. waiting) returned.0 "only" question false returned.1
      refl

actors_refine_any_transport_example :
    Lossy.Reach cells nodes
      (λ i. waiting)
      (record { published = returned.0.outgoing; records = returned.0.records })
    × ((n i : ℕ) (role : Role)
        → (returned.0.members n).owner i ≡ some role
        → All
            (λ e. Memᴰ e returned.0.outgoing × (e.address.name ≡ topic_of role (nodes n).node_id))
            (bounded.queued ((inboxes_of bounded redis (returned.0.members n)).cell i)))
actors_refine_any_transport_example =
    actors_refine_any_transport bounded redis cells nodes (λ i. waiting) returned.0 returned.1
