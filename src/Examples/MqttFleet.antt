-- ===== src/Examples/MqttFleet.antt =====
-- A client and a server over MQTT, with logs as clients, from their start to the answer.
use mom_rpc.Base.{◌++◌, ◌∷◌, [], List, false, String, ℕ, refl}
use mom_rpc.Network.Actors.Publishing.{Progress}
use mom_rpc.Mqtt.Actor.{Client, Cmd, MqttActor}
use mom_rpc.Mqtt.Commands.{create, handle_cmd, handle_publish}
use mom_rpc.Mqtt.Incoming.{handle_incoming}
use mom_rpc.Mqtt.Loop.{command, incoming, on_selected}
use mom_rpc.Network.{client_task, server_task}
use mom_rpc.Network.Actors.{
  ActorTransport, Fleet, Reach, listens, asks, answers, selects, serves, completes, start, later,
}
use mom_rpc.Network.Actors.States.{over_mqtt, states_over_mqtt}
use mom_rpc.Examples.Codec.{
  asked, answered, to_vec, from_slice, decodes_bytes, Logs, append-Logs, entry, no_entry,
}
use mom_rpc.Examples.Networking.{nodes, question, no_inboxes}
use mom_rpc.Oneshot.{Poll, waiting, cells}
use mom_rpc.Channels.Bounded.{Queue, bounded}
use mom_rpc.Channels.{entry_push}
use mom_rpc.FanOut.{fan_out, hand_out, add_subscriber}
use mom_rpc.Broker.Pending.{no_requests, register, on_response}
use mom_rpc.Broker.Request.{request_envelope}
use mom_rpc.Broker.Server.{handle_request}
use mom_rpc.Domain.{Bytes, request, response}
use mom_rpc.Base.HashMap.{insert, get, remove}
use mom_rpc.Error.{done}
use mathlib.Core.List.Memᴰ

abbrev logging : Client
logging = record {
  State = List (String × Bytes);
  publish = λ topic payload s. (done tt, s ++ (topic, payload) ∷ []);
  subscribe = λ topic s. (done tt, s);
  disconnect = λ s. (done tt, s);
  debug_codes = λ codes. "";
}

abbrev actors : ℕ → MqttActor Queue (List (String × Bytes))
unfolding create
actors n = create logging (nodes n).node_id [] no_inboxes

abbrev mqtt : ActorTransport bounded
mqtt =
    over_mqtt bounded logging to_vec from_slice decodes_bytes (Logs Bytes) append-Logs
      (λ topic s t p w. w) (λ s t p w. w)

abbrev Reached : Fleet (MqttActor Queue (List (String × Bytes))) Poll → Type 0
Reached = Reach bounded mqtt cells nodes (λ i. waiting)

abbrev listening : (s : Fleet (MqttActor Queue (List (String × Bytes))) Poll) × Reached s
unfolding create add_subscriber entry_push
listening = (
  _,
  later
      (later (start actors (λ n. refl) (λ n topic p w. Memᴰ.not-nil w))
        (listens 0 client_task (record { name = "responses/alpha" }) refl))
      (listens 1 server_task (record { name = "requests/beta" }) refl),
)

-- The request is made, published, taken from the wire and handed out.
abbrev arrived : (s : Fleet (MqttActor Queue (List (String × Bytes))) Poll) × Reached s
unfolding create add_subscriber entry_push get insert register request_envelope request no_requests
    hand_out fan_out on_selected handle_cmd handle_publish handle_incoming
arrived = (
  _,
  later
      (later (later listening.1 (asks 0 "beta" "echo" (3 ∷ []) "only" refl refl)) (
        answers (command (Cmd.publish asked 7)) "only" question refl refl refl refl
          (entry [] [] refl)))
      (selects 1 (incoming "requests/beta" (0 ∷ [])) (λ e h. absurd (no_entry h))
        (λ topic p h. (0, entry [] [] h))),
)

-- The response has come back in the same way.
abbrev returned : (s : Fleet (MqttActor Queue (List (String × Bytes))) Poll) × Reached s
unfolding create add_subscriber entry_push get insert remove register request_envelope request
    no_requests hand_out fan_out on_selected handle_cmd handle_publish handle_incoming
    handle_request response on_response
returned = (
  _,
  later
      (later
        (later (later arrived.1 (serves 1 0 _ _ refl refl)) (
          selects 1 (command (Cmd.publish answered 8)) (λ e h. entry (asked ∷ []) [] h)
            (λ topic p h. absurd (no_entry h))))
        (selects 0 (incoming "responses/alpha" (1 ∷ [])) (λ e h. absurd (no_entry h))
          (λ topic p h. (1, entry [] [] h))))
      (completes 0 0 _ _ refl refl),
)

states_over_mqtt_example : Progress bounded mqtt cells nodes returned.0 "only" question false
unfolding create add_subscriber entry_push get insert remove register request_envelope request
    no_requests hand_out fan_out on_selected handle_cmd handle_publish handle_incoming
    handle_request response on_response
states_over_mqtt_example =
    states_over_mqtt bounded logging to_vec from_slice decodes_bytes (Logs Bytes) append-Logs
      (λ topic s t p w. w) (λ s t p w. w) cells nodes (λ i. waiting) returned.0 "only" question
      false returned.1 refl
