-- ===== src/Examples/AmqpFleet.antt =====
-- A client and a server over AMQP, with logs as channels, from their start to the answer.
use mom_rpc.Base.{◌++◌, ◌∷◌, [], List, false, String, ℕ, refl}
use mom_rpc.Amqp.Actor.{Channel, Cmd, Actor, create, handle_cmd, do_publish}
use mom_rpc.Amqp.Consumer.{on_delivery}
use mom_rpc.Memory.{send_all}
use mom_rpc.Network.Actors.Amqp.{command, delivered}
use mom_rpc.Network.{client_task, server_task}
use mom_rpc.Network.Actors.Publishing.{Progress}
use mom_rpc.Network.Actors.{
  ActorTransport, Fleet, Reach, listens, asks, answers, selects, serves, completes, start, later,
}
use mom_rpc.Network.Actors.States.{over_amqp, states_over_amqp}
use mom_rpc.Examples.Codec.{
  asked, answered, to_vec, from_slice, decodes_bytes, Logs, append-Logs, entry, no_entry,
}
use mom_rpc.Examples.Networking.{nodes, question, no_inboxes}
use mom_rpc.Oneshot.{Poll, waiting, cells}
use mom_rpc.Channels.Bounded.{Queue, bounded}
use mom_rpc.Channels.{entry_push}
use mom_rpc.FanOut.{add_subscriber}
use mom_rpc.Broker.Pending.{no_requests, register, on_response}
use mom_rpc.Broker.Request.{request_envelope}
use mom_rpc.Broker.Server.{handle_request}
use mom_rpc.Domain.{Bytes, request, response}
use mom_rpc.Base.HashMap.{insert, get, remove}
use mom_rpc.Error.{done}
use mathlib.Core.List.Memᴰ

abbrev logging : Channel
logging = record {
  State = List (String × Bytes);
  queue_declare = λ queue s. (done tt, s);
  basic_consume = λ queue tag s. (done tt, s);
  basic_publish = λ queue payload s. (done tt, s ++ (queue, payload) ∷ []);
  close_channel = λ s. s;
  close_connection = λ s. s;
}

abbrev actors : ℕ → Actor Queue (List (String × Bytes))
unfolding create
actors n =
    create logging (nodes n).node_id [] no_inboxes (λ i. record { queue = ""; running = false })

abbrev amqp : ActorTransport bounded
amqp =
    over_amqp bounded logging to_vec from_slice decodes_bytes (Logs Bytes) append-Logs
      (λ queue s t p w. w) (λ queue tag s t p w. w)

abbrev Reached : Fleet (Actor Queue (List (String × Bytes))) Poll → Type 0
Reached = Reach bounded amqp cells nodes (λ i. waiting)

abbrev listening : (s : Fleet (Actor Queue (List (String × Bytes))) Poll) × Reached s
unfolding create add_subscriber entry_push
listening = (
  _,
  later
      (later (start actors (λ n. refl) (λ n topic p w. Memᴰ.not-nil w))
        (listens 0 client_task (record { name = "responses/alpha" }) refl))
      (listens 1 server_task (record { name = "requests/beta" }) refl),
)

-- The request is made, published, taken from the wire and handed out.
abbrev arrived : (s : Fleet (Actor Queue (List (String × Bytes))) Poll) × Reached s
unfolding create add_subscriber entry_push get insert register request_envelope request no_requests
    handle_cmd do_publish on_delivery send_all
arrived = (
  _,
  later
      (later (later listening.1 (asks 0 "beta" "echo" (3 ∷ []) "only" refl refl)) (
        answers (command (Cmd.publish asked 7)) "only" question refl refl refl refl
          (entry [] [] refl)))
      (selects 1 (delivered "requests/beta" (record { ack = done tt; payload = 0 ∷ [] }))
        (λ e h. absurd (no_entry h)) (λ topic p h. (0, entry [] [] h))),
)

-- The response has come back in the same way.
abbrev returned : (s : Fleet (Actor Queue (List (String × Bytes))) Poll) × Reached s
unfolding create add_subscriber entry_push get insert remove register request_envelope request
    no_requests handle_cmd do_publish on_delivery send_all handle_request response on_response
returned = (
  _,
  later
      (later
        (later (later arrived.1 (serves 1 0 _ _ refl refl)) (
          selects 1 (command (Cmd.publish answered 8)) (λ e h. entry (asked ∷ []) [] h)
            (λ topic p h. absurd (no_entry h))))
        (selects 0 (delivered "responses/alpha" (record { ack = done tt; payload = 1 ∷ [] }))
          (λ e h. absurd (no_entry h)) (λ topic p h. (1, entry [] [] h))))
      (completes 0 0 _ _ refl refl),
)

states_over_amqp_example : Progress bounded amqp cells nodes returned.0 "only" question false
unfolding create add_subscriber entry_push get insert remove register request_envelope request
    no_requests handle_cmd do_publish on_delivery send_all handle_request response on_response
states_over_amqp_example =
    states_over_amqp bounded logging to_vec from_slice decodes_bytes (Logs Bytes) append-Logs
      (λ queue s t p w. w) (λ queue tag s t p w. w) cells nodes (λ i. waiting) returned.0 "only"
      question false returned.1 refl
