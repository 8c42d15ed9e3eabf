-- ===== src/Examples/DdsFleet.antt =====
-- A client and a server over DDS, with logs as participants, from their start to the answer.
use mom_rpc.Base.{◌++◌, ◌∷◌, [], List, some, false, ◌≡◌, String, ℕ, refl}
use mom_rpc.Channels.Bounded.{Queue, bounded}
use mom_rpc.Dds.Participant.{Participant, no_data, waited, dds_of_envelope}
use mom_rpc.Dds.Actor.{
  create, handle_cmd, handle_publish, create_writer, write_to, wait_for_matched_reader,
}
use mom_rpc.Network.Actors.Dds.{publishes, hands_out}
use mom_rpc.Network.Actors.Dds.Calls.{Honest}
use mom_rpc.Network.{client_task, server_task}
use mom_rpc.Network.Actors.Publishing.{Progress}
use mom_rpc.Network.Actors.{
  ActorTransport, Fleet, Reach, listens, asks, answers, selects, serves, completes, start, later,
}
use mom_rpc.Network.Actors.States.{over_dds, states_over_dds}
use mom_rpc.Examples.Codec.{
  asked, answered, to_vec, from_slice, decodes_bytes, Logs, append-Logs, entry, no_entry,
}
use mom_rpc.Examples.Networking.{nodes, question, no_inboxes}
use mom_rpc.Oneshot.{Poll, waiting, cells}
use mom_rpc.Channels.{entry_push}
use mom_rpc.FanOut.{fan_out, hand_out, add_subscriber}
use mom_rpc.Broker.Pending.{no_requests, register, on_response}
use mom_rpc.Broker.Request.{request_envelope}
use mom_rpc.Broker.Server.{handle_request}
use mom_rpc.Domain.{Bytes, request, response}
use mom_rpc.Base.HashMap.{insert, get, remove}
use mom_rpc.Error.{done}
use mathlib.Core.List.Memᴰ

-- A topic and a writer are given by the topic's name. Every writer has a matching reader.
abbrev logging : Participant
logging = record {
  State = List (String × Bytes);
  Topic = String;
  Publisher = Unit;
  Subscriber = Unit;
  Writer = String;
  Reader = String;
  create_topic = λ name type_name s. (done name, s);
  create_publisher = λ s. (done tt, s);
  create_datawriter = λ publisher t qos s. (done t, s);
  create_subscriber = λ s. (done tt, s);
  create_datareader = λ subscriber t qos s. (done t, s);
  get_publication_matched_status = λ w s. (done 1, s);
  set_enabled_statuses = λ w s. (done tt, s);
  attach_condition = λ w s. (done tt, s);
  wait = λ w secs s. (waited (done tt), s);
  write = λ w e s. (done tt, s ++ (w, e.payload) ∷ []);
  take = λ r max s. (no_data, s);
  display = λ n. "";
}

topic_of_writer : (name t : String) → done name ≡ done t → t ≡ name
topic_of_writer name t h = cc

logging-Honest : Honest logging (Logs Bytes) (λ t. t) (λ w. w)
logging-Honest = record {
  topics = λ name type_name s t h. topic_of_writer name t h;
  writers = λ publisher t qos s w h. topic_of_writer t w h;
  writes = λ w e s t b h. append-Logs w e.payload s t b h;
  create_topic = λ name type_name s t b h. h;
  create_publisher = λ s t b h. h;
  create_datawriter = λ publisher topic qos s t b h. h;
  create_subscriber = λ s t b h. h;
  create_datareader = λ subscriber topic qos s t b h. h;
  get_publication_matched_status = λ w s t b h. h;
  set_enabled_statuses = λ w s t b h. h;
  attach_condition = λ w s t b h. h;
  wait = λ w secs s t b h. h;
  take = λ r max s t b h. h;
}

abbrev dds : ActorTransport bounded
dds =
    over_dds bounded logging to_vec from_slice decodes_bytes (Logs Bytes) (λ t. t) (λ w. w)
      logging-Honest

no_writers :
    (n : ℕ) (topic w : String)
    → get (create logging {Q = Queue} (nodes n).node_id [] no_inboxes).writers topic ≡ some w
    → w ≡ topic
unfolding create get
no_writers n topic w h = absurd (no_entry h)

abbrev actors : ℕ → dds.State
unfolding create
actors n = record { actor = create logging (nodes n).node_id [] no_inboxes; filed = no_writers n }

abbrev Reached : Fleet dds.State Poll → Type 0
Reached = Reach bounded dds cells nodes (λ i. waiting)

abbrev listening : (s : Fleet dds.State Poll) × Reached s
unfolding create add_subscriber entry_push
listening = (
  _,
  later
      (later (start actors (λ n. refl) (λ n topic p w. Memᴰ.not-nil w))
        (listens 0 client_task (record { name = "responses/alpha" }) refl))
      (listens 1 server_task (record { name = "requests/beta" }) refl),
)

-- The request is made, published, taken from the wire and handed out.
abbrev arrived : (s : Fleet dds.State Poll) × Reached s
unfolding create add_subscriber entry_push get insert register request_envelope request no_requests
    hand_out fan_out handle_cmd handle_publish create_writer write_to wait_for_matched_reader
    dds_of_envelope
arrived = (
  _,
  later
      (later (later listening.1 (asks 0 "beta" "echo" (3 ∷ []) "only" refl refl))
        (answers (publishes asked 7) "only" question refl refl refl refl (entry [] [] refl)))
      (selects 1
        (hands_out "requests/beta" (some (record { topic = "requests/beta"; payload = 0 ∷ [] })))
        (λ e h. absurd (no_entry h)) (λ topic p h. (0, entry [] [] h))),
)

-- The response has come back in the same way.
abbrev returned : (s : Fleet dds.State Poll) × Reached s
unfolding create add_subscriber entry_push get insert remove register request_envelope request
    no_requests hand_out fan_out handle_cmd handle_publish create_writer write_to
    wait_for_matched_reader dds_of_envelope handle_request response on_response
returned = (
  _,
  later
      (later
        (later (later arrived.1 (serves 1 0 _ _ refl refl)) (
          selects 1 (publishes answered 8) (λ e h. entry (asked ∷ []) [] h)
            (λ topic p h. absurd (no_entry h))))
        (selects 0
          (hands_out "responses/alpha"
            (some (record { topic = "responses/alpha"; payload = 1 ∷ [] })))
          (λ e h. absurd (no_entry h)) (λ topic p h. (1, entry [] [] h))))
      (completes 0 0 _ _ refl refl),
)

states_over_dds_example : Progress bounded dds cells nodes returned.0 "only" question false
unfolding create add_subscriber entry_push get insert remove register request_envelope request
    no_requests hand_out fan_out handle_cmd handle_publish create_writer write_to
    wait_for_matched_reader dds_of_envelope handle_request response on_response
states_over_dds_example =
    states_over_dds bounded logging to_vec from_slice decodes_bytes (Logs Bytes) (λ t. t) (λ w. w)
      logging-Honest cells nodes (λ i. waiting) returned.0 "only" question false returned.1 refl
