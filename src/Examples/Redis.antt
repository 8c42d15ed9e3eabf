-- ===== src/Examples/Redis.antt =====
-- Runs of the Redis actor, and of the map that the actors share.
use mom_rpc.Base.{
  arith, ◌++◌, refl, ℕ, if◌then◌else◌, ◌∷◌, [], List, false, true, Bool, ◌≡◌, String,
}
use mom_rpc.Examples.{reply}
use mom_rpc.Error.{Attempt, done, failed}
use mom_rpc.Domain.{Envelope, response}
use mom_rpc.Channels.{Inboxes}
use mom_rpc.Channels.Bounded.{Queue, bounded, channel}
use mom_rpc.FanOut.{add_subscriber}
use mom_rpc.FanOut.Reachable.{here}
use mom_rpc.Mqtt.Acks.{answers}
use mom_rpc.Mqtt.Actor.{Cmd}
use mom_rpc.Redis.{
  Connections, RedisActor, Selected, command, message, stream_ended, run, create, on_selected,
  handle_cmd, handle_publish,
}
use mom_rpc.Redis.Wire.{publish_arrives, subscribed}
use mom_rpc.Redis.Subscribes.{retries, retries-run}

abbrev no_inboxes : Inboxes Queue
no_inboxes = record { cell = λ i. channel 16; next = 0 }

-- Connections that refuse the first subscription.
abbrev pub connections : Connections
connections = record {
  State = Bool;
  publish = λ topic payload s. (done 1, s);
  subscribe = λ topic s. (if s then done tt else failed "refused", true);
}

abbrev to_string : Envelope → Attempt String
to_string env = done "{}"

abbrev from_str : String → Attempt Envelope
from_str text = done reply

-- A subscribe that is refused, one that is granted, and a publish.
abbrev selected : List Selected
selected =
    command (Cmd.subscribe "responses/alpha" 0)
    ∷ message "responses/alpha" (done "{}")
    ∷ command (Cmd.subscribe "responses/alpha" 1)
    ∷ stream_ended
    ∷ command (Cmd.publish reply 2)
    ∷ []

abbrev ran : RedisActor Queue Bool
ran =
    run bounded connections to_string from_str selected
      (create connections "alpha" false no_inboxes)

retries-run_example : (answers 1 ran.acks ≡ 1) × (retries ran.acks ≡ 0)
retries-run_example =
    retries-run bounded connections to_string from_str 1 "alpha" false no_inboxes selected

-- Connections that log what is published.
abbrev logging : Connections
logging = record {
  State = List (String × String);
  publish = λ topic payload s. (done 1, s ++ (topic, payload) ∷ []);
  subscribe = λ topic s. (done tt, s);
}

abbrev publisher : RedisActor Queue (List (String × String))
publisher = create logging "beta" [] no_inboxes

abbrev subscriber : RedisActor Queue (List (String × String))
subscriber = create logging "alpha" [] no_inboxes

abbrev wired : RedisActor Queue (List (String × String))
wired = (handle_cmd logging to_string (Cmd.publish reply 4) publisher).1

logged :
    (topic payload : String) (s s' : List (String × String)) (n : ℕ)
    → logging.publish topic payload s ≡ (done n, s')
    → s' ≡ s ++ (topic, payload) ∷ []
logged topic payload s s' n e = ground arith

publish_arrives_example :
    (payload : String) × (wired.connections ≡ [] ++ ("responses/alpha", payload) ∷ [])
    × (((on_selected bounded logging to_string from_str
            (message "responses/alpha" (done payload))
            (subscribed bounded "responses/alpha" subscriber)).1.local.inboxes.cell
          (add_subscriber bounded "responses/alpha" subscriber.local).0).held
        ≡ reply ∷ [])
unfolding create handle_cmd handle_publish response
publish_arrives_example =
    publish_arrives bounded logging to_string from_str (λ s. s) logged publisher subscriber reply 4
      no_inboxes (λ s e. refl) refl here
