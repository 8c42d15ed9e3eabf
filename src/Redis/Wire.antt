-- ===== src/Redis/Wire.antt =====
-- What one Redis transport publishes, in the inbox of a subscriber of another.
use mom_rpc.Base.{arith, ◌++◌, ◌∷◌, [], List, refl, ◌≡◌, ◌<>◌, String, ℕ}
use mom_rpc.Error.{Result, map_err, transport, Attempt, done, failed, ok}
use mom_rpc.Domain.{Envelope}
use mom_rpc.Channels.{Channels, Inboxes}
use mom_rpc.FanOut.{add_subscriber, hand_out}
use mom_rpc.FanOut.Reachable.{Reach, add_subscriber-hand_out}
use mom_rpc.Redis.{
  receivers, Connections, RedisActor, handle_publish, handle_cmd, message, on_selected,
  publish_payload, handle_incoming,
}
use mom_rpc.Mqtt.Actor.{Cmd}

-- The transport of a subscriber to a topic.
abbrev pub subscribed :
    (k : Channels) {S : Type 0} → String → RedisActor k.Inbox S → RedisActor k.Inbox S
subscribed k topic b = record b { local = (add_subscriber k topic b.local).1 }

module _ (k : Channels) (c : Connections) (to_string : Envelope → Attempt String)
    (from_str : String → Attempt Envelope) (published : c.State → List (String × String))
    (publishes : (topic payload : String) (s s' : c.State) (n : ℕ)
      → c.publish topic payload s ≡ (done n, s')
      → published s' ≡ published s ++ (topic, payload) ∷ []) where
  sent_by :
      (topic payload : String) (a : RedisActor k.Inbox c.State) (r : Attempt ℕ × c.State)
      → c.publish topic payload a.connections ≡ r
      → map_err (receivers r.0) (λ text.
        transport (a.transport_id <> ": publish failed for topic " <> topic <> ": " <> text))
        ≡ ok tt
      → published r.1 ≡ published a.connections ++ (topic, payload) ∷ []
  sent_by topic payload a (done n, s) e h = publishes topic payload a.connections s n e
  sent_by topic payload a (failed text, s) e h = cc

  published_by :
      (topic : String) (a : RedisActor k.Inbox c.State) (o : Attempt String)
      → (publish_payload c topic a o).0 ≡ ok tt
      → (payload : String) × (o ≡ done payload)
        × (published (publish_payload c topic a o).1
            ≡ published a.connections ++ (topic, payload) ∷ [])
  published_by topic a (failed text) h = cc
  published_by topic a (done payload) h =
      (payload, refl, sent_by topic payload a (c.publish topic payload a.connections) refl h)

  own_answer :
      (resp : ℕ) (x : Result (Unit {0})) (l : List (ℕ × Result (Unit {0})))
      → (resp, x) ∷ l ≡ (resp, ok tt) ∷ l
      → x ≡ ok tt
  own_answer resp x l h = ground arith

  taken :
      (topic payload : String) (env : Envelope) (b : RedisActor k.Inbox c.State)
      → from_str payload ≡ done env
      → (on_selected k c to_string from_str (message topic (done payload)) b).1.local
        ≡ hand_out k topic env b.local
  unfolding on_selected handle_incoming
  taken topic payload env b read = rw read refl

  -- If serde_json reads what it writes for an envelope, a PUBLISH that succeeds hands its payload to
  -- the channel, and another actor's map of subscribers was reached from one without any: a publish
  -- that the actor answers with Ok has put one payload on the channel of the envelope's address, and
  -- the other actor, when it takes this message, puts the envelope as it was sent, and nothing else,
  -- into the inbox of a new subscriber to the address.
  pub publish_arrives :
      (a b : RedisActor k.Inbox c.State) (env : Envelope) (resp : ℕ) (t : Inboxes k.Inbox)
      → ((s : String) → to_string env ≡ done s → from_str s ≡ done env)
      → (handle_cmd c to_string (Cmd.publish env resp) a).1.replies ≡ (resp, ok tt) ∷ a.replies
      → Reach k (record { subscribers = []; inboxes = t }) b.local
      → (payload : String) × (published
            (handle_cmd c to_string (Cmd.publish env resp) a).1.connections
          ≡ published a.connections ++ (env.address.name, payload) ∷ [])
        × (k.queued (
              (on_selected k c to_string from_str
                  (message env.address.name (done payload))
                  (subscribed k env.address.name b)).1.local.inboxes.cell
                (add_subscriber k env.address.name b.local).0)
            ≡ env ∷ [])
  unfolding handle_cmd handle_publish
  publish_arrives a b env resp t decodes replied reach =
      let (payload, written, put) =
        published_by env.address.name a (to_string env) (own_answer resp _ a.replies replied) in
      (
        payload,
        put,
        rw
            (taken env.address.name payload env (subscribed k env.address.name b)
              (decodes payload written))
            (add_subscriber-hand_out k t b.local env.address.name env reach).0,
      )
