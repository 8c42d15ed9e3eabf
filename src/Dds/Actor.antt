-- ===== src/Dds/Actor.antt =====
-- The actor that owns the DomainParticipant, its commands and its loop, and the transport's methods.
use mom_rpc.Base.{
  is_some, if◌then◌else◌, ◌==◌, ltb, ◌++◌, ◌∷◌, [], List, false, true, Bool, ◌<>◌, String, ℕ,
}
use mom_rpc.Error.{Result, ok, err, transport, Attempt, map_err}
use mom_rpc.Domain.{Bytes, Envelope}
use mom_rpc.Base.HashMap.{HashMap, get, insert}
use mom_rpc.Channels.{Inboxes}
use mom_rpc.FanOut.{Local}
use mom_rpc.Mqtt.Actor.{ActorStep}
use mom_rpc.TransportBuilder.{ok_or}
use mom_rpc.Dds.Participant.{
  Participant, dds_of_envelope, build_rpc_reader_qos, build_rpc_writer_qos, Waited, elapsed, waited,
}
use mom_rpc.Dds.Steps.{Step, ◌>>=◌, returns, calls}

pub data Cmd : Type 0 where
  publish : String → Envelope → ℕ → Cmd
  subscribe : String → ℕ → Cmd
  close : ℕ → Cmd

-- Constant type name for all topics.
abbrev pub dds_type_name : String
dds_type_name = "DdsEnvelope"

module _ (p : Participant) where
  -- wait_for_matched_reader, once the wait has ended.
  abbrev pub wait_result : String → String → ℕ → Waited → Result (Unit {0})
  wait_result tid topic timeout_secs elapsed = err (
      transport (
        tid
        <> ": no matched readers for topic "
        <> topic
        <> " within "
        <> p.display timeout_secs
        <> "s"))
  wait_result tid topic timeout_secs (waited r) =
      map_err r (λ text. transport (tid <> ": waitset.wait failed: " <> text))

  abbrev pub wait_publication : String → String → p.Writer → ℕ → Step p.State (Unit {0})
  wait_publication tid topic writer timeout_secs s =
      let r = p.wait writer timeout_secs s in (wait_result tid topic timeout_secs r.0, r.1)

  abbrev pub matched : p.Writer → Step p.State ℕ
  matched writer =
      calls (p.get_publication_matched_status writer)
        (λ text. transport ("get_publication_matched_status failed: " <> text))

  -- The checks of `current_count` before and after the wait.
  abbrev pub verify_match : String → String → ℕ → Step p.State (Unit {0})
  verify_match tid topic count = returns (
      if count == 0
      then err (transport (tid <> ": no matched readers for topic " <> topic))
      else ok tt)

  abbrev pub wait_for_match : String → String → p.Writer → ℕ → Step p.State (Unit {0})
  wait_for_match tid topic writer timeout_secs = do
    _ ←
        calls (p.set_enabled_statuses writer)
          (λ text. transport ("set_enabled_statuses failed: " <> text))
    _ ← calls (p.attach_condition writer) (λ text. transport ("attach_condition failed: " <> text))
    _ ← wait_publication tid topic writer timeout_secs
    current_count ← matched writer
    verify_match tid topic current_count

  unfoldable pub wait_for_matched_reader : String → String → p.Writer → ℕ → Step p.State (Unit {0})
  wait_for_matched_reader tid topic writer timeout_secs = do
    current_count ← matched writer
    if ltb 0 current_count then returns (ok tt) else wait_for_match tid topic writer timeout_secs

  -- A topic of a writer or a reader.
  abbrev pub topic_of : String → Step p.State p.Topic
  topic_of topic =
      calls (p.create_topic topic dds_type_name)
        (λ text. transport ("create_topic failed: " <> text))

  abbrev pub new_writer : String → Step p.State p.Writer
  new_writer topic = do
    topic_obj ← topic_of topic
    publisher ← calls p.create_publisher (λ text. transport ("create_publisher failed: " <> text))
    writer ←
        calls (p.create_datawriter publisher topic_obj build_rpc_writer_qos)
          (λ text. transport ("create_datawriter failed: " <> text))
    status ←
        calls (p.get_publication_matched_status writer) (λ text.
          transport ("create_datawriter (get_publication_matched_status) failed: " <> text))
    returns (ok writer)

  abbrev pub new_reader : String → Step p.State p.Reader
  new_reader topic = do
    topic_obj ← topic_of topic
    subscriber ←
        calls p.create_subscriber (λ text. transport ("create_subscriber failed: " <> text))
    calls (p.create_datareader subscriber topic_obj build_rpc_reader_qos)
        (λ text. transport ("create_datareader failed: " <> text))

  unfoldable pub write_to :
      (Envelope → Attempt Bytes) → String → String → Envelope → p.Writer → Step p.State (Unit {0})
  unfolding wait_for_matched_reader dds_of_envelope
  write_to to_vec tid topic env writer = do
    _ ← wait_for_matched_reader tid topic writer 5
    dds_env ← returns (dds_of_envelope to_vec env)
    calls (p.write writer dds_env)
        (λ text. transport (tid <> ": write failed for topic " <> topic <> ": " <> text))

-- DdsActor. `reader_tasks` has a topic and its reader for each task; `shutdown` is the value of the
-- watch channel, and `replies` what the responders were sent.
pub record DdsActor (p : Participant) (Q : Type 0) : Type 0 where
  pub transport_id : String
  pub participant : p.State
  pub local : Local Q
  pub shutdown : Bool
  pub writers : HashMap p.Writer
  pub reader_tasks : List (String × p.Reader)
  pub replies : List (ℕ × Result (Unit {0}))

abbrev pub reply :
    {p : Participant} {Q : Type 0} → ℕ → Result (Unit {0}) × DdsActor p Q → DdsActor p Q
reply resp (r, a) = record a { replies = (resp, r) ∷ a.replies }

module _ (p : Participant) {Q : Type 0} where
  -- DustddsTransport::create: the actor that it spawns.
  unfoldable pub create : String → p.State → Inboxes Q → DdsActor p Q
  create transport_id participant inboxes = record {
    transport_id = transport_id;
    participant = participant;
    local = record { subscribers = []; inboxes = inboxes };
    shutdown = false;
    writers = [];
    reader_tasks = [];
    replies = [];
  }

  -- A step of the participant.
  abbrev pub on_participant : {A : Type 0} → Step p.State A → Step (DdsActor p Q) A
  on_participant step a = let r = step a.participant in (r.0, record a { participant = r.1 })

  abbrev pub keep_writer : String → p.Writer → Step (DdsActor p Q) (Unit {0})
  keep_writer topic writer a = (ok tt, record a { writers = insert a.writers topic writer })

  unfoldable pub create_writer : String → Step (DdsActor p Q) (Unit {0})
  create_writer topic = do writer ← on_participant (new_writer p topic); keep_writer topic writer

  abbrev pub ensure_writer : String → Step (DdsActor p Q) (Unit {0})
  ensure_writer topic a =
      if is_some (get a.writers topic) then (ok tt, a) else create_writer topic a

  abbrev pub find_writer : String → Step (DdsActor p Q) p.Writer
  find_writer topic a =
      (ok_or (get a.writers topic) (transport ("DataWriter not found for topic " <> topic)), a)

  unfoldable pub handle_publish :
      (Envelope → Attempt Bytes) → String → Envelope → Step (DdsActor p Q) (Unit {0})
  unfolding create_writer write_to
  handle_publish to_vec topic env a =
      (do
        _ ← ensure_writer topic
        writer ← find_writer topic
        on_participant (write_to p to_vec a.transport_id topic env writer))
        a

  -- The task that polls the reader is spawned, and its handle kept.
  abbrev pub spawn_reader : String → p.Reader → Step (DdsActor p Q) (Unit {0})
  spawn_reader topic reader a =
      (ok tt, record a { reader_tasks = a.reader_tasks ++ (topic, reader) ∷ [] })

  unfoldable pub create_reader : String → Step (DdsActor p Q) (Unit {0})
  create_reader topic = do reader ← on_participant (new_reader p topic); spawn_reader topic reader

  unfoldable pub handle_subscribe : String → Step (DdsActor p Q) (Unit {0})
  unfolding create_reader
  handle_subscribe topic = create_reader topic

  unfoldable pub handle_cmd :
      (Envelope → Attempt Bytes) → Cmd → DdsActor p Q → ActorStep × DdsActor p Q
  unfolding handle_publish handle_subscribe
  handle_cmd to_vec (Cmd.publish topic env resp) a =
      (ActorStep.continue, reply resp (handle_publish to_vec topic env a))
  handle_cmd to_vec (Cmd.subscribe topic resp) a =
      (ActorStep.continue, reply resp (handle_subscribe topic a))
  handle_cmd to_vec (Cmd.close resp) a = (ActorStep.stop, reply resp (ok tt, a))

  -- while let Some(cmd) = self.cmd_rx.recv().await
  unfoldable pub handle_all : (Envelope → Attempt Bytes) → List Cmd → DdsActor p Q → DdsActor p Q
  unfolding handle_cmd
  handle_all to_vec [] a = a
  handle_all to_vec (cmd ∷ cmds) a =
      let r = handle_cmd to_vec cmd a in
      let rest = handle_all to_vec cmds r.1 in
      elim r.0 [ ActorStep.stop ↦ r.1 | ActorStep.continue ↦ rest ]

  -- The reader tasks are told to stop, and awaited.
  unfoldable pub run : (Envelope → Attempt Bytes) → List Cmd → DdsActor p Q → DdsActor p Q
  unfolding handle_all
  run to_vec cmds a = record (handle_all to_vec cmds a) { shutdown = true; reader_tasks = [] }
