-- ===== src/Network/Actors/Dds/Calls.antt =====
-- What the calls of a DomainParticipant write (src/transport/dds/dust_dds.rs).
use mom_rpc.Base.{if◌then◌else◌, ltb, false, true, Bool, ◌⊎◌, refl, ◌≡◌, ◌<>◌, String, ℕ}
use mom_rpc.Dds.Actor.{
  verify_match, dds_type_name, wait_for_matched_reader, wait_for_match, wait_publication, matched,
  new_writer, new_reader, topic_of,
}
use mom_rpc.Dds.Participant.{
  build_rpc_writer_qos, build_rpc_reader_qos, Participant, DdsEnvelope, Policies,
}
use mom_rpc.Domain.{Bytes}
use mom_rpc.Dds.Steps.{Step, proceed, calls, returns, ◌>>=◌}
use mom_rpc.Network.Actors.{Quiet}
use mom_rpc.Error.{Result, ok, err, Attempt, done, failed, map_err, RpcError, transport}

module _ {S A B : Type 0} where
  -- What holds after a step holds after it and the next, if the next keeps it.
  pub proceed_lem :
      (Q : S → Type 0) (rest : A → Step S B) (r : Result A × S)
      → Q r.1
      → ((x : A) → r.0 ≡ ok x → Q (rest x r.1).1)
      → Q (proceed rest r).1
  proceed_lem Q rest (ok a, s) here next = next a refl
  proceed_lem Q rest (err e, s) here next = here

  pub proceed-ok :
      (rest : A → Step S B) (r : Result A × S) (b : B)
      → (proceed rest r).0 ≡ ok b
      → (a : A) × (r.0 ≡ ok a) × ((rest a r.1).0 ≡ ok b)
  proceed-ok rest (ok a, s) b h = (a, refl, h)
  proceed-ok rest (err e, s) b h = cc

pub map_err-ok :
    {A : Type 0} (r : Attempt A) (f : String → RpcError) (a : A) → map_err r f ≡ ok a → r ≡ done a
map_err-ok (done a) f b h = cc
map_err-ok (failed text) f b h = cc

-- What is assumed of the crate: a writer belongs to the topic that it was made for, only a write to it
-- sends, and only to its topic.
pub record Honest (p : Participant) (Written : p.State → String → Bytes → Type 0)
    (name_of : p.Topic → String) (topic_name : p.Writer → String) : Type 0 where
  pub topics :
      (name type_name : String) (s : p.State) (t : p.Topic)
      → (p.create_topic name type_name s).0 ≡ done t
      → name_of t ≡ name
  pub writers :
      (publisher : p.Publisher) (t : p.Topic) (qos : Policies) (s : p.State) (w : p.Writer)
      → (p.create_datawriter publisher t qos s).0 ≡ done w
      → topic_name w ≡ name_of t
  pub writes :
      (w : p.Writer) (e : DdsEnvelope) (s : p.State) (t : String) (b : Bytes)
      → Written (p.write w e s).1 t b
      → Written s t b ⊎ ((t ≡ topic_name w) × (b ≡ e.payload))
  pub create_topic : (name type_name : String) → Quiet (p.create_topic name type_name) Written
  pub create_publisher : Quiet p.create_publisher Written
  pub create_datawriter :
      (publisher : p.Publisher) (t : p.Topic) (qos : Policies)
      → Quiet (p.create_datawriter publisher t qos) Written
  pub create_subscriber : Quiet p.create_subscriber Written
  pub create_datareader :
      (subscriber : p.Subscriber) (t : p.Topic) (qos : Policies)
      → Quiet (p.create_datareader subscriber t qos) Written
  pub get_publication_matched_status :
      (w : p.Writer) → Quiet (p.get_publication_matched_status w) Written
  pub set_enabled_statuses : (w : p.Writer) → Quiet (p.set_enabled_statuses w) Written
  pub attach_condition : (w : p.Writer) → Quiet (p.attach_condition w) Written
  pub wait : (w : p.Writer) (secs : ℕ) → Quiet (p.wait w secs) Written
  pub take : (r : p.Reader) (max : ℕ) → Quiet (p.take r max) Written

module _ (p : Participant) where
  -- The steps of `new_writer` after the topic, and after the publisher.
  abbrev pub make_writer : p.Topic → p.Publisher → Step p.State p.Writer
  make_writer topic_obj publisher = do
    writer ←
        calls (p.create_datawriter publisher topic_obj build_rpc_writer_qos)
          (λ text. transport ("create_datawriter failed: " <> text))
    status ←
        calls (p.get_publication_matched_status writer) (λ text.
          transport ("create_datawriter (get_publication_matched_status) failed: " <> text))
    returns (ok writer)

  abbrev pub with_publisher : p.Topic → Step p.State p.Writer
  with_publisher topic_obj = do
    publisher ← calls p.create_publisher (λ text. transport ("create_publisher failed: " <> text))
    make_writer topic_obj publisher

  abbrev with_subscriber : p.Topic → Step p.State p.Reader
  with_subscriber topic_obj = do
    subscriber ←
        calls p.create_subscriber (λ text. transport ("create_subscriber failed: " <> text))
    calls (p.create_datareader subscriber topic_obj build_rpc_reader_qos)
        (λ text. transport ("create_datareader failed: " <> text))

module _ (p : Participant) (Written : p.State → String → Bytes → Type 0)
    (name_of : p.Topic → String) (topic_name : p.Writer → String)
    (honest : Honest p Written name_of topic_name) where
  -- A step that writes nothing.
  pub record Calm {A : Type 0} (step : Step p.State A) : Type 0 where
    pub quiet : Quiet step Written

  then-Calm :
      {A B : Type 0} {first : Step p.State A} {rest : A → Step p.State B}
      → Calm first
      → ((a : A) → Calm (rest a))
      → Calm (first >>= rest)
  then-Calm {first = first} {rest = rest} before after = record {
    quiet = λ s t b.
        proceed_lem (λ s'. Written s' t b → Written s t b) rest (first s) (before.quiet s t b)
          (λ a _ w. before.quiet s t b ((after a).quiet (first s).1 t b w));
  }

  matched-Calm : (w : p.Writer) → Calm (matched p w)
  matched-Calm w = record { quiet = honest.get_publication_matched_status w }

  if-Calm :
      {A : Type 0} {x y : Step p.State A} (b : Bool) → Calm x → Calm y → Calm (if b then x else y)
  if-Calm true calm other = calm
  if-Calm false other calm = calm

  wait_for_match-Calm :
      (tid topic : String) (w : p.Writer) (secs : ℕ) → Calm (wait_for_match p tid topic w secs)
  wait_for_match-Calm tid topic w secs =
      then-Calm
        {first = calls (p.set_enabled_statuses w)
          (λ text. transport ("set_enabled_statuses failed: " <> text))}
        (record { quiet = honest.set_enabled_statuses w })
        (λ _.
          then-Calm
            {first = calls (p.attach_condition w)
              (λ text. transport ("attach_condition failed: " <> text))}
            (record { quiet = honest.attach_condition w })
            (λ _.
              then-Calm {first = wait_publication p tid topic w secs}
                (record { quiet = honest.wait w secs })
                (λ _.
                  then-Calm {rest = verify_match p tid topic} (matched-Calm w)
                    (λ count. record { quiet = λ s t b h. h }))))

  pub wait_for_matched_reader-Calm :
      (tid topic : String) (w : p.Writer) (secs : ℕ)
      → Calm (wait_for_matched_reader p tid topic w secs)
  unfolding wait_for_matched_reader
  wait_for_matched_reader-Calm tid topic w secs =
      then-Calm {rest = λ n. if ltb 0 n then returns (ok tt) else wait_for_match p tid topic w secs}
        (matched-Calm w)
        (λ n.
          if-Calm {x = returns (ok tt)} {y = wait_for_match p tid topic w secs} (ltb 0 n)
            (record { quiet = λ s t b h. h }) (wait_for_match-Calm tid topic w secs))

  topic_of-Calm : (topic : String) → Calm (topic_of p topic)
  topic_of-Calm topic = record { quiet = honest.create_topic topic dds_type_name }

  with_subscriber-Calm : (t : p.Topic) → Calm (with_subscriber p t)
  with_subscriber-Calm t =
      then-Calm
        {first = calls p.create_subscriber
          (λ text. transport ("create_subscriber failed: " <> text))}
        {rest = λ subscriber.
          calls (p.create_datareader subscriber t build_rpc_reader_qos)
            (λ text. transport ("create_datareader failed: " <> text))}
        (record { quiet = honest.create_subscriber })
        (λ r. record { quiet = honest.create_datareader r t build_rpc_reader_qos })

  pub new_reader-Calm : (topic : String) → Calm (new_reader p topic)
  new_reader-Calm topic =
      then-Calm {rest = with_subscriber p} (topic_of-Calm topic) with_subscriber-Calm

  make_writer-Calm : (t : p.Topic) (r : p.Publisher) → Calm (make_writer p t r)
  make_writer-Calm t r =
      then-Calm
        {rest = λ w.
          (calls (p.get_publication_matched_status w) (λ text.
              transport ("create_datawriter (get_publication_matched_status) failed: " <> text))
            >>= (λ _. returns (ok w)))}
        (record { quiet = honest.create_datawriter r t build_rpc_writer_qos })
        (λ w.
          then-Calm {rest = λ _. returns (ok w)}
            (record { quiet = honest.get_publication_matched_status w })
            (λ _. record { quiet = λ s t b h. h }))

  with_publisher-Calm : (t : p.Topic) → Calm (with_publisher p t)
  with_publisher-Calm t =
      then-Calm {rest = make_writer p t} (record { quiet = honest.create_publisher })
        (make_writer-Calm t)

  pub new_writer-Calm : (topic : String) → Calm (new_writer p topic)
  new_writer-Calm topic =
      then-Calm {rest = with_publisher p} (topic_of-Calm topic) with_publisher-Calm
