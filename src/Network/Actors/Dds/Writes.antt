-- ===== src/Network/Actors/Dds/Writes.antt =====
-- The topic of a new writer, and what a write to one writes (src/transport/dds/dust_dds.rs).
use mom_rpc.Base.{inr, inl, ◌⊎◌, ◌∙◌, ap, sym, refl, ◌≡◌, ◌<>◌, String}
use mom_rpc.Network.Actors.Dds.Calls.{
  proceed_lem, proceed-ok, map_err-ok, Honest, wait_for_matched_reader-Calm, make_writer,
  with_publisher,
}
use mom_rpc.Dds.Actor.{dds_type_name, wait_for_matched_reader, new_writer, topic_of, write_to}
use mom_rpc.Dds.Participant.{build_rpc_writer_qos, Participant, DdsEnvelope, dds_of_envelope}
use mom_rpc.Domain.{Envelope, Bytes}
use mom_rpc.Dds.Steps.{Step, calls, returns, ◌>>=◌}
use mom_rpc.Error.{ok, Attempt, done, failed, transport}

module _ (p : Participant) (Written : p.State → String → Bytes → Type 0)
    (name_of : p.Topic → String) (topic_name : p.Writer → String)
    (honest : Honest p Written name_of topic_name) where
  make_writer-topic :
      (t : p.Topic) (publisher : p.Publisher) (s : p.State) (w : p.Writer)
      → (make_writer p t publisher s).0 ≡ ok w
      → topic_name w ≡ name_of t
  make_writer-topic t publisher s w h =
      let create =
        calls (p.create_datawriter publisher t build_rpc_writer_qos)
          (λ text. transport ("create_datawriter failed: " <> text)) in
      let (made, created, rest) =
        proceed-ok
          (λ writer.
            (calls (p.get_publication_matched_status writer) (λ text.
                transport ("create_datawriter (get_publication_matched_status) failed: " <> text))
              >>= (λ _. returns (ok writer))))
          (create s) w h in
      let (_, _, same) = proceed-ok (λ _. returns (ok made)) _ w rest in
      let one : made ≡ w = cc in
      sym (ap topic_name one)
      ∙ honest.writers publisher t build_rpc_writer_qos s made (map_err-ok _ _ made created)

  -- A new writer writes to the topic that it was asked for.
  pub new_writer-topic :
      (topic : String) (s : p.State) (w : p.Writer)
      → (new_writer p topic s).0 ≡ ok w
      → topic_name w ≡ topic
  new_writer-topic topic s w h =
      let (t, named, h') = proceed-ok (with_publisher p) (topic_of p topic s) w h in
      let (publisher, _, made) = proceed-ok (make_writer p t) _ w h' in
      make_writer-topic t publisher _ w made
      ∙ honest.topics topic dds_type_name s t (map_err-ok _ _ t named)

  abbrev write_sample : String → String → p.Writer → DdsEnvelope → Step p.State (Unit {0})
  write_sample tid topic writer dds_env =
      calls (p.write writer dds_env)
        (λ text. transport (tid <> ": write failed for topic " <> topic <> ": " <> text))

  -- What is written encodes the envelope, or was written before.
  abbrev pub Adds : (Envelope → Attempt Bytes) → Envelope → p.Writer → p.State → p.State → Type 0
  Adds to_vec env w s s' =
      (t : String) (b : Bytes)
      → Written s' t b
      → Written s t b ⊎ ((t ≡ topic_name w) × (to_vec env ≡ done b))

  encoded-Adds :
      (to_vec : Envelope → Attempt Bytes) (tid topic : String) (env : Envelope) (w : p.Writer)
      (s : p.State) (r : Attempt Bytes)
      → to_vec env ≡ r
      → Adds to_vec env w s
          ((returns (dds_of_envelope to_vec env) >>= write_sample tid topic w) s).1
  unfolding dds_of_envelope
  encoded-Adds to_vec env_ topic env w s (failed text) e t b h = inl (rw e at h)
  encoded-Adds to_vec tid topic env w s (done payload) e t b h =
      elim (honest.writes w (record { topic = env.address.name; payload = payload }) s t b
        (rw e at h)) [ inl old ↦ inl old | inr (to, same) ↦ inr (to, e ∙ ap done (sym same)) ]

  pub write_to-Adds :
      (to_vec : Envelope → Attempt Bytes) (tid topic : String) (env : Envelope) (w : p.Writer)
      (s : p.State)
      → Adds to_vec env w s (write_to p to_vec tid topic env w s).1
  unfolding write_to
  write_to-Adds to_vec tid topic env w s t b =
      let calm = wait_for_matched_reader-Calm p Written name_of topic_name honest tid topic w 5 in
      proceed_lem
        (λ s'. Written s' t b → Written s t b ⊎ ((t ≡ topic_name w) × (to_vec env ≡ done b)))
        (λ _. (returns (dds_of_envelope to_vec env) >>= write_sample tid topic w))
        (wait_for_matched_reader p tid topic w 5 s) (λ h. inl (calm.quiet s t b h))
        (λ _ _ h. elim (encoded-Adds to_vec tid topic env w _ (to_vec env) refl t b h) [
          | inl old ↦ inl (calm.quiet s t b old)
          | inr new ↦ inr new
        ])
