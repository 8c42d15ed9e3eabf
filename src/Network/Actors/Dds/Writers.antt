-- ===== src/Network/Actors/Dds/Writers.antt =====
-- The writers of the DDS actor (src/transport/dds/dust_dds.rs) stand under their topics, and what its
-- commands write goes to these.
use mom_rpc.Base.{
  is_some, Option-cases, Bool-cases, if◌then◌else◌, eq_iff, str_eq, some, false, true, inr, inl,
  ◌⊎◌, ◌∙◌, ap, sym, refl, ◌≡◌, String,
}
use mom_rpc.Dds.Steps.{◌>>=◌, Step}
use mom_rpc.Base.HashMap.{get-insert, get}
use mathlib.Core.Option.{some-injective}
use mom_rpc.Channels.{Channels}
use mom_rpc.Domain.{Bytes, Envelope}
use mom_rpc.Dds.Participant.{Participant}
use mom_rpc.Dds.Actor.{
  DdsActor, handle_publish, handle_subscribe, create_reader, create_writer, ensure_writer,
  find_writer, keep_writer, on_participant, spawn_reader, new_writer, new_reader, write_to,
}
use mom_rpc.Network.Actors.Dds.Calls.{proceed_lem, Honest, new_reader-Calm, new_writer-Calm}
use mom_rpc.Network.Actors.Dds.Writes.{new_writer-topic, write_to-Adds}
use mom_rpc.Error.{ok, Attempt, done}

module _ (k : Channels) (p : Participant) (Written : p.State → String → Bytes → Type 0)
    (name_of : p.Topic → String) (topic_name : p.Writer → String)
    (honest : Honest p Written name_of topic_name) where
  -- The actor has filed its writers under their topics.
  abbrev pub Filed : DdsActor p k.Inbox → Type 0
  Filed a = (topic : String) (w : p.Writer) → get a.writers topic ≡ some w → topic_name w ≡ topic

  -- From one state of the actor to another, nothing is handed out, the writers stay filed, and what is
  -- written was written before, or encodes the envelope for a topic.
  abbrev pub Fine : (String → Bytes → Type 0) → DdsActor p k.Inbox → DdsActor p k.Inbox → Type 0
  Fine New a b =
      (b.local ≡ a.local)
      × Filed b
      × ((t : String) (c : Bytes) → Written b.participant t c → Written a.participant t c ⊎ New t c)

  abbrev pub Nothing : String → Bytes → Type 0
  Nothing t c = ⊥

  create_writer-Fine :
      (topic : String) (a : DdsActor p k.Inbox)
      → Filed a
      → Fine Nothing a (create_writer p topic a).1
  unfolding create_writer
  create_writer-Fine topic a filed =
      proceed_lem (Fine Nothing a) (keep_writer p topic) (on_participant p (new_writer p topic) a)
        (refl, filed, λ t c w. inl (quiet t c w))
        (λ w made. (
          refl,
          λ other v found.
              filed_new w
                (new_writer-topic p Written name_of topic_name honest topic a.participant w made)
                other v (Bool-cases (str_eq topic other))
                (sym (get-insert a.writers topic w other) ∙ found),
          λ t c h. inl (quiet t c h),
        ))
    where
      quiet :
          (t : String) (c : Bytes)
          → Written (new_writer p topic a.participant).1 t c
          → Written a.participant t c
      quiet t c h =
          (new_writer-Calm p Written name_of topic_name honest topic).quiet a.participant t c h

      filed_new :
          (w : p.Writer)
          → topic_name w ≡ topic
          → (other : String) (v : p.Writer)
          → (str_eq topic other ≡ true) ⊎ (str_eq topic other ≡ false)
          → (if str_eq topic other then some w else get a.writers other) ≡ some v
          → topic_name v ≡ other
      filed_new w to other v (inl same) found =
          ap topic_name (sym (some-injective _ _ (rw same at found)))
          ∙ to
          ∙ (eq_iff topic other).0 same
      filed_new w to other v (inr apart) found = filed other v (rw apart at found)

  ensure_writer-Fine :
      (topic : String) (a : DdsActor p k.Inbox)
      → Filed a
      → Fine Nothing a (ensure_writer p topic a).1
  ensure_writer-Fine topic a filed = elim (Bool-cases (is_some (get a.writers topic))) [
    | inl there ↦ rw there (refl, filed, λ t c h. inl h)
    | inr new ↦ rw new (create_writer-Fine topic a filed)
  ]

  find_writer-ok :
      (topic : String) (a : DdsActor p k.Inbox) (w : p.Writer)
      → (find_writer p topic a).0 ≡ ok w
      → get a.writers topic ≡ some w
  find_writer-ok topic a w h = elim (Option-cases (get a.writers topic)) [
    | inl none_ ↦ cc (rw none_ at h)
    | inr (v, found) ↦ found ∙ ap some (ok-injective v w (rw found at h))
  ]
    where
      ok-injective : (v w : p.Writer) → ok v ≡ ok w → v ≡ w
      ok-injective v w h = cc

  abbrev pub Own : (Envelope → Attempt Bytes) → String → Envelope → String → Bytes → Type 0
  Own to_vec topic env t c = (t ≡ topic) × (to_vec env ≡ done c)

  Fine-trans :
      (New : String → Bytes → Type 0) (a b c : DdsActor p k.Inbox)
      → Fine Nothing a b
      → Fine New b c
      → Fine New a c
  Fine-trans New a b c (same, _, old) (same', filed, new) = (
    same' ∙ same,
    filed,
    λ t x h. elim (new t x h) [
      | inl w ↦ elim (old t x w) [ inl v ↦ inl v | inr never ↦ absurd never ]
      | inr n ↦ inr n
    ],
  )

  -- The writer that was found for the topic writes the envelope.
  abbrev write_found :
      (Envelope → Attempt Bytes)
      → String
      → String
      → Envelope
      → p.Writer
      → Step (DdsActor p k.Inbox) (Unit {0})
  write_found to_vec tid topic env w = on_participant p (write_to p to_vec tid topic env w)

  write_found-Fine :
      (to_vec : Envelope → Attempt Bytes) (tid topic : String) (env : Envelope)
      (b : DdsActor p k.Inbox)
      → Filed b
      → Fine
          (Own to_vec topic env)
          b
          ((find_writer p topic >>= write_found to_vec tid topic env) b).1
  write_found-Fine to_vec tid topic env b filed =
      proceed_lem (Fine (Own to_vec topic env) b) (write_found to_vec tid topic env)
        (find_writer p topic b) (refl, filed, λ t c h. inl h)
        (λ w found. (
          refl,
          filed,
          λ t c h.
              elim (write_to-Adds p Written name_of topic_name honest to_vec tid topic env w
                b.participant t c h) [
                  | inl old ↦ inl old
                  | inr (to, encoded) ↦
                      inr (to ∙ filed topic w (find_writer-ok topic b w found), encoded)
                ],
        ))

  -- What a publish writes.
  pub handle_publish-Fine :
      (to_vec : Envelope → Attempt Bytes) (topic : String) (env : Envelope) (a : DdsActor p k.Inbox)
      → Filed a
      → Fine (Own to_vec topic env) a (handle_publish p to_vec topic env a).1
  unfolding handle_publish
  handle_publish-Fine to_vec topic env a filed =
      let ensured = ensure_writer-Fine topic a filed in
      let b = (ensure_writer p topic a).1 in
      let write = find_writer p topic >>= write_found to_vec a.transport_id topic env in
      let here : Fine (Own to_vec topic env) b b = (refl, ensured.1, λ t c h. inl h) in
      let next = write_found-Fine to_vec a.transport_id topic env b ensured.1 in
      proceed_lem (Fine (Own to_vec topic env) a) (λ _. write) (ensure_writer p topic a)
        (Fine-trans (Own to_vec topic env) a b b ensured here)
        (λ _ _. Fine-trans (Own to_vec topic env) a b (write b).1 ensured next)

  pub handle_subscribe-Fine :
      (topic : String) (a : DdsActor p k.Inbox)
      → Filed a
      → Fine Nothing a (handle_subscribe p topic a).1
  unfolding handle_subscribe create_reader
  handle_subscribe-Fine topic a filed =
      proceed_lem (Fine Nothing a) (spawn_reader p topic) (on_participant p (new_reader p topic) a)
        (refl, filed, quiet) (λ reader made. (refl, filed, quiet))
    where
      quiet :
          (t : String) (c : Bytes)
          → Written (new_reader p topic a.participant).1 t c
          → Written a.participant t c ⊎ Nothing t c
      quiet t c h =
          inl
            ((new_reader-Calm p Written name_of topic_name honest topic).quiet a.participant t c h)
