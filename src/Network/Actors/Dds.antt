-- ===== src/Network/Actors/Dds.antt =====
-- The actor of src/transport/dds/dust_dds.rs, with the tasks that poll its readers, as such an actor.
pub mod Calls
pub mod Writes
pub mod Writers
use mom_rpc.Base.{some, none, Option, inr, inl, ◌⊎◌, refl, ◌≡◌, String, ℕ}
use mom_rpc.Dds.Reader.{hand_out_decoded, hand_out_sample}
use mom_rpc.Network.Actors.Dds.Writers.{Filed, handle_publish-Fine, handle_subscribe-Fine}
use mom_rpc.Channels.{Channels}
use mom_rpc.Domain.{Bytes, Envelope}
use mom_rpc.Dds.Participant.{Participant, DdsEnvelope}
use mom_rpc.Dds.Actor.{Cmd, DdsActor, handle_cmd, handle_publish}
use mom_rpc.Dds.Transport.{publish}
use mom_rpc.Calls.{Ends, answered, refused, dropped}
use mom_rpc.Network.Actors.{ActorTransport}
use mom_rpc.Network.Actors.Handing.{Handed, decoded_one, hand_out-HandsOut}
use mom_rpc.Network.Actors.Dds.Calls.{Honest}
use mom_rpc.FanOut.Reachable.{Inv}
use mom_rpc.Error.{Attempt, done, failed}

-- A command, the samples that a reader task takes, or one of them that it hands out.
pub data Input (p : Participant) : Type 0 where
  publishes : Envelope → ℕ → Input p
  subscribes : String → ℕ → Input p
  closes : ℕ → Input p
  polls : p.Reader → Input p
  hands_out : String → Option DdsEnvelope → Input p

module _ {p : Participant} where
  abbrev pub takes : Input p → Option (String × Bytes)
  takes (publishes env resp) = none
  takes (subscribes topic resp) = none
  takes (closes resp) = none
  takes (polls reader) = none
  takes (hands_out topic none) = none
  takes (hands_out topic (some sample)) = some (topic, sample.payload)

  abbrev pub sends : Input p → Option Envelope
  sends (publishes env resp) = some env
  sends (subscribes topic resp) = none
  sends (closes resp) = none
  sends (polls reader) = none
  sends (hands_out topic sample) = none

module _ (k : Channels) (p : Participant) (to_vec : Envelope → Attempt Bytes)
    (from_slice : Bytes → Attempt Envelope)
    (decodes : (e : Envelope) (b : Bytes) → to_vec e ≡ done b → from_slice b ≡ done e)
    (Written : p.State → String → Bytes → Type 0) (name_of : p.Topic → String)
    (topic_name : p.Writer → String) (honest : Honest p Written name_of topic_name) where
  -- `publish` of the transport takes the topic from the envelope's address.
  abbrev pub on_input : Input p → DdsActor p k.Inbox → DdsActor p k.Inbox
  on_input (publishes env resp) a =
      (handle_cmd p to_vec (Cmd.publish env.address.name env resp) a).1
  on_input (subscribes topic resp) a = (handle_cmd p to_vec (Cmd.subscribe topic resp) a).1
  on_input (closes resp) a = (handle_cmd p to_vec (Cmd.close resp) a).1
  on_input (polls reader) a = record a { participant = (p.take reader 10 a.participant).1 }
  on_input (hands_out topic sample) a = record a {
    local = hand_out_sample k from_slice topic sample a.local;
  }

  -- An actor with filed writers.
  pub record FiledActor : Type 0 where
    pub actor : DdsActor p k.Inbox
    pub filed : Filed k p Written name_of topic_name honest actor

  decoded-Handed :
      (topic : String) (sample : DdsEnvelope) (a : DdsActor p k.Inbox) (r : Attempt Envelope)
      → from_slice sample.payload ≡ r
      → Inv a.local
      → Handed k to_vec
          (takes {p = p} (hands_out topic (some sample)))
          a.local
          (hand_out_decoded k from_slice topic r a.local)
  decoded-Handed topic sample a (failed text) read v = inl refl
  decoded-Handed topic sample a (done e) read v = inr (
    topic,
    sample.payload,
    e,
    refl,
    decoded_one to_vec from_slice decodes sample.payload e read,
    hand_out-HandsOut k topic e a.local v,
  )

  pub on_input-Handed :
      (i : Input p) (a : FiledActor)
      → Inv a.actor.local
      → Handed k to_vec (takes i) a.actor.local (on_input i a.actor).local
  unfolding handle_cmd
  on_input-Handed (publishes env resp) a v =
      inl
        (handle_publish-Fine k p Written name_of topic_name honest to_vec env.address.name env
          a.actor a.filed).0
  on_input-Handed (subscribes topic resp) a v =
      inl (handle_subscribe-Fine k p Written name_of topic_name honest topic a.actor a.filed).0
  on_input-Handed (closes resp) a v = inl refl
  on_input-Handed (polls reader) a v = inl refl
  on_input-Handed (hands_out topic none) a v = inl refl
  on_input-Handed (hands_out topic (some sample)) a v =
      decoded-Handed topic sample a.actor (from_slice sample.payload) refl v

  pub on_input-Filed :
      (i : Input p) (a : FiledActor)
      → Filed k p Written name_of topic_name honest (on_input i a.actor)
  unfolding handle_cmd
  on_input-Filed (publishes env resp) a =
      (handle_publish-Fine k p Written name_of topic_name honest to_vec env.address.name env a.actor
        a.filed).1
  on_input-Filed (subscribes topic resp) a =
      (handle_subscribe-Fine k p Written name_of topic_name honest topic a.actor a.filed).1
  on_input-Filed (closes resp) a = a.filed
  on_input-Filed (polls reader) a = a.filed
  on_input-Filed (hands_out topic sample) a = a.filed

  pub on_input-Written :
      (i : Input p) (a : FiledActor) (t : String) (c : Bytes)
      → Written (on_input i a.actor).participant t c
      → Written a.actor.participant t c
        ⊎ ((e : Envelope) × (sends i ≡ some e) × (t ≡ e.address.name) × (to_vec e ≡ done c))
  unfolding handle_cmd
  on_input-Written (publishes env resp) a t c h =
      elim ((handle_publish-Fine k p Written name_of topic_name honest to_vec env.address.name env
          a.actor a.filed).2
        t c h) [ inl old ↦ inl old | inr (to, encoded) ↦ inr (env, refl, to, encoded) ]
  on_input-Written (subscribes topic resp) a t c h =
      elim ((handle_subscribe-Fine k p Written name_of topic_name honest topic a.actor a.filed).2 t
        c h) [ inl old ↦ inl old | inr never ↦ absurd never ]
  on_input-Written (closes resp) a t c h = inl h
  on_input-Written (polls reader) a t c h = inl (honest.take reader 10 a.actor.participant t c h)
  on_input-Written (hands_out topic sample) a t c h = inl h

  -- Whatever the actor answers, `publish` returns Ok.
  pub publish-Ends :
      (id : String) (env : Envelope) (a : FiledActor)
      → Ends (publish id (answered (handle_publish p to_vec env.address.name env a.actor).0))
  unfolding publish
  publish-Ends id env a = inl refl

  pub publish_refused-Ends : (id text : String) → Ends (publish id (refused text))
  unfolding publish
  publish_refused-Ends id text = inr (_, refl)

  pub publish_dropped-Ends : (id text : String) → Ends (publish id (dropped text))
  unfolding publish
  publish_dropped-Ends id text = inr (_, refl)

  abbrev pub dds_actors : ActorTransport k
  dds_actors = record {
    State = FiledActor;
    Input = Input p;
    Payload = Bytes;
    local = λ a. a.actor.local;
    with_local = λ l a. record { actor = record (a.actor) { local = l }; filed = a.filed };
    step = λ i a. record { actor = on_input i a.actor; filed = on_input-Filed i a };
    takes = takes;
    sends = sends;
    encode = to_vec;
    Written = λ a. Written a.actor.participant;
    local-with_local = λ l a. refl;
    answer = λ e a. (handle_publish p to_vec e.address.name e a.actor).0;
    publish = publish;
    answer-Ends = publish-Ends;
    refused-Ends = publish_refused-Ends;
    dropped-Ends = publish_dropped-Ends;
    Written-with_local = λ l a topic c w. w;
    local-step = on_input-Handed;
    Written-step = on_input-Written;
  }
