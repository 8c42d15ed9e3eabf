-- ===== src/Examples/Dds.antt =====
-- Runs of the DDS actor and its readers, over a participant whose calls succeed.
use mom_rpc.Base.{
  if◌then◌else◌, ◌==◌, ◌≢◌, suc, ℕ, false, arith, ◌++◌, ◌∷◌, [], List, some, none, Option, refl,
  ◌≡◌, String,
}
use mom_rpc.Dds.Actor.{Cmd, DdsActor, handle_cmd, handle_publish, handle_subscribe}
use mom_rpc.Error.{err, RpcError, ok, Attempt, done}
use mom_rpc.Dds.Participant.{elapsed, Participant, DdsEnvelope, Taken, samples, no_data, waited}
use mom_rpc.Dds.Unmatched.{unmatched_publish}
use mom_rpc.Dds.Transport.{publish}
use mom_rpc.Calls.{answered}
use mom_rpc.Dds.Copies.{drain_tasks-subscribe_times, drain_tasks, Caches}
use mom_rpc.FanOut.Reachable.{here}
use mom_rpc.Memory.Delivery.{offered}
use mom_rpc.FanOut.{add_subscriber, Local}
use mom_rpc.Examples.{reply}
use mom_rpc.Domain.{Bytes, Envelope}
use mom_rpc.Channels.{Inboxes}
use mom_rpc.Channels.Bounded.{Queue, bounded, channel}
use mom_rpc.Dds.Reader.{drain_reader, hand_out_samples}
use mom_rpc.Dds.Drains.{Cache, drain_reader_lem}

abbrev no_inboxes : Inboxes Queue
no_inboxes = record { cell = λ i. channel 16; next = 0 }

-- The first of the samples.
abbrev take_one : List (Option DdsEnvelope) → Taken × List (Option DdsEnvelope)
take_one [] = (no_data, [])
take_one (sample ∷ rest) = (samples (sample ∷ []), rest)

-- A participant of which all readers share the samples.
abbrev pub participant : Participant
participant = record {
  State = List (Option DdsEnvelope);
  Topic = String;
  Publisher = Unit {0};
  Subscriber = Unit {0};
  Writer = String;
  Reader = String;
  create_topic = λ topic type_name s. (done topic, s);
  create_publisher = λ s. (done tt, s);
  create_datawriter = λ publisher topic qos s. (done topic, s);
  create_subscriber = λ s. (done tt, s);
  create_datareader = λ subscriber topic qos s. (done topic, s);
  get_publication_matched_status = λ writer s. (done 1, s);
  set_enabled_statuses = λ writer s. (done tt, s);
  attach_condition = λ writer s. (done tt, s);
  wait = λ writer secs s. (waited (done tt), s);
  write = λ writer env s. (done tt, s ++ some env ∷ []);
  take = λ reader n s. take_one s;
  display = λ n. "5";
}

abbrev sample : Option DdsEnvelope
sample = some (record { topic = "responses/alpha"; payload = 1 ∷ [] })

abbrev from_slice : Bytes → Attempt Envelope
from_slice b = done reply

abbrev cache : Cache participant "responses/alpha"
cache = record {
  unread = λ s. s;
  take-empty = λ n s h. rw h (refl, refl);
  take-samples = λ n s x rest room h. ([], rw h refl, rw h refl);
}

abbrev one_local : Local Queue
one_local = record {
  subscribers = ("responses/alpha", 0 ∷ []) ∷ [];
  inboxes = record { cell = λ i. channel 16; next = 1 };
}

drain_reader_lem_example :
    (s' : List (Option DdsEnvelope)) × (drain_reader bounded from_slice "responses/alpha"
        participant "responses/alpha" 3
        (one_local, sample ∷ none ∷ [])
      ≡ some (
        ok tt,
        (hand_out_samples bounded from_slice "responses/alpha" (sample ∷ none ∷ []) one_local, s'),
      ))
    × (s' ≡ [])
drain_reader_lem_example =
    drain_reader_lem bounded from_slice "responses/alpha" participant "responses/alpha" cache 3
      one_local (sample ∷ none ∷ []) (omega arith)

-- A participant that numbers its readers, each with samples of its own.
abbrev take_from :
    ℕ
    → ℕ × (ℕ → List (Option DdsEnvelope))
    → List (Option DdsEnvelope)
    → Taken × (ℕ × (ℕ → List (Option DdsEnvelope)))
take_from reader s [] = (no_data, s)
take_from reader s (x ∷ rest) = (samples (x ∷ []), (s.0, λ j. if j == reader then rest else s.1 j))

abbrev numbering : Participant
numbering = record {
  State = ℕ × (ℕ → List (Option DdsEnvelope));
  Topic = String;
  Publisher = Unit {0};
  Subscriber = Unit {0};
  Writer = String;
  Reader = ℕ;
  create_topic = λ topic type_name s. (done topic, s);
  create_publisher = λ s. (done tt, s);
  create_datawriter = λ publisher topic qos s. (done topic, s);
  create_subscriber = λ s. (done tt, s);
  create_datareader = λ subscriber topic qos s. (done s.0, (suc s.0, s.1));
  get_publication_matched_status = λ writer s. (done 1, s);
  set_enabled_statuses = λ writer s. (done tt, s);
  attach_condition = λ writer s. (done tt, s);
  wait = λ writer secs s. (waited (done tt), s);
  write = λ writer env s. (done tt, s);
  take = λ reader n s. take_from reader s (s.1 reader);
  display = λ n. "5";
}

own_reader :
    (reader : ℕ) (rest more : List (Option DdsEnvelope))
    → rest ≡ (if reader == reader then rest else more)
own_reader reader rest more = ground arith

other_reader :
    (reader other : ℕ) (s : ℕ × (ℕ → List (Option DdsEnvelope))) (l : List (Option DdsEnvelope))
    → reader ≢ other
    → (take_from reader s l).1.1 other ≡ s.1 other
other_reader reader other s [] apart = refl
other_reader reader other s (x ∷ rest) apart = ground (arith, apart)

abbrev caches : Caches numbering
caches = record {
  cache = λ reader. record {
    unread = λ s. s.1 reader;
    take-empty = λ n s h. rw h (refl, h);
    take-samples = λ n s x rest room h. ([], rw h refl, rw h (own_reader reader rest (s.1 reader)));
  };
  take_others = λ reader other n s apart. other_reader reader other s (s.1 reader) apart;
}

-- Two subscribes to one topic, and a sample for each reader.
abbrev subscribed_twice : DdsActor numbering Queue
subscribed_twice = record {
  transport_id = "alpha";
  participant = (2, λ i. []);
  local = record { subscribers = []; inboxes = no_inboxes };
  shutdown = false;
  writers = [];
  reader_tasks = ("responses/alpha", 0) ∷ ("responses/alpha", 1) ∷ [];
  replies = [];
}

abbrev no_local : Local Queue
no_local = record { subscribers = []; inboxes = no_inboxes }

apart : ◌≢◌ {A = ℕ} 0 1
apart = ground arith

drain_tasks-subscribe_times_example :
    (l' : Local Queue) × (s' : ℕ × (ℕ → List (Option DdsEnvelope))) × (drain_tasks bounded
        from_slice numbering subscribed_twice.reader_tasks 2
        ((add_subscriber bounded "responses/alpha" no_local).1, (2, λ i. sample ∷ []))
      ≡ some (l', s'))
    × (l'.inboxes.cell (add_subscriber bounded "responses/alpha" no_local).0
        ≡ offered bounded reply 2 (channel 16))
unfolding handle_subscribe mom_rpc.Dds.Actor.create
drain_tasks-subscribe_times_example =
    drain_tasks-subscribe_times bounded from_slice numbering caches "responses/alpha"
      (record { topic = "responses/alpha"; payload = 1 ∷ [] }) reply refl 2 "alpha" (0, λ i. [])
      no_inboxes subscribed_twice no_local (2, λ i. sample ∷ []) 2 refl here ((apart, tt), (tt, tt))
      ((refl, refl), ((refl, refl), tt)) (omega arith)

-- A participant that no reader is ever matched to.
abbrev unmatched : Participant
unmatched = record participant {
  get_publication_matched_status = λ writer s. (done 0, s);
  wait = λ writer secs s. (elapsed, s);
}

abbrev publisher : DdsActor unmatched Queue
publisher = record {
  transport_id = "alpha";
  participant = [];
  local = one_local;
  shutdown = false;
  writers = [];
  reader_tasks = [];
  replies = [];
}

unmatched_publish_example :
    (e : RpcError) × ((handle_cmd unmatched
        (λ env. done (1 ∷ []))
        (Cmd.publish "requests/beta" reply 7)
        publisher).1.replies
      ≡ (7, err e)
        ∷ (handle_publish unmatched
            (λ env. done (1 ∷ []))
            "requests/beta"
            reply
            publisher).1.replies)
    × (publish "alpha" (answered (err e)) ≡ ok tt)
unmatched_publish_example =
    unmatched_publish unmatched (λ writer s. refl) (λ env. done (1 ∷ [])) "requests/beta" "alpha"
      reply 7 publisher
