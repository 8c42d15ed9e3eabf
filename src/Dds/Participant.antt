-- ===== src/Dds/Participant.antt =====
-- What goes over DDS (DdsEnvelope), the policies that the readers and writers are made with, and the
-- crate dust_dds.
use mom_rpc.Base.{List, Option, ◌<>◌, String, ℕ}
use mom_rpc.Error.{ok, ◌>>=◌, Result, transport, Attempt, map_err}
use mom_rpc.Domain.{Bytes, Envelope, Duration}

pub record DdsEnvelope : Type 0 where
  pub topic : String
  pub payload : Bytes

-- impl TryFrom<&Envelope> for DdsEnvelope
unfoldable pub dds_of_envelope : (Envelope → Attempt Bytes) → Envelope → Result DdsEnvelope
dds_of_envelope to_vec env = do
  payload ← map_err (to_vec env) (λ text. transport ("DDS envelope serialization failed: " <> text))
  ok (record { topic = env.address.name; payload = payload })

-- impl TryFrom<DdsEnvelope> for Envelope
unfoldable pub envelope_of_dds : (Bytes → Attempt Envelope) → DdsEnvelope → Result Envelope
envelope_of_dds from_slice dds_env =
    map_err (from_slice dds_env.payload)
      (λ text. transport ("DDS envelope deserialization failed: " <> text))

-- dust_dds's policies, as far as the builders below set them.
pub data ReliabilityKind : Type 0 where
  best_effort reliable : ReliabilityKind

pub data HistoryKind : Type 0 where
  keep_last : ℕ → HistoryKind
  keep_all : HistoryKind

pub data DurabilityKind : Type 0 where
  volatile transient_local : DurabilityKind

pub record Policies : Type 0 where
  pub reliability : ReliabilityKind
  pub max_blocking_time : Duration
  pub history : HistoryKind
  pub durability : DurabilityKind

abbrev pub build_rpc_writer_qos : Policies
build_rpc_writer_qos = record {
  reliability = ReliabilityKind.reliable;
  max_blocking_time = 0;
  history = keep_last 1;
  durability = DurabilityKind.volatile;
}

abbrev pub build_rpc_reader_qos : Policies
build_rpc_reader_qos = record {
  reliability = ReliabilityKind.reliable;
  max_blocking_time = 0;
  history = keep_last 1;
  durability = DurabilityKind.volatile;
}

-- What a reader's `take` returns: samples, which may come without data, Err(DdsError::NoData), or
-- another error.
pub data Taken : Type 0 where
  samples : List (Option DdsEnvelope) → Taken
  no_data : Taken
  take_error : String → Taken

-- What becomes of a wait with a deadline.
pub data Waited : Type 0 where
  elapsed : Waited
  waited : Attempt (Unit {0}) → Waited

-- A DomainParticipantAsync, with what is made from it.
pub record Participant : Type 1 where
  pub State : Type 0
  pub Topic : Type 0
  pub Publisher : Type 0
  pub Subscriber : Type 0
  pub Writer : Type 0
  pub Reader : Type 0
  -- The topic's name and the name of its type.
  pub create_topic : String → String → State → Attempt Topic × State
  pub create_publisher : State → Attempt Publisher × State
  pub create_datawriter : Publisher → Topic → Policies → State → Attempt Writer × State
  pub create_subscriber : State → Attempt Subscriber × State
  pub create_datareader : Subscriber → Topic → Policies → State → Attempt Reader × State
  -- current_count of the status
  pub get_publication_matched_status : Writer → State → Attempt ℕ × State
  -- The writer's status condition: enabled for PublicationMatched, attached to a new WaitSet, and
  -- waited for with a deadline in seconds.
  pub set_enabled_statuses : Writer → State → Attempt (Unit {0}) × State
  pub attach_condition : Writer → State → Attempt (Unit {0}) × State
  pub wait : Writer → ℕ → State → Waited × State
  pub write : Writer → DdsEnvelope → State → Attempt (Unit {0}) × State
  -- At most so many samples that were not read yet.
  pub take : Reader → ℕ → State → Taken × State
  -- A number in its display format.
  pub display : ℕ → String
