-- ===== src/Dds/Transport.antt =====
-- The transport over DDS: its methods, and how it is made.
use mom_rpc.Base.{if◌then◌else◌, str_eq, some, none, ◌<>◌, String, ℕ}
use mom_rpc.Error.{Result, ok, transport, Attempt, map_err, ◌>>=◌}
use mom_rpc.Domain.{TransportBase, TransportConfig, base_of_config}
use mom_rpc.Channels.{Channels, Inboxes}
use mom_rpc.Calls
use mom_rpc.FanOut.{Local}
use mom_rpc.Calls.{Call, Texts, awaited}
use mom_rpc.Dds.Participant.{Participant}
use mom_rpc.Dds.Actor.{DdsActor, create}
use mom_rpc.Dds.Uri.{parse_domain_id}

abbrev pub publish_texts : String → Texts
publish_texts tid = record {
  closed = λ e. tid <> ": actor command channel closed: " <> e;
  unread = λ e. tid <> ": actor responder channel read failed: " <> e;
}

-- What the actor answers is logged, and no more.
unfoldable pub publish : String → Call (Result (Unit {0})) → Result (Unit {0})
publish tid call = do status ← awaited (publish_texts tid) call; ok tt

abbrev pub subscribe :
    (k : Channels) → String → Call (Result (Unit {0})) → Local k.Inbox → Result ℕ × Local k.Inbox
subscribe k topic call l = Calls.subscribe k topic call l

abbrev pub close : Call (Result (Unit {0})) → Result (Unit {0})
close call = Calls.close call

-- DomainParticipantFactoryAsync::create_participant, given the domain.
unfoldable pub create_transport :
    (p : Participant) {Q : Type 0}
    → (ℕ → Attempt p.State)
    → Inboxes Q
    → TransportConfig
    → Result (TransportBase × DdsActor p Q)
unfolding parse_domain_id create base_of_config
create_transport p create_participant inboxes config = do
  domain_id ← parse_domain_id (if str_eq config.uri "" then none else some config.uri)
  participant ← map_err (create_participant domain_id) (λ text.
      transport
        ("Failed to create DomainParticipant on domain " <> p.display domain_id <> ": " <> text))
  ok (base_of_config config, create p config.node_id participant inboxes)
