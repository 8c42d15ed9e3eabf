-- ===== src/Domain.antt =====
-- src/domain/transport.rs: what travels between the layers, and the `Transport` trait.
use mom_rpc.Base.{ℕ, String, Option, none, some, List}
use mom_rpc.Error.{Result}

-- std::time::Duration, in nanoseconds.
abbrev pub Duration : Type 0
Duration = ℕ

-- bytes::Bytes
abbrev pub Bytes : Type 0
Bytes = List ℕ

pub data TransportMode : Type 0 where
  client server full_duplex : TransportMode

pub record TransportBase : Type 0 where
  pub transport_id : String
  pub mode : TransportMode
  pub request_queue : Option String
  pub response_queue : Option String

-- TransportBase::new
unfoldable pub new_base : String → TransportMode → Option String → Option String → TransportBase
new_base id mode request response = record {
  transport_id = id;
  mode = mode;
  request_queue = request;
  response_queue = response;
}

pub record TransportConfig : Type 0 where
  pub uri : String
  pub node_id : String
  pub mode : TransportMode
  pub request_queue : Option String
  pub response_queue : Option String
  pub transport_type : Option String
  pub keep_alive_secs : Option ℕ

-- impl From<&TransportConfig> for TransportBase
unfoldable pub base_of_config : TransportConfig → TransportBase
base_of_config c = record {
  transport_id = c.node_id;
  mode = c.mode;
  request_queue = c.request_queue;
  response_queue = c.response_queue;
}

pub record Address : Type 0 where
  pub name : String

pub record Subscription : Type 0 where
  pub name : String

-- impl From<Address> for Subscription
unfoldable pub subscription_of_address : Address → Subscription
subscription_of_address a = record { name = a.name }

pub record Envelope : Type 0 where
  pub address : Address
  pub method : Option String
  pub payload : Bytes
  pub correlation_id : Option String
  pub reply_to : Option Address
  pub content_type : Option String

-- Envelope::request
unfoldable pub request : Address → String → Bytes → String → Address → String → Envelope
request address method payload correlation_id reply_to content_type = record {
  address = address;
  method = some method;
  payload = payload;
  correlation_id = some correlation_id;
  reply_to = some reply_to;
  content_type = some content_type;
}

-- Envelope::response
unfoldable pub response : Address → Bytes → String → String → Envelope
response address payload correlation_id content_type = record {
  address = address;
  method = none;
  payload = payload;
  correlation_id = some correlation_id;
  reply_to = none;
  content_type = some content_type;
}

-- An async call on a state `W`; `none` is a future that this state leaves suspended.
abbrev pub Async : Type 0 → Type 0 → Type 0
Async W A = W → Option (Result A × W)

-- The trait `Transport` over the state `W` that its implementations share. A SubscriptionHandle is
-- the number of its inbox.
pub record Transport (W : Type 0) : Type 0 where
  pub base : TransportBase
  pub publish : Envelope → Async W (Unit {0})
  pub subscribe : Subscription → Async W ℕ
  pub close : Async W (Unit {0})

-- The trait's default methods.
unfoldable pub transport_id : {W : Type 0} → Transport W → String
transport_id t = t.base.transport_id

unfoldable pub mode : {W : Type 0} → Transport W → TransportMode
mode t = t.base.mode
