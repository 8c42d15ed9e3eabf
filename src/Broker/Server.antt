-- ===== src/Broker/Server.antt =====
-- The server side of src/broker.rs: handlers, and the task that answers requests.
pub mod Responses
pub mod RoundTrip
use mom_rpc.Base.{map, some, none, Option, String}
use mathlib.Core.Option
use mom_rpc.Base.HashMap.{HashMap, get}
use mom_rpc.Error.{Result, ok, err, serialization, Attempt, map_err, ◌>>=◌}
use mom_rpc.Domain.{Bytes, Envelope, Address, Transport, response}

-- Arc<dyn HandlerFn>, after its types are erased.
abbrev pub HandlerFn : Type 0
HandlerFn = Bytes → Result Bytes

abbrev pub HandlerRegistry : Type 0
HandlerRegistry = HashMap HandlerFn

-- HandlerFn::call of `Handler`: the payload is decoded, handled and encoded.
unfoldable pub handler_call :
    {Req Resp : Type 0}
    → (Bytes → Attempt Req)
    → (Resp → Attempt Bytes)
    → (Req → Result Resp)
    → HandlerFn
handler_call from_slice to_vec func payload = do
  req ← map_err (from_slice payload) serialization
  resp ← func req
  map_err (to_vec resp) serialization

-- The response to a request whose fields are there: none if the handler is missing or fails.
abbrev pub answer_with : Option HandlerFn → Bytes → Address → String → Option Envelope
answer_with none payload reply_to correlation_id = none
answer_with (some h) payload reply_to correlation_id = elim (h payload) [
  | ok bytes ↦ some (response reply_to bytes correlation_id "application/json")
  | err e ↦ none
]

-- The checks at the head of the server task's loop: a request without method, reply_to or
-- correlation_id is dropped.
abbrev pub dispatch :
    HandlerRegistry → Option String → Option Address → Option String → Bytes → Option Envelope
dispatch handlers none reply_to correlation_id payload = none
dispatch handlers (some method) none correlation_id payload = none
dispatch handlers (some method) (some reply_to) none payload = none
dispatch handlers (some method) (some reply_to) (some correlation_id) payload =
    answer_with (get handlers method) payload reply_to correlation_id

-- The body of the server task's loop, up to the response that the spawned task publishes.
unfoldable pub handle_request : HandlerRegistry → Envelope → Option Envelope
unfolding response
handle_request handlers env =
    dispatch handlers env.method env.reply_to env.correlation_id env.payload

-- The rest of the spawned task: an error of `publish` is logged. `none` is a task that stays
-- suspended.
unfoldable pub publish_response : {W : Type 0} → Transport W → Option Envelope → W → Option W
publish_response t none w = some w
publish_response t (some env) w = Option.map (λ p. p.1) (t.publish env w)

-- One round of the server task, with the task that it spawns.
unfoldable pub on_request : {W : Type 0} → Transport W → HandlerRegistry → Envelope → W → Option W
unfolding handle_request publish_response
on_request t handlers env w = publish_response t (handle_request handlers env) w
