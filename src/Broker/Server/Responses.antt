-- ===== src/Broker/Server/Responses.antt =====
-- Which requests are answered, and how a response finds its way back.
use mom_rpc.Base.{
  is_some, Bool-cases, eq_iff, arith, ◌++◌, ◌∷◌, [], List, some, none, Option, inr, inl, ◌↔◌, subst,
  ◌∙◌, ap, sym, refl, ◌≡◌, ◌<>◌, String,
}
use mom_rpc.Base.HashMap.{get}
use mom_rpc.Error.{ok, Result-cases}
use mathlib.Core.Option.{some-injective}
use mathlib.Core.Option
use mom_rpc.Domain.{Bytes, Duration, Address, Envelope, response}
use mom_rpc.BrokerBuilder.{BrokerParams}
use mom_rpc.Oneshot.{Oneshots}
use mom_rpc.Broker.Pending.{registers, Event, arrives}
use mom_rpc.Broker.Pending.Answers.{carries, Inv, answer, outcome, Unregistered}
use mom_rpc.Broker.Request.{
  Session, Environment, received, request_envelope, request_to_inner_with_timeout,
}
use mom_rpc.Broker.Request.Outcome.{attempt-answer}
use mom_rpc.Broker.Server.{HandlerFn, HandlerRegistry, answer_with, dispatch, handle_request}

abbrev Answered :
    HandlerRegistry → Option String → Option Address → Option String → Bytes → Envelope → Type 0
Answered handlers m r c payload resp =
    (method : String) × (reply_to : Address) × (id : String) × (h : HandlerFn) × (bytes : Bytes)
    × (m ≡ some method)
    × (r ≡ some reply_to)
    × (c ≡ some id)
    × (get handlers method ≡ some h)
    × (h payload ≡ ok bytes)
    × (resp ≡ response reply_to bytes id "application/json")

answer_with-some :
    (o : Option HandlerFn) (payload : Bytes) (reply_to : Address) (id : String) (resp : Envelope)
    → answer_with o payload reply_to id ≡ some resp
    → (h : HandlerFn) × (bytes : Bytes) × (o ≡ some h)
      × (h payload ≡ ok bytes)
      × (resp ≡ response reply_to bytes id "application/json")
answer_with-some none payload reply_to id resp e = cc
answer_with-some (some h) payload reply_to id resp e = elim (Result-cases (h payload)) [
  | inl (bytes, o) ↦ (h, bytes, refl, o, sym (some-injective _ _ (rw o at e)))
  | inr (x, o) ↦ cc (rw o at e)
]

dispatch-some :
    (handlers : HandlerRegistry) (m : Option String) (r : Option Address) (c : Option String)
    (payload : Bytes) (resp : Envelope)
    → dispatch handlers m r c payload ≡ some resp
    → Answered handlers m r c payload resp
dispatch-some handlers none r c payload resp e = cc
dispatch-some handlers (some m) none c payload resp e = cc
dispatch-some handlers (some m) (some r) none payload resp e = cc
dispatch-some handlers (some m) (some r) (some c) payload resp e =
    let (h, bytes, o, p, q) = answer_with-some (get handlers m) payload r c resp e in
    (m, r, c, h, bytes, refl, refl, refl, o, p, q)

-- A request is answered exactly if it has a method, a reply address and a correlation ID, a handler
-- is registered for the method, and the handler succeeds; the response then goes to the
-- reply address with the handler's result and the request's correlation ID.
pub handle_request_iff :
    (handlers : HandlerRegistry) (env resp : Envelope)
    → (handle_request handlers env ≡ some resp) ↔ (
        (method : String) × (reply_to : Address) × (id : String) × (h : HandlerFn) × (bytes : Bytes)
        × (env.method ≡ some method)
        × (env.reply_to ≡ some reply_to)
        × (env.correlation_id ≡ some id)
        × (get handlers method ≡ some h)
        × (h env.payload ≡ ok bytes)
        × (resp ≡ response reply_to bytes id "application/json"))
unfolding handle_request
handle_request_iff handlers env resp = (
  dispatch-some handlers env.method env.reply_to env.correlation_id env.payload resp,
  λ a. ground arith,
)

response_address :
    (reply_to : Address) (bytes : Bytes) (id : String)
    → (response reply_to bytes id "application/json").address.name ≡ reply_to.name
unfolding response
response_address reply_to bytes id = refl

answer_reply :
    (id : String) (reply_to : Address) (bytes : Bytes) (before after : List Event)
    → answer id before ≡ none
    → answer id (before ++ arrives (response reply_to bytes id "application/json") ∷ after)
      ≡ some bytes
unfolding answer response
answer_reply id reply_to bytes [] after none_before = rw ((eq_iff id id).1 refl)
answer_reply id reply_to bytes (registers j ∷ before) after none_before =
    answer_reply id reply_to bytes before after none_before
answer_reply id reply_to bytes (arrives env ∷ before) after none_before =
    elim (Bool-cases (carries env.correlation_id id)) [
      | inl e ↦ cc (rw e at none_before)
      | inr e ↦ rw e (answer_reply id reply_to bytes before after (rw e at none_before))
    ]

module _ (k : Oneshots) {W F : Type 0} (env : Environment W) (inner : BrokerParams W F)
    (target method : String) (req_bytes : Bytes) (wait : Duration) (s : Session k.Cell W) (w : W)
    (valid : Inv k s.pending) (handlers : HandlerRegistry) (h : HandlerFn) (bytes : Bytes) where
  abbrev id : String
  id = env.uuid s.attempt

  abbrev request_sent : Envelope
  request_sent = request_envelope inner.node_id target method req_bytes id

  reply_matches :
      (handlers' : HandlerRegistry)
      → get handlers' method ≡ some h
      → h req_bytes ≡ ok bytes
      → handle_request handlers' request_sent
        ≡ some
            (response (record { name = "responses/" <> inner.node_id }) bytes id "application/json")
  unfolding handle_request request_envelope
  reply_matches handlers' found result = rw (found, result)

  -- The round trip of a call, on a pending map that meets its invariant: the response of a server with a handler for the method, to the request
  -- that an attempt publishes, goes to the caller's response address; and once it arrives within
  -- the attempt's wait, after any events that do not carry the request's ID, the attempt returns
  -- the handler's result, if no other request takes the ID.
  pub attempt-response :
      (resp : Envelope) (before after : List Event)
      → Unregistered id (env.during s.attempt wait)
      → inner.transport.publish request_sent s.world ≡ some (ok tt, w)
      → get handlers method ≡ some h
      → h req_bytes ≡ ok bytes
      → handle_request handlers request_sent ≡ some resp
      → env.during s.attempt wait ≡ before ++ arrives resp ∷ after
      → answer id before ≡ none
      → (resp.address.name ≡ "responses/" <> inner.node_id)
        × (Option.map
              (λ p. p.0)
              (request_to_inner_with_timeout k env inner target method req_bytes wait s)
            ≡ some (ok bytes))
  attempt-response resp before after fresh published found result served arrived none_before =
      let reply : Address = record { name = "responses/" <> inner.node_id } in
      let same : resp ≡ response reply bytes id "application/json" =
        some-injective _ _ (sym served ∙ reply_matches handlers found result) in
      let order =
        subst (λ r. env.during s.attempt wait ≡ before ++ arrives r ∷ after) same arrived in
      (
        ap (λ (r : Envelope). r.address.name) same ∙ response_address reply bytes id,
        rw (attempt-answer k env inner target method req_bytes wait s w valid fresh published) (
            ap (λ a. some (received k (is_some inner.retry_config) (outcome a)))
              (ap (answer id) order ∙ answer_reply id reply bytes before after none_before)),
      )
