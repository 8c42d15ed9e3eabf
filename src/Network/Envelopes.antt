-- ===== src/Network/Envelopes.antt =====
-- Which envelopes belong to a request that was made: the request itself, and responses that hold what
-- a handler of its target returned.
use text.Mathlib.TextLemmas.{cons-append}
use mom_rpc.Base.{
  arith, some, none, inr, inl, ◌⊎◌, ◌≢◌, subst, ◌∙◌, ap, sym, refl, ◌≡◌, ◌<>◌, String, ℕ,
}
use mom_rpc.Network.{Node, client_task, server_task, topic_of}
use mom_rpc.Network.Records.{Sent}
use mom_rpc.Network.Records.Asks.{get-insert_other}
use mom_rpc.Base.HashMap.{HashMap, get, insert}
use mom_rpc.Base.Texts.{strip_prefix}
use mom_rpc.Base.Texts.Prefixes.{strip_prefix-append}
use mom_rpc.Domain.{Address, Bytes, Envelope, request, response}
use mom_rpc.Error.{ok}
use mom_rpc.Broker.Request.{request_envelope}
use mom_rpc.Broker.Server.{HandlerFn, handle_request}
use mom_rpc.Broker.Server.Responses.{handle_request_iff}
use mathlib.Core.Option.{some-injective}

other_prefix : (x : String) → strip_prefix "requests/" ("responses/" <> x) ≡ none
unfolding strip_prefix
other_prefix x =
    rw (cons-append _ "esponses/" x)
      (rw (cons-append _ "sponses/" x) (rw (cons-append _ "ponses/" x) refl))

distinct_topics : (x y : String) → "responses/" <> x ≢ "requests/" <> y
distinct_topics x y h =
    let stripped = ap (strip_prefix "requests/") h in
    cc (other_prefix x, strip_prefix-append "requests/" y)

same_target : (x y : String) → "requests/" <> x ≡ "requests/" <> y → x ≡ y
same_target x y h = some-injective _ _ (
    sym (strip_prefix-append "requests/" x)
    ∙ ap (strip_prefix "requests/") h
    ∙ strip_prefix-append "requests/" y)

module _ (nodes : ℕ → Node) where
  -- A broker that the request is addressed to has a handler for its method, which returns the bytes
  -- on the request's payload.
  abbrev pub Answered : Sent → Bytes → Type 0
  Answered q b =
      (n : ℕ) × (h : HandlerFn) × ((nodes n).node_id ≡ q.target)
      × (get (nodes n).handlers q.method ≡ some h)
      × (h q.payload ≡ ok b)

  abbrev pub Requested : HashMap Sent → Envelope → Type 0
  Requested sent e =
      (id : String) × (q : Sent) × (get sent id ≡ some q)
      × (e ≡ request_envelope (nodes q.caller).node_id q.target q.method q.payload id)

  abbrev pub Replied : HashMap Sent → Envelope → Type 0
  Replied sent e =
      (a : Address) × (id : String) × (q : Sent) × (b : Bytes) × (get sent id ≡ some q)
      × Answered q b
      × (e ≡ response a b id "application/json")

  abbrev pub Authentic : HashMap Sent → Envelope → Type 0
  Authentic sent e = Requested sent e ⊎ Replied sent e

  pub insert-Authentic :
      (sent : HashMap Sent) (id : String) (q : Sent)
      → get sent id ≡ none
      → (e : Envelope) → Authentic sent e
      → Authentic (insert sent id q) e
  insert-Authentic sent id q fresh e (inl (a, p, g, r)) =
      inl (a, p, get-insert_other sent id a q p fresh g, r)
  insert-Authentic sent id q fresh e (inr (a, j, p, b, g, h, r)) =
      inr (a, j, p, b, get-insert_other sent id j q p fresh g, h, r)

  request_fields :
      (e : Envelope) (node_id target method id : String) (payload : Bytes)
      → e ≡ request_envelope node_id target method payload id
      → (e.address.name ≡ "requests/" <> target)
        × (e.method ≡ some method)
        × (e.correlation_id ≡ some id)
        × (e.payload ≡ payload)
  unfolding request_envelope request
  request_fields e node_id target method id payload h =
      (ground arith, ground arith, ground arith, ground arith)

  response_fields :
      (e : Envelope) (a : Address) (b : Bytes) (id : String)
      → e ≡ response a b id "application/json"
      → (e.method ≡ none) × (e.correlation_id ≡ some id) × (e.payload ≡ b)
  unfolding response
  response_fields e a b id h = (ground arith, ground arith, ground arith)

  -- The response that a broker gives to an authentic envelope for it is authentic.
  pub handle_request-Authentic :
      (sent : HashMap Sent) (n : ℕ) (e resp : Envelope)
      → Authentic sent e
      → e.address.name ≡ topic_of server_task (nodes n).node_id
      → handle_request (nodes n).handlers e ≡ some resp
      → Authentic sent resp
  handle_request-Authentic sent n e resp (inl (id, q, g, r)) at_server handled =
      let (address, method, correlation, payload) =
        request_fields e _ q.target q.method id q.payload r in
      let (m, reply, i, h, bytes, em, er, ec, found, result, out) =
        (handle_request_iff (nodes n).handlers e resp).0 handled in
      inr (
        reply,
        id,
        q,
        bytes,
        g,
        (
          n,
          h,
          same_target _ _ (sym at_server ∙ address),
          subst (λ x. get (nodes n).handlers x ≡ some h) (some-injective _ _ (sym em ∙ method))
              found,
          ap h (sym payload) ∙ result,
        ),
        out
            ∙ ap (λ x. response reply bytes x "application/json")
                (some-injective _ _ (sym ec ∙ correlation)),
      )
  handle_request-Authentic sent n e resp (inr (a, id, q, b, g, j, r)) at_server handled =
      let (method, _, _) = response_fields e a b id r in
      let (m, reply, i, h, bytes, em, _, _, _, _, _) =
        (handle_request_iff (nodes n).handlers e resp).0 handled in
      absurd (cc)

  -- What a client task takes is an answer to the request whose correlation ID it carries.
  pub received-Answered :
      (sent : HashMap Sent) (n : ℕ) (e : Envelope) (id : String) (q : Sent)
      → Authentic sent e
      → e.address.name ≡ topic_of client_task (nodes n).node_id
      → e.correlation_id ≡ some id
      → get sent id ≡ some q
      → Answered q e.payload
  received-Answered sent n e id q (inl (j, p, g, r)) at_client c found =
      let (address, _, _, _) = request_fields e _ p.target p.method j p.payload r in
      absurd (distinct_topics _ _ (sym at_client ∙ address))
  received-Answered sent n e id q (inr (a, j, p, b, g, answered, r)) at_client c found =
      let (_, correlation, payload) = response_fields e a b j r in
      let same = some-injective _ _ (sym correlation ∙ c) in
      let one = some-injective _ _ (sym g ∙ subst (λ x. get sent x ≡ some q) (sym same) found) in
      subst (λ x. Answered x e.payload) one (rw payload answered)
