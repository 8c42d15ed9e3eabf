-- ===== src/Network/Loads.antt =====
-- How many requests with an ID are among envelopes, and among the sends to an inbox.
use mom_rpc.Base.{
  is_some, if◌then◌else◌, str_eq, arith, ◌++◌, ◌∷◌, [], List, some, none, Option, ◌&&◌, Bool, refl,
  ◌≡◌, String, ◌+◌, ℕ,
}
use mom_rpc.Network.{emit}
use mom_rpc.Broker.Pending.Answers.{carries}
use mom_rpc.Broker.Request.{request_envelope}
use mom_rpc.Broker.Server.{HandlerRegistry, handle_request}
use mom_rpc.Broker.Server.Responses.{handle_request_iff}
use mom_rpc.Channels.{count}
use mom_rpc.Domain.{Bytes, Envelope, request, response}

-- An envelope that a server task would answer, if it can: it has a method, and carries the ID.
abbrev pub asking : String → Envelope → Bool
asking id e = is_some e.method && carries e.correlation_id id

abbrev pub asks_for : String → Envelope → ℕ
asks_for id e = if asking id e then 1 else 0

abbrev pub asked_in : String → List Envelope → ℕ
asked_in id [] = 0
asked_in id (e ∷ es) = asks_for id e + asked_in id es

abbrev pub sent_to : ℕ → String → List (List ℕ × Envelope) → ℕ
sent_to i id [] = 0
sent_to i id ((senders, e) ∷ more) =
    (if asking id e then count i senders else 0) + sent_to i id more

pub asked_in-append :
    (id : String) (l r : List Envelope) → asked_in id (l ++ r) ≡ asked_in id l + asked_in id r
asked_in-append id [] r = omega arith
asked_in-append id (e ∷ l) r = omega (arith, asked_in-append id l r)

pub sent_to-append :
    (i : ℕ) (id : String) (l r : List (List ℕ × Envelope))
    → sent_to i id (l ++ r) ≡ sent_to i id l + sent_to i id r
sent_to-append i id [] r = omega arith
sent_to-append i id ((senders, e) ∷ l) r = omega (arith, sent_to-append i id l r)

pub asks_for-response :
    (handlers : HandlerRegistry) (e resp : Envelope) (id : String)
    → handle_request handlers e ≡ some resp
    → asks_for id resp ≡ 0
unfolding response
asks_for-response handlers e resp id h =
    let (_, reply_to, j, _, bytes, _, _, _, _, _, out) = (handle_request_iff handlers e resp).0 h in
    rw out refl

pub asked_in-emit :
    (handlers : HandlerRegistry) (e : Envelope) (id : String) (outgoing : List Envelope)
    (o : Option Envelope)
    → handle_request handlers e ≡ o
    → asked_in id (emit o outgoing) ≡ asked_in id outgoing
asked_in-emit handlers e id outgoing none h = refl
asked_in-emit handlers e id outgoing (some resp) h =
    omega (arith, asked_in-append id outgoing (resp ∷ []), asks_for-response handlers e resp id h)

pub asks_for-request :
    (node_id target method : String) (payload : Bytes) (j id : String)
    → asks_for id (request_envelope node_id target method payload j)
      ≡ (if str_eq j id then 1 else 0)
unfolding request_envelope request
asks_for-request node_id target method payload j id = refl
