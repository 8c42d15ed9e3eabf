-- ===== src/Network/Lossy/Authenticity.antt =====
-- What a caller is given over a transport that may lose, repeat and reorder envelopes.
use mom_rpc.Base.{All-map, All-append, All, some, Bool, inl, refl, ◌≡◌, String, ℕ}
use mom_rpc.Network.Lossy.Emits.{emit-All, All-member}
use mom_rpc.Network.Records.Answers.{complete-Consistent}
use mom_rpc.Broker.Server.{handle_request}
use mom_rpc.Network.Envelopes.{
  handle_request-Authentic, received-Answered, Answered, insert-Authentic, Authentic,
}
use mom_rpc.Network.Records.Asks.{ask-Consistent, get-insert_same}
use mom_rpc.Base.HashMap.{get}
use mom_rpc.Domain.{Envelope}
use mom_rpc.Network.{client_task, topic_of, Node}
use mom_rpc.Network.Records.{Consistent, no_requests-Consistent, Sent}
use mom_rpc.Oneshot.{Oneshots}
use mom_rpc.Network.Lossy.{Medium, Step, Reach, posts, replies, resolves, start, later}
use mom_rpc.Network.Records.States.{states, WaitsOrAnswered}
use mathlib.Core.List.{Memᴰ}

module _ (o : Oneshots) (nodes : ℕ → Node) where
  pub record Sound (s : Medium o.Cell) : Type 0 where
    pub authentic : All (Authentic nodes s.records.sent) s.published
    pub consistent : Consistent o (Answered nodes) s.records

  -- A client task takes an answer to the request whose correlation ID it carries.
  pub resolved_answers :
      {s : Medium o.Cell}
      → Sound s
      → (n : ℕ) (e : Envelope) → Memᴰ e s.published
      → e.address.name ≡ topic_of client_task (nodes n).node_id
      → (id : String) (r : Sent) → e.correlation_id ≡ some id
      → get s.records.sent id ≡ some r
      → Answered nodes r e.payload
  resolved_answers {s} v n e m here id r =
      received-Answered nodes s.records.sent n e id r (All-member _ e s.published v.authentic m)
        here

  Step-Sound : {s s' : Medium o.Cell} → Sound s → Step o nodes s s' → Sound s'
  Step-Sound {s} v (posts n target method payload id may fresh) = record {
    authentic =
        All-append (Authentic nodes _) s.published _
          (All-map (Authentic nodes s.records.sent) _ s.published
            (insert-Authentic nodes s.records.sent id _ fresh) v.authentic)
          (inl (id, _, get-insert_same s.records.sent id _, refl), tt);
    consistent =
        ask-Consistent o (Answered nodes) n target method payload id s.records v.consistent fresh;
  }
  Step-Sound {s} v (replies n e m here) = record {
    authentic =
        emit-All (Authentic nodes s.records.sent) (handle_request (nodes n).handlers e) s.published
          (λ x handled.
            handle_request-Authentic nodes s.records.sent n e x
              (All-member _ e s.published v.authentic m) here handled)
          v.authentic;
    consistent = v.consistent;
  }
  Step-Sound {s} v (resolves n e m here) = record {
    authentic = v.authentic;
    consistent =
        complete-Consistent o (Answered nodes) n e s.records v.consistent
          (resolved_answers v n e m here);
  }

  pub Reach-Sound : {cells : ℕ → o.Cell} {s : Medium o.Cell} → Reach o nodes cells s → Sound s
  Reach-Sound {cells} start = record {
    authentic = tt;
    consistent = no_requests-Consistent o (Answered nodes) cells;
  }
  Reach-Sound (later r s) = Step-Sound (Reach-Sound r) s

  -- Brokers over a transport that may lose, repeat, delay and reorder envelopes, but gives a receiving
  -- task only envelopes published on its topic, in every state that their tasks reach from the start,
  -- where each request takes a correlation ID that no request had: a request that was made is in one of
  -- two states. Its caller still has the sender in its map and sees a timeout, which is Timeout, or a
  -- retryable error if the broker retries. Or the sender is gone, and the caller is given what a handler
  -- of a broker with the node ID that it asked returns on its payload. It never sees a closed channel.
  pub states_on_any_transport :
      (cells : ℕ → o.Cell) (s : Medium o.Cell) (id : String) (q : Sent) (retries : Bool)
      → Reach o nodes cells s
      → get s.records.sent id ≡ some q
      → WaitsOrAnswered o (Answered nodes) s.records id q retries
  states_on_any_transport cells s id q retries reach sent =
      states o (Answered nodes) s.records (Reach-Sound reach).consistent id q sent retries
