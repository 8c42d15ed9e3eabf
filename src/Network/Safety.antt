-- ===== src/Network/Safety.antt =====
-- What a caller is given.
use mom_rpc.Base.{some, Bool, ◌≡◌, String, ℕ}
use mom_rpc.Network.Invariant.{Reach-Sound}
use mom_rpc.Network.Records.States.{states, WaitsOrAnswered}
use mom_rpc.Network.{Network, Node, Reach}
use mom_rpc.Network.Records.{Sent}
use mom_rpc.Network.Envelopes.{Answered}
use mom_rpc.Channels.{Channels, Inboxes}
use mom_rpc.Oneshot.{Oneshots}
use mom_rpc.Base.HashMap.{get}

module _ (k : Channels) (o : Oneshots) (nodes : ℕ → Node) where
  -- Brokers on one in-memory bus, in every state that their tasks reach from the start, where each
  -- request takes a correlation ID that no request had: a request that was made is in one of two
  -- states. Its caller still has the sender in its map and sees a timeout, which is Timeout, or a
  -- retryable error if the broker retries. Or the sender is gone, and the caller is given what a handler
  -- of a broker with the node ID that it asked returns on its payload. It never sees a closed channel.
  pub request_states :
      (t : Inboxes k.Inbox) (cells : ℕ → o.Cell) (s : Network k.Inbox o.Cell) (id : String)
      (q : Sent) (retries : Bool)
      → Reach k o nodes t cells s
      → get s.records.sent id ≡ some q
      → WaitsOrAnswered o (Answered nodes) s.records id q retries
  request_states t cells s id q retries reach sent =
      states o (Answered nodes) s.records (Reach-Sound k o nodes reach).consistent id q sent retries
