-- ===== src/TransportBuilder/Modes.antt =====
-- What `build` accepts, and the mode and queues that it arrives at.
use mom_rpc.TransportBuilder.{
  request_queue, response_queue, requests, responses, full_duplex, server_mode, client_mode,
  infer_mode, TransportBuilder, sugar_count, has_explicit_queues, configure,
}
use mom_rpc.Domain.{TransportConfig, TransportMode}
use mom_rpc.Base.{none, some, String, Option, ◌==◌, false, ◌&&◌, ◌||◌, not, ◌≡◌, is_some, arith}
use mom_rpc.Error.{is_ok, ok}

-- `build` gets past its validation exactly when the URI and the node ID are set and the queues come
-- from one sugar method or from explicit names, and not from both.
pub configure_accepts :
    (b : TransportBuilder)
    → is_ok (configure b) ≡ (
        is_some b.uri
        && is_some b.node_id
        && ((sugar_count b == 1 && not (has_explicit_queues b))
            || (sugar_count b == 0 && has_explicit_queues b)))
unfolding configure
configure_accepts b = ground arith

-- The mode that the queues of a configuration call for.
abbrev pub ModeMatches : TransportMode → Option String → Option String → Type 0
ModeMatches TransportMode.full_duplex (some _) (some _) = Unit
ModeMatches TransportMode.server (some _) none = Unit
ModeMatches TransportMode.client none (some _) = Unit
ModeMatches _ _ _ = ⊥

infer_mode-ModeMatches :
    (q r : Option String) (m : TransportMode) → infer_mode q r ≡ some m → ModeMatches m q r
infer_mode-ModeMatches (some q) (some r) TransportMode.full_duplex h = tt
infer_mode-ModeMatches (some q) none TransportMode.server h = tt
infer_mode-ModeMatches none (some r) TransportMode.client h = tt
infer_mode-ModeMatches (some q) (some r) TransportMode.client h = cc
infer_mode-ModeMatches (some q) (some r) TransportMode.server h = cc
infer_mode-ModeMatches (some q) none TransportMode.client h = cc
infer_mode-ModeMatches (some q) none TransportMode.full_duplex h = cc
infer_mode-ModeMatches none (some r) TransportMode.server h = cc
infer_mode-ModeMatches none (some r) TransportMode.full_duplex h = cc
infer_mode-ModeMatches none none m h = cc

-- A configuration that is accepted has the mode that its queues call for, at least one queue among
-- them, and the URI and the node ID that were set.
pub configure-ModeMatches :
    (b : TransportBuilder) (c : TransportConfig)
    → configure b ≡ ok c
    → ModeMatches c.mode c.request_queue c.response_queue
      × (b.uri ≡ some c.uri)
      × (b.node_id ≡ some c.node_id)
unfolding configure
configure-ModeMatches b c h = ground arith

module _ (b : TransportBuilder) (id : String) (named : b.node_id ≡ some id)
    (no_sugar : sugar_count b ≡ 0) (no_queues : has_explicit_queues b ≡ false) where
  -- On a builder with a node ID, no sugar method and no queue so far, each sugar method leads to
  -- the configuration, or to the error, that naming its default queues leads to.
  pub sugar_is_explicit :
      (configure (client_mode b) ≡ configure (response_queue b (responses id)))
      × (configure (server_mode b) ≡ configure (request_queue b (requests id)))
      × (configure (full_duplex b)
          ≡ configure (response_queue (request_queue b (requests id)) (responses id)))
  unfolding configure client_mode server_mode full_duplex response_queue request_queue
  sugar_is_explicit = (ground arith, ground arith, ground arith)
