-- ===== src/Broker/Lifecycle/Shutdown.antt =====
-- How `run` and `shutdown` of src/broker.rs work together.
use mom_rpc.Base.{
  if◌then◌else◌, arith, ◌∷◌, [], List, not, ◌||◌, ◌&&◌, false, true, Bool, refl, ◌≡◌, ℕ,
}
use mom_rpc.Broker.Lifecycle.{RpcBroker, run, resume, signal, new, awaits_shutdown, finished}
use mom_rpc.Broker.Lifecycle.Modes.{serves}
use mom_rpc.Oneshot.{Oneshots}
use mom_rpc.BrokerBuilder.{BrokerParams}
use mom_rpc.Error.{ok}

-- A call that a clone of the broker makes. A shutdown sends its signal before it closes the
-- transport.
pub data Call : Type 0 where
  runs : Call
  shuts_down : Call

abbrev pub ran : List Call → Bool
ran [] = false
ran (runs ∷ cs) = true
ran (shuts_down ∷ cs) = ran cs

abbrev pub shut_down : List Call → Bool
shut_down [] = false
shut_down (runs ∷ cs) = shut_down cs
shut_down (shuts_down ∷ cs) = true

module _ (k : Oneshots) {W F : Type 0} where
  abbrev pub after_call : Call → RpcBroker k.Cell W F → RpcBroker k.Cell W F
  after_call runs b = (run k b).1
  after_call shuts_down b = signal k b

  abbrev pub after_calls : List Call → RpcBroker k.Cell W F → RpcBroker k.Cell W F
  after_calls [] b = b
  after_calls (c ∷ cs) b = after_calls cs (after_call c b)

  -- A broker that serves, and whose sender is gone once the signal is sent.
  abbrev Serving : RpcBroker k.Cell W F → Type 0
  Serving b = (b.shutdown_tx ≡ not b.signalled) × (serves b.inner.mode ≡ true)

  after_call-Serving : (c : Call) (b : RpcBroker k.Cell W F) → Serving b → Serving (after_call c b)
  unfolding run signal
  after_call-Serving runs b valid = ground arith
  after_call-Serving shuts_down b valid = ground arith

  after_calls-signalled :
      (cs : List Call) (b : RpcBroker k.Cell W F)
      → Serving b
      → (after_calls cs b).signalled ≡ (b.signalled || shut_down cs)
  unfolding run signal
  after_calls-signalled [] b valid = ground arith
  after_calls-signalled (runs ∷ cs) b valid =
      let rest = after_calls-signalled cs (run k b).1 (after_call-Serving runs b valid) in
      ground arith
  after_calls-signalled (shuts_down ∷ cs) b valid =
      let rest = after_calls-signalled cs (signal k b) (after_call-Serving shuts_down b valid) in
      ground arith

  after_calls-shutdown_rx :
      (cs : List Call) (b : RpcBroker k.Cell W F)
      → Serving b
      → (after_calls cs b).shutdown_rx ≡ (b.shutdown_rx && not (ran cs))
  unfolding run signal
  after_calls-shutdown_rx [] b valid = ground arith
  after_calls-shutdown_rx (runs ∷ cs) b valid =
      let rest = after_calls-shutdown_rx cs (run k b).1 (after_call-Serving runs b valid) in
      ground arith
  after_calls-shutdown_rx (shuts_down ∷ cs) b valid =
      let rest = after_calls-shutdown_rx cs (signal k b) (after_call-Serving shuts_down b valid) in
      ground arith

  after_calls-Serving :
      (cs : List Call) (b : RpcBroker k.Cell W F) → Serving b → Serving (after_calls cs b)
  after_calls-Serving [] b valid = valid
  after_calls-Serving (c ∷ cs) b valid =
      after_calls-Serving cs (after_call c b) (after_call-Serving c b valid)

  new-Serving :
      (cells : ℕ → k.Cell) (inner : BrokerParams W F)
      → serves inner.mode ≡ true
      → Serving (new k cells inner)
  unfolding new
  new-Serving cells inner permitted = (refl, permitted)

  -- In a mode that serves, a call of `run` that clones of the broker preceded by some calls and
  -- followed by others is over exactly if one of these was a shutdown or an earlier `run` took the
  -- receiver; else it awaits the signal.
  pub run_ends :
      (cells : ℕ → k.Cell) (inner : BrokerParams W F) (before later : List Call)
      → serves inner.mode ≡ true
      → resume k
          (run k (after_calls before (new k cells inner))).0
          (after_calls later (run k (after_calls before (new k cells inner))).1)
        ≡ (if shut_down before || shut_down later || ran before
            then finished (ok tt)
            else awaits_shutdown)
  unfolding resume run new
  run_ends cells inner before later permitted =
      let start = new-Serving cells inner permitted in
      let b = after_calls before (new k cells inner) in
      let valid = after_calls-Serving before (new k cells inner) start in
      let was_signalled = after_calls-signalled before (new k cells inner) start in
      let receiver = after_calls-shutdown_rx before (new k cells inner) start in
      let at_end = after_calls-signalled later (run k b).1 (after_call-Serving runs b valid) in
      ground arith
