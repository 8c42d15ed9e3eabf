-- ===== src/Broker/Lifecycle/Modes.antt =====
-- Which operations of src/broker.rs a mode permits, and what registering a handler changes.
use mom_rpc.Base.{
  Bool-cases, if◌then◌else◌, str_eq, arith, [], some, Option, false, true, Bool, inr, inl, ◌⊎◌, ◌≡◌,
  String, ℕ,
}
use mom_rpc.Broker.Lifecycle.{
  RpcBroker, Running, register_rpc_handler, spawn, run, awaits_shutdown, finished,
}
use mom_rpc.Broker.Server.{HandlerFn, handle_request, answer_with}
use mom_rpc.Broker.Request.{Session, Environment, request_to}
use mom_rpc.Oneshot.{Oneshots}
use mom_rpc.BrokerMode.{BrokerMode}
use mom_rpc.BrokerBuilder.{BrokerParams}
use mom_rpc.Domain.{Bytes, Address}
use mom_rpc.Error.{err, invalid_mode, is_ok, Attempt}
use mom_rpc.Floats.{Floats}
use mom_rpc.Retry.{returned}
use mom_rpc.Base.HashMap.{get, get-insert}

-- A mode as its documentation reads: what serves, and what sends requests.
abbrev pub serves : BrokerMode → Bool
serves BrokerMode.client = false
serves BrokerMode.server = true
serves BrokerMode.full_duplex = true

abbrev pub requests : BrokerMode → Bool
requests BrokerMode.client = true
requests BrokerMode.server = false
requests BrokerMode.full_duplex = true

-- Refused at once.
abbrev pub runs : Running → Bool
runs (finished r) = is_ok r
runs awaits_shutdown = true

module _ (k : Oneshots) {W F : Type 0} where
  -- Registering a handler, `spawn` and `run` are accepted exactly in the modes that serve, and where
  -- registering or `run` is refused the broker is unchanged.
  pub serving_modes :
      (method : String) (h : HandlerFn) (b : RpcBroker k.Cell W F)
      → (is_ok (register_rpc_handler k method h b).0 ≡ serves b.inner.mode)
        × (is_ok (spawn k b) ≡ serves b.inner.mode)
        × (runs (run k b).0 ≡ serves b.inner.mode)
        × ((serves b.inner.mode ≡ true) ⊎ ((register_rpc_handler k method h b).1 ≡ b))
        × ((serves b.inner.mode ≡ true) ⊎ ((run k b).1 ≡ b))
  unfolding register_rpc_handler spawn run
  serving_modes method h b = ground arith

  register-get :
      (method : String) (h : HandlerFn) (b : RpcBroker k.Cell W F) (called : String)
      → serves b.inner.mode ≡ true
      → get (register_rpc_handler k method h b).1.handlers called
        ≡ (if str_eq method called then some h else get b.handlers called)
  unfolding register_rpc_handler
  register-get method h b called permitted =
      let lookup = get-insert b.handlers method h called in ground arith

  -- Once a handler is registered, a request for its method that can be answered is answered by it,
  -- whatever was registered before, and every other request as before.
  pub register-handle_request :
      (method : String) (h : HandlerFn) (b : RpcBroker k.Cell W F) (called : String)
      (payload : Bytes) (address reply_to : Address) (id : String) (content_type : Option String)
      → serves b.inner.mode ≡ true
      → handle_request (register_rpc_handler k method h b).1.handlers (record {
        address = address;
        method = some called;
        payload = payload;
        correlation_id = some id;
        reply_to = some reply_to;
        content_type = content_type;
      })
        ≡ (if str_eq method called
            then answer_with (some h) payload reply_to id
            else handle_request b.handlers (record {
              address = address;
              method = some called;
              payload = payload;
              correlation_id = some id;
              reply_to = some reply_to;
              content_type = content_type;
            }))
  unfolding handle_request
  register-handle_request method h b called payload address reply_to id content_type permitted =
      elim (Bool-cases (str_eq method called)) [
        | inl e ↦ rw (register-get method h b called permitted, e)
        | inr e ↦ rw (register-get method h b called permitted, e)
      ]

module _ (k : Oneshots) {W : Type 0} (f : Floats) (random : ℕ → ℕ) (fuel : ℕ) (env : Environment W)
    {Req Value Resp : Type 0} (to_value : Req → Attempt Value) (to_vec : Value → Attempt Bytes)
    (from_slice : Bytes → Attempt Resp) where
  -- In a mode that does not send requests, `request_to` fails and leaves the session as it was.
  pub request_refused :
      (inner : BrokerParams W f.F64) (target method : String) (req : Req) (s : Session k.Cell W)
      → requests inner.mode ≡ false
      → request_to k f random fuel env to_value to_vec from_slice inner target method req s
        ≡ returned (err (invalid_mode "request_to() not allowed in Server mode")) s []
  unfolding request_to
  request_refused inner target method req s h = ground arith
