-- ===== src/Broker/Lifecycle/Queues.antt =====
-- The subscriptions of a broker, against the queues that its transport was configured with.
use mom_rpc.Base.{arith, some, none, Option, ◌∙◌, ap, refl, ◌≡◌, String, ℕ}
use mom_rpc.TransportBuilder.{TransportBuilder, configure, requests, responses, sugar_count}
use mom_rpc.Domain.{
  TransportConfig, Subscription, Transport, base_of_config, mode, transport_id, TransportMode,
}
use mom_rpc.BrokerBuilder.{build, new as new_builder, broker_mode}
use mom_rpc.Broker.Lifecycle.{RpcBroker, new, client_side, server_side}
use mom_rpc.TransportBuilder.Modes.{ModeMatches, configure-ModeMatches}
use mom_rpc.Floats.{Floats}
use mom_rpc.Oneshot.{Oneshots}
use mom_rpc.Error.{ok}
use mathlib.Core.Option

sides :
    (m : TransportMode) (q r : Option String) (id : String)
    → ModeMatches m q r
    → (client_side (broker_mode m) id ≡ Option.map (λ _. record { name = responses id }) r)
      × (server_side (broker_mode m) id ≡ Option.map (λ _. record { name = requests id }) q)
sides TransportMode.full_duplex (some q) (some r) id matches = (refl, refl)
sides TransportMode.server (some q) none id matches = (refl, refl)
sides TransportMode.client none (some r) id matches = (refl, refl)
sides TransportMode.client none none id matches = elim matches [ ]
sides TransportMode.client (some q) r id matches = elim matches [ ]
sides TransportMode.server none r id matches = elim matches [ ]
sides TransportMode.server (some q) (some r) id matches = elim matches [ ]
sides TransportMode.full_duplex none r id matches = elim matches [ ]
sides TransportMode.full_duplex (some q) none id matches = elim matches [ ]

named_subscription :
    (o : Option String) (name : String)
    → Option.map (λ _. name) o ≡ o
    → Option.map {A = String} {B = Subscription} (λ _. record { name = name }) o
      ≡ Option.map (λ q. record { name = q }) o
named_subscription none name same = refl
named_subscription (some q) name same = ap (Option.map (λ q. record { name = q })) same

-- The queues that a mode method generates.
sugar_queues :
    (b : TransportBuilder) (c : TransportConfig)
    → configure b ≡ ok c
    → sugar_count b ≡ 1
    → (Option.map (λ _. responses c.node_id) c.response_queue ≡ c.response_queue)
      × (Option.map (λ _. requests c.node_id) c.request_queue ≡ c.request_queue)
unfolding configure
sugar_queues b c accepted one = (ground arith, ground arith)

module _ (k : Oneshots) (f : Floats) (cells : ℕ → k.Cell) {W : Type 0} (t : Transport W)
    (b : TransportBuilder) (c : TransportConfig) (accepted : configure b ≡ ok c)
    (configured : t.base ≡ base_of_config c) where
  abbrev broker : RpcBroker k.Cell W f.F64
  broker = new k cells (build f (new_builder t))

  -- A broker over a transport that was built from an accepted configuration receives responses
  -- exactly if a response queue was configured and requests exactly if a request queue was, but
  -- from the node's default queues, whatever the configured names are.
  pub broker_subscriptions :
      (broker.rx_task ≡ Option.map (λ _. record { name = responses c.node_id }) c.response_queue)
      × (broker.server_rx_task
          ≡ Option.map (λ _. record { name = requests c.node_id }) c.request_queue)
  unfolding new build new_builder base_of_config transport_id mode
  broker_subscriptions =
      let (matches, u, n) = configure-ModeMatches b c accepted in
      rw configured (sides c.mode c.request_queue c.response_queue c.node_id matches)

  -- With a mode method in place of explicit names, these are the configured queues.
  pub sugar_subscriptions :
      sugar_count b ≡ 1
      → (broker.rx_task ≡ Option.map (λ q. record { name = q }) c.response_queue)
        × (broker.server_rx_task ≡ Option.map (λ q. record { name = q }) c.request_queue)
  sugar_subscriptions one =
      let (rx, server_rx) = broker_subscriptions in
      let (response, request) = sugar_queues b c accepted one in
      (
        rx ∙ named_subscription c.response_queue (responses c.node_id) response,
        server_rx ∙ named_subscription c.request_queue (requests c.node_id) request,
      )
