-- ===== src/Memory.antt =====
-- src/transport/memory.rs: the in-process bus, and the transport over it. The state holds the hub's
-- subscriptions and the inboxes of all channels made so far; transports that share a hub share it.
pub mod Delivery
pub mod Hub
pub mod Blocking
pub mod Sends
use mom_rpc.Base.{if◌then◌else◌, str_eq, map, ◌∷◌, [], List, some, none, Option, ℕ}
use mathlib.Core.Option
use mom_rpc.Error.{Result, ok}
use mom_rpc.Domain.{
  Async, Envelope, Subscription, Transport, TransportBase, TransportConfig, base_of_config,
}
use mom_rpc.Base.HashMap.{HashMap, empty}
use mom_rpc.Channels.{Channels, accepted, full, closed, Inboxes, write, allocate, entry_push}

pub record MemoryHub (Q : Type 0) : Type 0 where
  pub subscriptions : HashMap (List ℕ)
  pub inboxes : Inboxes Q

-- The inbox capacity of a subscription.
abbrev pub inbox_capacity : ℕ
inbox_capacity = 16

module _ (k : Channels) where
  -- MemoryHub::new, with the channels that the process has made before.
  unfoldable pub new : Inboxes k.Inbox → MemoryHub k.Inbox
  new t = record { subscriptions = empty; inboxes = t }

  -- for sender in senders { sender.send(env.clone()).await }: a full inbox suspends the loop, and a
  -- closed one is passed over.
  unfoldable pub send_all : List ℕ → Envelope → Inboxes k.Inbox → Option (Inboxes k.Inbox)
  send_all [] env t = some t
  send_all (i ∷ senders) env t = elim (k.offer (t.cell i) env) [
    | accepted q ↦ send_all senders env (write t i q)
    | full ↦ none
    | closed ↦ send_all senders env t
  ]

  -- for (sub, senders) in subs.iter()
  unfoldable pub deliver : HashMap (List ℕ) → Envelope → Inboxes k.Inbox → Option (Inboxes k.Inbox)
  unfolding send_all
  deliver [] env t = some t
  deliver ((sub, senders) ∷ subs) env t =
      Option.bind (if str_eq sub env.address.name then send_all senders env t else some t)
        (deliver subs env)

  unfoldable pub publish : Envelope → Async (MemoryHub k.Inbox) (Unit {0})
  unfolding deliver
  publish env h =
      Option.map (λ t. (ok tt, record h { inboxes = t })) (deliver h.subscriptions env h.inboxes)

  unfoldable pub subscribe : Subscription → Async (MemoryHub k.Inbox) ℕ
  unfolding entry_push
  subscribe sub h =
      let tx = h.inboxes.next in
      some (
        ok tx,
        record {
          subscriptions = entry_push h.subscriptions sub.name tx;
          inboxes = allocate h.inboxes (k.channel inbox_capacity);
        },
      )

  unfoldable pub close : Async (MemoryHub k.Inbox) (Unit {0})
  close h = some (ok tt, record h { subscriptions = empty })

  -- MemoryTransport
  unfoldable pub memory_transport : TransportBase → Transport (MemoryHub k.Inbox)
  memory_transport base = record {
    base = base;
    publish = publish;
    subscribe = subscribe;
    close = close;
  }

  unfoldable pub create_memory_transport_with_hub :
      TransportConfig → Result (Transport (MemoryHub k.Inbox))
  unfolding memory_transport
  create_memory_transport_with_hub config = ok (memory_transport (base_of_config config))

  -- GLOBAL_HUB.get_or_init(MemoryHub::new): the process's hub, if there is one already.
  abbrev pub global_hub : Option (MemoryHub k.Inbox) → Inboxes k.Inbox → MemoryHub k.Inbox
  unfolding new
  global_hub none t = new t
  global_hub (some hub) t = hub

  -- The transports over the process's hub share its state.
  abbrev pub create_memory_transport : TransportConfig → Result (Transport (MemoryHub k.Inbox))
  create_memory_transport config = create_memory_transport_with_hub config
