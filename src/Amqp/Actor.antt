-- ===== src/Amqp/Actor.antt =====
-- The actor that owns the AMQP channel, its commands, and its loop.
use mom_rpc.Base.{
  if◌then◌else◌, ◌==◌, ◌∷◌, [], List, some, none, Option, false, true, Bool, ◌<>◌, String, suc, ℕ,
}
use mom_rpc.Error.{Result, ok, err, transport, Attempt, done, failed, map_err}
use mom_rpc.Domain.{Bytes, Envelope}
use mom_rpc.Base.HashMap.{HashMap, get, insert}
use mom_rpc.Channels.{Inboxes}
use mom_rpc.FanOut.{Local}

-- lapin::Channel and lapin::Connection.
pub record Channel : Type 1 where
  pub State : Type 0
  pub queue_declare : String → State → Attempt (Unit {0}) × State
  -- The queue and the consumer's tag.
  pub basic_consume : String → String → State → Attempt (Unit {0}) × State
  -- The routing key on the default exchange.
  pub basic_publish : String → Bytes → State → Attempt (Unit {0}) × State
  pub close_channel : State → State
  pub close_connection : State → State

pub data Cmd : Type 0 where
  publish : Envelope → ℕ → Cmd
  subscribe : String → ℕ → Cmd
  close : ℕ → Cmd

-- The task that a subscribe spawns for its queue.
pub record ConsumerTask : Type 0 where
  pub queue : String
  pub running : Bool

-- Actor. A JoinHandle is the number of its task, `tasks` holds those spawned so far; `closed` says that
-- the command channel takes nothing more. `replies` is what the responders were sent.
pub record Actor (Q S : Type 0) : Type 0 where
  pub transport_id : String
  pub channel : S
  pub local : Local Q
  pub consumer_handles : HashMap ℕ
  pub tasks : ℕ → ConsumerTask
  pub next_task : ℕ
  pub closed : Bool
  pub replies : List (ℕ × Result (Unit {0}))

-- handle.abort(), or the end of a task
abbrev pub stop : ℕ → (ℕ → ConsumerTask) → ℕ → ConsumerTask
stop handle tasks i = if i == handle then record (tasks i) { running = false } else tasks i

abbrev pub abort_all : HashMap ℕ → (ℕ → ConsumerTask) → ℕ → ConsumerTask
abort_all [] tasks = tasks
abort_all ((queue, handle) ∷ handles) tasks = abort_all handles (stop handle tasks)

abbrev pub reply : {Q S : Type 0} → ℕ → Result (Unit {0}) × Actor Q S → Actor Q S
reply resp (r, a) = record a { replies = (resp, r) ∷ a.replies }

module _ (c : Channel) {Q : Type 0} where
  -- AmqpTransport::create: the actor that it spawns. `no_tasks` is what the table holds before a task
  -- is spawned.
  unfoldable pub create : String → c.State → Inboxes Q → (ℕ → ConsumerTask) → Actor Q c.State
  create transport_id channel inboxes no_tasks = record {
    transport_id = transport_id;
    channel = channel;
    local = record { subscribers = []; inboxes = inboxes };
    consumer_handles = [];
    tasks = no_tasks;
    next_task = 0;
    closed = false;
    replies = [];
  }

  abbrev pub publish_payload :
      String → Actor Q c.State → Attempt Bytes → Result (Unit {0}) × Actor Q c.State
  publish_payload queue a (failed text) =
      (err (transport ("amqp: failed to serialize envelope: " <> text)), a)
  publish_payload queue a (done payload) =
      let r = c.basic_publish queue payload a.channel in
      (
        map_err r.0 (λ text. transport ("amqp: publish failed: " <> text)),
        record a { channel = r.1 },
      )

  unfoldable pub do_publish :
      (Envelope → Attempt Bytes) → Envelope → Actor Q c.State → Result (Unit {0}) × Actor Q c.State
  do_publish to_vec env a = publish_payload env.address.name a (to_vec env)

  -- After basic_consume: its task is spawned, and its handle kept.
  abbrev pub spawn_consumer :
      String → Actor Q c.State → Attempt (Unit {0}) × c.State → Result (Unit {0}) × Actor Q c.State
  spawn_consumer queue a (failed text, channel) =
      (err (transport ("amqp: consume failed: " <> text)), record a { channel = channel })
  spawn_consumer queue a (done _, channel) = (
    ok tt,
    record a {
      channel = channel;
      consumer_handles = insert a.consumer_handles queue a.next_task;
      tasks = λ i. if i == a.next_task then record { queue = queue; running = true } else a.tasks i;
      next_task = suc a.next_task;
    },
  )

  -- A queue with a handle is not consumed again.
  abbrev pub consume_if_new :
      String → Actor Q c.State → Option ℕ → Result (Unit {0}) × Actor Q c.State
  consume_if_new queue a (some handle) = (ok tt, a)
  consume_if_new queue a none =
      spawn_consumer queue a (c.basic_consume queue (a.transport_id <> "-consumer") a.channel)

  abbrev pub declared :
      String → Actor Q c.State → Attempt (Unit {0}) × c.State → Result (Unit {0}) × Actor Q c.State
  declared queue a (failed text, channel) =
      (err (transport ("amqp: queue declare failed: " <> text)), record a { channel = channel })
  declared queue a (done _, channel) =
      consume_if_new queue (record a { channel = channel }) (get a.consumer_handles queue)

  unfoldable pub do_subscribe : String → Actor Q c.State → Result (Unit {0}) × Actor Q c.State
  do_subscribe queue a = declared queue a (c.queue_declare queue a.channel)

  unfoldable pub handle_cmd : (Envelope → Attempt Bytes) → Cmd → Actor Q c.State → Actor Q c.State
  unfolding do_publish do_subscribe
  handle_cmd to_vec (Cmd.publish env resp) a = reply resp (do_publish to_vec env a)
  handle_cmd to_vec (Cmd.subscribe queue resp) a = reply resp (do_subscribe queue a)
  handle_cmd to_vec (Cmd.close resp) a = reply resp (ok tt, record a { closed = true })

  -- The loop over the commands that the channel yields. One that is closed yields those that were
  -- sent before.
  unfoldable pub handle_all :
      (Envelope → Attempt Bytes) → List Cmd → Actor Q c.State → Actor Q c.State
  unfolding handle_cmd
  handle_all to_vec [] a = a
  handle_all to_vec (cmd ∷ cmds) a = handle_all to_vec cmds (handle_cmd to_vec cmd a)

  -- Once the channel is closed and empty: the tasks are aborted, the channel and the connection closed.
  unfoldable pub run : (Envelope → Attempt Bytes) → List Cmd → Actor Q c.State → Actor Q c.State
  unfolding handle_all
  run to_vec cmds a =
      let b = handle_all to_vec cmds a in
      record b {
        consumer_handles = [];
        tasks = abort_all b.consumer_handles b.tasks;
        channel = c.close_connection (c.close_channel b.channel);
      }
