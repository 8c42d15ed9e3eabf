-- ===== src/Amqp/Consumers.antt =====
-- Which consumer tasks run for a queue.
use mom_rpc.Base.{
  Bool-cases, ==_iff, if◌then◌else◌, ◌==◌, eq_iff, str_eq, arith, ◌∷◌, [], List, some, none, Option,
  false, true, Bool, inr, inl, refl, ◌≡◌, String, ◌<◌, suc, ℕ,
}
use mom_rpc.Base.HashMap.{insert, HashMap, get, get-insert}
use mom_rpc.Error.{Attempt, done, failed, ok}
use mom_rpc.Domain.{Bytes, Envelope}
use mom_rpc.Channels.{Inboxes}
use mom_rpc.Amqp.Actor.{
  Channel, Cmd, Actor, ConsumerTask, stop, abort_all, create, do_publish, do_subscribe, declared,
  consume_if_new, spawn_consumer, publish_payload, handle_cmd, handle_all, run,
}

-- A task that runs was spawned, and its handle is the one kept for its queue.
abbrev pub Kept : {Q S : Type 0} → Actor Q S → Type 0
Kept a =
    (i : ℕ)
    → (a.tasks i).running ≡ true
    → (i < a.next_task) × (get a.consumer_handles (a.tasks i).queue ≡ some i)

running_or :
    (b : Bool) (x y : ConsumerTask)
    → (if b then x else y).running ≡ (if b then x.running else y.running)
running_or true x y = refl
running_or false x y = refl

running-stop :
    (j : ℕ) (tasks : ℕ → ConsumerTask) (i : ℕ)
    → (stop j tasks i).running ≡ (if i == j then false else (tasks i).running)
running-stop j tasks i = running_or (i == j) (record (tasks i) { running = false }) (tasks i)

-- A task that does not run is not started.
stays_stopped :
    (kept : HashMap ℕ) (tasks : ℕ → ConsumerTask) (i : ℕ)
    → (tasks i).running ≡ false
    → (abort_all kept tasks i).running ≡ false
stays_stopped [] tasks i h = h
stays_stopped ((queue, j) ∷ kept) tasks i h =
    stays_stopped kept (stop j tasks) i (ground (arith, h, running-stop j tasks i))

-- The task of a kept handle is stopped.
running-abort_all :
    (kept : HashMap ℕ) (tasks : ℕ → ConsumerTask) (i : ℕ) (queue : String)
    → get kept queue ≡ some i
    → (abort_all kept tasks i).running ≡ false
unfolding get
running-abort_all [] tasks i queue h = cc h
running-abort_all ((q, j) ∷ kept) tasks i queue h = elim (Bool-cases (str_eq q queue)) [
  | inl e ↦ stays_stopped kept (stop j tasks) i (ground (arith, running-stop j tasks i, rw e at h))
  | inr e ↦ running-abort_all kept (stop j tasks) i queue (rw e at h)
]

module _ (c : Channel) {Q : Type 0} (to_vec : Envelope → Attempt Bytes) where
  -- The states of the actor: it handles commands, and its tasks end.
  pub data Reach (a : Actor Q c.State) : Actor Q c.State → Type 0 where
    here : Reach a a
    handles : (b : Actor Q c.State) (cmd : Cmd) → Reach a b → Reach a (handle_cmd c to_vec cmd b)
    ends : (b : Actor Q c.State) (i : ℕ) → Reach a b → Reach a (record b { tasks = stop i b.tasks })

  Kept-publish_payload :
      (queue : String) (a : Actor Q c.State) (payload : Attempt Bytes)
      → Kept a
      → Kept (publish_payload c queue a payload).1
  Kept-publish_payload queue a (failed text) v = v
  Kept-publish_payload queue a (done payload) v = v

  Kept-spawn_consumer :
      (queue : String) (a : Actor Q c.State) (r : Attempt (Unit {0}) × c.State)
      → get a.consumer_handles queue ≡ none
      → Kept a
      → Kept (spawn_consumer c queue a r).1
  Kept-spawn_consumer queue a (failed text, channel) new v = v
  Kept-spawn_consumer queue a (done _, channel) new v = λ i running.
      elim (Bool-cases (i == a.next_task)) [
        | inl e ↦ rw e (
            ground (
              arith,
              ==_iff i a.next_task,
              get-insert a.consumer_handles queue a.next_task queue,
              eq_iff queue queue,
            ))
        | inr e ↦ rw e (old i (rw e at running))
      ]
    where
      old :
          (i : ℕ)
          → (a.tasks i).running ≡ true
          → (i < suc a.next_task)
            × (get (insert a.consumer_handles queue a.next_task) (a.tasks i).queue ≡ some i)
      old i running =
          let (spawned, kept) = v i running in
          (
            omega (arith, spawned),
            ground (
              arith,
              get-insert a.consumer_handles queue a.next_task (a.tasks i).queue,
              eq_iff queue (a.tasks i).queue,
              kept,
              new,
            ),
          )

  Kept-consume_if_new :
      (queue : String) (a : Actor Q c.State) (handle : Option ℕ)
      → get a.consumer_handles queue ≡ handle
      → Kept a
      → Kept (consume_if_new c queue a handle).1
  Kept-consume_if_new queue a (some handle) e v = v
  Kept-consume_if_new queue a none e v = Kept-spawn_consumer queue a _ e v

  Kept-declared :
      (queue : String) (a : Actor Q c.State) (r : Attempt (Unit {0}) × c.State)
      → Kept a
      → Kept (declared c queue a r).1
  Kept-declared queue a (failed text, channel) v = v
  Kept-declared queue a (done _, channel) v =
      Kept-consume_if_new queue (record a { channel = channel }) (get a.consumer_handles queue) refl
        v

  Kept-handle_cmd : (cmd : Cmd) (a : Actor Q c.State) → Kept a → Kept (handle_cmd c to_vec cmd a)
  unfolding handle_cmd do_publish do_subscribe
  Kept-handle_cmd (Cmd.publish env resp) a v =
      Kept-publish_payload env.address.name a (to_vec env) v
  Kept-handle_cmd (Cmd.subscribe queue resp) a v =
      Kept-declared queue a (c.queue_declare queue a.channel) v
  Kept-handle_cmd (Cmd.close resp) a v = v

  Kept-handle_all :
      (cmds : List Cmd) (a : Actor Q c.State) → Kept a → Kept (handle_all c to_vec cmds a)
  unfolding handle_all
  Kept-handle_all [] a v = v
  Kept-handle_all (cmd ∷ cmds) a v =
      Kept-handle_all cmds (handle_cmd c to_vec cmd a) (Kept-handle_cmd cmd a v)

  Kept-stop : (i : ℕ) (a : Actor Q c.State) → Kept a → Kept (record a { tasks = stop i a.tasks })
  Kept-stop i a v = λ j running. elim (Bool-cases (j == i)) [
    | inl e ↦ absurd (cc (rw e at running))
    | inr e ↦ rw e (v j (rw e at running))
  ]

  Kept-Reach : {a b : Actor Q c.State} → Kept a → Reach a b → Kept b
  Kept-Reach v here = v
  Kept-Reach v (handles b cmd r) = Kept-handle_cmd cmd b (Kept-Reach v r)
  Kept-Reach v (ends b i r) = Kept-stop i b (Kept-Reach v r)

  create-Kept :
      (transport_id : String) (channel : c.State) (inboxes : Inboxes Q)
      (no_tasks : ℕ → ConsumerTask)
      → ((i : ℕ) → (no_tasks i).running ≡ false)
      → Kept (create c transport_id channel inboxes no_tasks)
  unfolding create
  create-Kept transport_id channel inboxes no_tasks none_runs =
      λ i running. absurd (cc (none_runs i, running))

  -- In every state that the actor reaches from its creation on, whatever it handles and whichever
  -- tasks end: two tasks that run and consume one queue are one task, its handle is the one kept for
  -- the queue, and after the rest of the actor's loop, whatever it handles, no task runs.
  pub run-stops_consumers :
      (transport_id : String) (channel : c.State) (inboxes : Inboxes Q)
      (no_tasks : ℕ → ConsumerTask) (a : Actor Q c.State) (cmds : List Cmd) (i j n : ℕ)
      → ((i : ℕ) → (no_tasks i).running ≡ false)
      → Reach (create c transport_id channel inboxes no_tasks) a
      → (a.tasks i).running ≡ true
      → (a.tasks j).running ≡ true
      → (a.tasks i).queue ≡ (a.tasks j).queue
      → (i ≡ j)
        × (get a.consumer_handles (a.tasks i).queue ≡ some i)
        × (((run c to_vec cmds a).tasks n).running ≡ false)
  unfolding run
  run-stops_consumers transport_id channel inboxes no_tasks a cmds i j n none_runs reach ri rj
        same =
      let v = Kept-Reach (create-Kept transport_id channel inboxes no_tasks none_runs) reach in
      let b = handle_all c to_vec cmds a in
      let w = Kept-handle_all cmds a v in
      (
        cc ((v i ri).1, (v j rj).1, same),
        (v i ri).1,
        elim (Bool-cases (b.tasks n).running) [
          | inl e ↦ running-abort_all b.consumer_handles b.tasks n (b.tasks n).queue (w n e).1
          | inr e ↦ stays_stopped b.consumer_handles b.tasks n e
        ],
      )

  -- In a state of the actor where the task of a queue's handle has ended, a subscribe to the queue
  -- whose declaration succeeds is answered with success, and no
  -- task that runs consumes the queue.
  pub do_subscribe-ended :
      (transport_id : String) (channel : c.State) (inboxes : Inboxes Q)
      (no_tasks : ℕ → ConsumerTask) (a : Actor Q c.State) (queue : String) (handle : ℕ)
      (declared_channel : c.State) (i : ℕ)
      → ((i : ℕ) → (no_tasks i).running ≡ false)
      → Reach (create c transport_id channel inboxes no_tasks) a
      → get a.consumer_handles queue ≡ some handle
      → (a.tasks handle).running ≡ false
      → c.queue_declare queue a.channel ≡ (done tt, declared_channel)
      → ((do_subscribe c queue a).1.tasks i).queue ≡ queue
      → ((do_subscribe c queue a).0 ≡ ok tt)
        × (((do_subscribe c queue a).1.tasks i).running ≡ false)
  unfolding do_subscribe
  do_subscribe-ended transport_id channel inboxes no_tasks a queue handle declared_channel i
        none_runs reach kept ended accepted same =
      let v = Kept-Reach (create-Kept transport_id channel inboxes no_tasks none_runs) reach in
      rw (accepted, kept, do_subscribe)
        (
          refl,
          elim (Bool-cases (a.tasks i).running) [
            | inl e ↦ cc ((v i e).1, rw (accepted, kept, do_subscribe) at same, kept, ended)
            | inr e ↦ e
          ],
        )
