-- ===== src/Amqp/Replies.antt =====
-- What the callers of the AMQP transport are told by its actor.
use mom_rpc.Base.HashMap.{get}
use mom_rpc.Base.{◌∷◌, [], List, some, none, Option, ◌∙◌, ap, refl, ◌≡◌, String, ℕ}
use mom_rpc.Error.{Attempt, done, failed}
use mom_rpc.Domain.{Bytes, Envelope}
use mom_rpc.Channels.{Inboxes}
use mom_rpc.Amqp.Actor.{
  Channel, Cmd, Actor, ConsumerTask, create, do_publish, do_subscribe, declared, consume_if_new,
  spawn_consumer, publish_payload, handle_cmd, handle_all, run,
}

-- The responder that a command carries.
abbrev pub responder : Cmd → ℕ
responder (Cmd.publish env resp) = resp
responder (Cmd.subscribe queue resp) = resp
responder (Cmd.close resp) = resp

-- The responders that were sent an answer, the last one first.
abbrev pub answered : {A : Type 0} → List (ℕ × A) → List ℕ
answered [] = []
answered ((resp, r) ∷ replies) = resp ∷ answered replies

-- The responders of commands in the order of the commands, the last one first, before others.
abbrev pub asked_onto : List Cmd → List ℕ → List ℕ
asked_onto [] rest = rest
asked_onto (cmd ∷ cmds) rest = asked_onto cmds (responder cmd ∷ rest)

module _ (c : Channel) {Q : Type 0} (to_vec : Envelope → Attempt Bytes) where
  replies-publish_payload :
      (queue : String) (a : Actor Q c.State) (payload : Attempt Bytes)
      → (publish_payload c queue a payload).1.replies ≡ a.replies
  replies-publish_payload queue a (failed text) = refl
  replies-publish_payload queue a (done payload) = refl

  replies-spawn_consumer :
      (queue : String) (a : Actor Q c.State) (r : Attempt (Unit {0}) × c.State)
      → (spawn_consumer c queue a r).1.replies ≡ a.replies
  replies-spawn_consumer queue a (failed text, channel) = refl
  replies-spawn_consumer queue a (done _, channel) = refl

  replies-consume_if_new :
      (queue : String) (a : Actor Q c.State) (handle : Option ℕ)
      → (consume_if_new c queue a handle).1.replies ≡ a.replies
  replies-consume_if_new queue a (some handle) = refl
  replies-consume_if_new queue a none = replies-spawn_consumer queue a _

  replies-declared :
      (queue : String) (a : Actor Q c.State) (r : Attempt (Unit {0}) × c.State)
      → (declared c queue a r).1.replies ≡ a.replies
  replies-declared queue a (failed text, channel) = refl
  replies-declared queue a (done _, channel) =
      replies-consume_if_new queue (record a { channel = channel }) (get a.consumer_handles queue)

  answered-handle_cmd :
      (cmd : Cmd) (a : Actor Q c.State)
      → answered (handle_cmd c to_vec cmd a).replies ≡ responder cmd ∷ answered a.replies
  unfolding handle_cmd do_publish do_subscribe
  answered-handle_cmd (Cmd.publish env resp) a =
      ap (λ l. resp ∷ answered l) (replies-publish_payload env.address.name a (to_vec env))
  answered-handle_cmd (Cmd.subscribe queue resp) a =
      ap (λ l. resp ∷ answered l) (replies-declared queue a (c.queue_declare queue a.channel))
  answered-handle_cmd (Cmd.close resp) a = refl

  answered-handle_all :
      (cmds : List Cmd) (a : Actor Q c.State)
      → answered (handle_all c to_vec cmds a).replies ≡ asked_onto cmds (answered a.replies)
  unfolding handle_all
  answered-handle_all [] a = refl
  answered-handle_all (cmd ∷ cmds) a =
      answered-handle_all cmds (handle_cmd c to_vec cmd a)
      ∙ ap (asked_onto cmds) (answered-handle_cmd cmd a)

  -- Every command that the actor receives is answered once, in the order of the commands, those
  -- behind a close included.
  pub answered-run :
      (transport_id : String) (channel : c.State) (inboxes : Inboxes Q)
      (no_tasks : ℕ → ConsumerTask) (cmds : List Cmd)
      → answered (run c to_vec cmds (create c transport_id channel inboxes no_tasks)).replies
        ≡ asked_onto cmds []
  unfolding run create
  answered-run transport_id channel inboxes no_tasks cmds =
      answered-handle_all cmds (create c transport_id channel inboxes no_tasks)
