-- ===== src/Dds/Reader.antt =====
-- The task that polls the reader of a topic.
use mom_rpc.Base.{◌∷◌, [], List, some, none, Option, false, true, Bool, ◌<>◌, String, suc, zero, ℕ}
use mom_rpc.Error.{Result, ok, err, transport, Attempt, done, failed}
use mom_rpc.Domain.{Bytes, Envelope}
use mom_rpc.Channels.{Channels}
use mathlib.Core.Option
use mom_rpc.FanOut.{Local, hand_out}
use mom_rpc.Dds.Participant.{Participant, DdsEnvelope, samples, no_data, take_error}

-- What the task selects: the shutdown, or the end of its wait, with what happened to the participant
-- before, and the trigger values that it then reads.
pub data ReaderEvent (S : Type 0) : Type 0 where
  shutdown_changed : ReaderEvent S
  woken : (S → S) → Attempt (List (Attempt Bool)) → ReaderEvent S

-- Fans out an envelope to the local subscribers of the topic.
abbrev pub handle_incoming : (k : Channels) → String → Envelope → Local k.Inbox → Local k.Inbox
handle_incoming k topic env l = hand_out k topic env l

module _ (k : Channels) (from_slice : Bytes → Attempt Envelope) (topic : String) where
  abbrev pub hand_out_decoded : Attempt Envelope → Local k.Inbox → Local k.Inbox
  hand_out_decoded (failed text) l = l
  hand_out_decoded (done env) l = handle_incoming k topic env l

  abbrev pub hand_out_sample : Option DdsEnvelope → Local k.Inbox → Local k.Inbox
  hand_out_sample none l = l
  hand_out_sample (some dds_env) l = hand_out_decoded (from_slice dds_env.payload) l

  -- for sample in samples.iter()
  unfoldable pub hand_out_samples : List (Option DdsEnvelope) → Local k.Inbox → Local k.Inbox
  unfolding hand_out
  hand_out_samples [] l = l
  hand_out_samples (sample ∷ rest) l = hand_out_samples rest (hand_out_sample sample l)

  module _ (p : Participant) (reader : p.Reader) where
    -- The loop on fuel; `none` if it runs out.
    unfoldable pub drain_reader :
        ℕ → Local k.Inbox × p.State → Option (Result (Unit {0}) × (Local k.Inbox × p.State))
    unfolding hand_out_samples
    drain_reader zero (l, s) = none
    drain_reader (suc fuel) (l, s) =
        let r = p.take reader 10 s in
        let rest = drain_reader fuel in
        elim r.0 [
          | samples taken ↦ rest (hand_out_samples taken l, r.1)
          | no_data ↦ some (ok tt, (l, r.1))
          | take_error text ↦
              some (err (transport ("take error on topic " <> topic <> ": " <> text)), (l, r.1))
        ]

    -- for cond in triggered: a drain that fails ends this loop, and not the task.
    unfoldable pub on_triggered :
        ℕ → List (Attempt Bool) → Local k.Inbox × p.State → Option (Local k.Inbox × p.State)
    unfolding drain_reader
    on_triggered fuel [] s = some s
    on_triggered fuel (failed text ∷ triggered) s = on_triggered fuel triggered s
    on_triggered fuel (done false ∷ triggered) s = on_triggered fuel triggered s
    on_triggered fuel (done true ∷ triggered) s =
        let rest = on_triggered fuel triggered in
        Option.bind (drain_reader fuel s) (λ r. elim r.0 [ ok _ ↦ rest r.1 | err e ↦ some r.1 ])

    -- The loop over what the task selects.
    unfoldable pub watch_topic :
        ℕ → List (ReaderEvent p.State) → Local k.Inbox × p.State → Option (Local k.Inbox × p.State)
    unfolding on_triggered
    watch_topic fuel [] s = some s
    watch_topic fuel (shutdown_changed ∷ events) s = some s
    watch_topic fuel (woken meanwhile (failed text) ∷ events) (l, s) = some (l, meanwhile s)
    watch_topic fuel (woken meanwhile (done triggered) ∷ events) (l, s) =
        Option.bind (on_triggered fuel triggered (l, meanwhile s)) (watch_topic fuel events)

    -- The loop is entered once the reader's condition is enabled and attached to a WaitSet.
    unfoldable pub run_topic_reader :
        Attempt (Unit {0})
        → Attempt (Unit {0})
        → ℕ
        → List (ReaderEvent p.State)
        → Local k.Inbox × p.State
        → Option (Local k.Inbox × p.State)
    unfolding watch_topic
    run_topic_reader (failed text) attached fuel events s = some s
    run_topic_reader (done _) (failed text) fuel events s = some s
    run_topic_reader (done _) (done _) fuel events s = watch_topic fuel events s
