-- ===== src/Mqtt/Subscribe.antt =====
-- `subscribe` of the transports over MQTT and Redis, which tries again while the actor says so.
use mom_rpc.Base.{◌∷◌, [], List, some, none, Option, String, ℕ}
use mom_rpc.Error.{Result, ok, err}
use mom_rpc.Channels.{Channels}
use mom_rpc.FanOut.{Local, add_subscriber}
use mom_rpc.Mqtt.Actor.{Ack}
use mom_rpc.Calls.{Call, awaited, answer_of, subscribe_texts}

-- The loop over the commands that it sends, by what becomes of each: the handle, or an error. `none`:
-- an answer is still to come.
unfoldable pub await_ack : ℕ → List (Call (Result Ack)) → Option (Result ℕ)
await_ack handle [] = none
await_ack handle (call ∷ calls) =
    let rest = await_ack handle calls in
    elim (answer_of (awaited subscribe_texts call)) [
      | ok Ack.retry ↦ rest
      | ok Ack.granted ↦ some (ok handle)
      | err e ↦ some (err e)
    ]

-- The new sender goes into the map first, and stays there if the subscribe fails.
unfoldable pub subscribe :
    (k : Channels)
    → String
    → List (Call (Result Ack))
    → Local k.Inbox
    → Option (Result ℕ) × Local k.Inbox
unfolding add_subscriber await_ack
subscribe k topic calls l = let r = add_subscriber k topic l in (await_ack r.0 calls, r.1)
