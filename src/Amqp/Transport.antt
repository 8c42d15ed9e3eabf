-- ===== src/Amqp/Transport.antt =====
-- The methods of the transport over AMQP, by what becomes of the commands that they send.
use mom_rpc.Base.{String, ℕ}
use mom_rpc.Error.{Result}
use mom_rpc.Channels.{Channels}
use mom_rpc.FanOut.{Local}
use mom_rpc.Calls
use mom_rpc.Calls.{Call}

abbrev pub publish : Call (Result (Unit {0})) → Result (Unit {0})
publish call = Calls.publish call

-- A queue has the name of the subscription.
abbrev pub subscribe :
    (k : Channels) → String → Call (Result (Unit {0})) → Local k.Inbox → Result ℕ × Local k.Inbox
subscribe k queue call l = Calls.subscribe k queue call l

abbrev pub close : Call (Result (Unit {0})) → Result (Unit {0})
close call = Calls.close call
