-- ===== src/Amqp/Deliveries.antt =====
-- What the consumer of a queue hands to the local subscribers.
use mom_rpc.Amqp.Consumer.{
  Next, delivery, consumer_error, stream_end, on_delivery, consume, send_to, acknowledged,
}
use mom_rpc.Base.{
  unwrap_or, arith, ◌++◌, ◌∷◌, [], List, some, none, Option, false, true, Bool, ◌∙◌, sym, refl, ◌≡◌,
  String, ℕ,
}
use mathlib.Core.Option
use mom_rpc.Error.{Attempt, done, failed}
use mom_rpc.Domain.{Bytes, Envelope}
use mom_rpc.Base.HashMap.{get}
use mom_rpc.Channels.{Channels, count}
use mom_rpc.FanOut.{Local}
use mom_rpc.FanOut.Delivery.{senders_of}
use mom_rpc.Memory.Delivery.{offered, send_all-offered}

-- The message of a delivery that is acknowledged and decoded.
abbrev pub message_of : Attempt (Unit {0}) → Attempt Envelope → List Envelope
message_of (failed text) env = []
message_of (done _) (failed text) = []
message_of (done _) (done env) = env ∷ []

-- The messages of the deliveries, up to what ends the consumer's task.
abbrev pub messages : (Bytes → Attempt Envelope) → List Next → List Envelope
messages from_slice [] = []
messages from_slice (stream_end ∷ yielded) = []
messages from_slice (consumer_error text ∷ yielded) = []
messages from_slice (delivery d ∷ yielded) =
    message_of d.ack (from_slice d.payload) ++ messages from_slice yielded

-- Whether the consumer has yielded deliveries only.
abbrev pub is_alive : List Next → Bool
is_alive [] = true
is_alive (stream_end ∷ yielded) = false
is_alive (consumer_error text ∷ yielded) = false
is_alive (delivery d ∷ yielded) = is_alive yielded

module _ (k : Channels) where
  -- An inbox after it was offered each of some messages n times.
  abbrev pub offered_each : List Envelope → ℕ → k.Inbox → k.Inbox
  offered_each [] n q = q
  offered_each (env ∷ envs) n q = offered_each envs n (offered k env n q)

  offered_each-append :
      (envs more : List Envelope) (n : ℕ) (q : k.Inbox)
      → offered_each (envs ++ more) n q ≡ offered_each more n (offered_each envs n q)
  offered_each-append [] more n q = refl
  offered_each-append (env ∷ envs) more n q = offered_each-append envs more n (offered k env n q)

  pub send_to-offered :
      (senders : Option (List ℕ)) (env : Envelope) (l l' : Local k.Inbox) (i : ℕ)
      → send_to k senders env l ≡ some l'
      → (l'.inboxes.cell i ≡ offered k env (count i (unwrap_or senders [])) (l.inboxes.cell i))
        × (l'.subscribers ≡ l.subscribers)
  send_to-offered none env l l' i h = ground arith
  send_to-offered (some senders) env l l' i h =
      let (t, sent, same) = (Option.map-eq-some_iff _ _).0 h in
      ground (arith, same, (send_all-offered k senders env l.inboxes t i sent).0)

  acknowledged-offered :
      (queue : String) (ack : Attempt (Unit {0})) (env : Attempt Envelope) (l l' : Local k.Inbox)
      (i : ℕ)
      → acknowledged k queue ack env l ≡ some l'
      → (l'.inboxes.cell i
          ≡ offered_each
              (message_of ack env)
              (count i (senders_of l.subscribers queue))
              (l.inboxes.cell i))
        × (l'.subscribers ≡ l.subscribers)
  acknowledged-offered queue (failed text) env l l' i h = ground arith
  acknowledged-offered queue (done _) (failed text) l l' i h = ground arith
  acknowledged-offered queue (done _) (done env) l l' i h =
      send_to-offered (get l.subscribers queue) env l l' i h

  -- Once the consumer task of a queue has worked through what its consumer yielded: it has offered
  -- each message that it could acknowledge and decode, up to an error or the end of the stream, to
  -- each inbox as often as the inbox is subscribed to the queue, in order; the subscriptions are as
  -- before; and the task still runs exactly if there were deliveries only.
  pub consume-offered :
      (from_slice : Bytes → Attempt Envelope) (queue : String) (yielded : List Next)
      (l l' : Local k.Inbox) (runs : Bool) (i : ℕ)
      → consume k from_slice queue yielded l ≡ some (l', runs)
      → (l'.inboxes.cell i
          ≡ offered_each
              (messages from_slice yielded)
              (count i (senders_of l.subscribers queue))
              (l.inboxes.cell i))
        × (l'.subscribers ≡ l.subscribers)
        × (runs ≡ is_alive yielded)
  unfolding consume on_delivery
  consume-offered from_slice queue [] l l' runs i h = ground arith
  consume-offered from_slice queue (stream_end ∷ yielded) l l' runs i h = ground arith
  consume-offered from_slice queue (consumer_error text ∷ yielded) l l' runs i h = ground arith
  consume-offered from_slice queue (delivery d ∷ yielded) l l' runs i h =
      let (m, e, rest) = (Option.bind-eq-some_iff _ _).0 h in
      let (cell, subs) = acknowledged-offered queue d.ack (from_slice d.payload) l m i e in
      let (cell', subs', ran) = consume-offered from_slice queue yielded m l' runs i rest in
      (
        cell'
            ∙ rw (subs, cell)
                (sym (
                  offered_each-append (message_of d.ack (from_slice d.payload))
                    (messages from_slice yielded) (count i (senders_of l.subscribers queue))
                    (l.inboxes.cell i))),
        subs' ∙ subs,
        ran,
      )
