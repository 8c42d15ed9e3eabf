-- ===== src/Dds/Readers.antt =====
-- How many readers a topic has, and how often each message comes.
use mom_rpc.Base.{
  Bool-cases, if◌then◌else◌, eq_iff, str_eq, arith, ◌++◌, ◌∷◌, [], List, some, none, Option, false,
  inr, inl, ◌⊎◌, ◌∙◌, ap, sym, refl, ◌≡◌, String, ◌+◌, suc, zero, ℕ,
}
use mom_rpc.FanOut.Reachable.{
  new_subscriber, Inv, Reach, Reach-Inv, no_subscribers-Inv, add_subscriber-Inv, hand_out-Inv,
}
use mom_rpc.Channels.{Inboxes, after_offer, Channels, Offer, accepted, full, closed, count}
use mom_rpc.Error.{Result, ok, err}
use mom_rpc.Domain.{Envelope}
use mom_rpc.FanOut.{Local, hand_out, add_subscriber}
use mom_rpc.FanOut.Delivery.{is_accepted, senders_of, hand_out-evicts}
use mom_rpc.Memory.Delivery.{offered}
use mom_rpc.Dds.Participant.{Participant}
use mom_rpc.Dds.Actor.{create, DdsActor, handle_subscribe, create_reader, new_reader}

-- How many tasks poll a reader of the topic.
abbrev pub readers_of : {R : Type 0} → String → List (String × R) → ℕ
readers_of topic [] = 0
readers_of topic ((t, reader) ∷ tasks) = (if str_eq t topic then 1 else 0) + readers_of topic tasks

readers_of-append :
    {R : Type 0} (topic : String) (tasks more : List (String × R))
    → readers_of topic (tasks ++ more) ≡ readers_of topic tasks + readers_of topic more
readers_of-append topic [] more = omega arith
readers_of-append topic ((t, reader) ∷ tasks) more =
    omega (arith, readers_of-append topic tasks more)

-- One subscribe after the other, each to the topic, as long as they succeed.
abbrev pub subscribe_times :
    (p : Participant) {Q : Type 0} → ℕ → String → DdsActor p Q → Option (DdsActor p Q)
subscribe_times p zero topic a = some a
subscribe_times p (suc n) topic a =
    let rest = subscribe_times p n topic in
    elim (handle_subscribe p topic a).0 [
      | ok _ ↦ rest (handle_subscribe p topic a).1
      | err e ↦ none
    ]

module _ (p : Participant) {Q : Type 0} where
  readers-handle_subscribe :
      (topic other : String) (a : DdsActor p Q)
      → (r : Result p.Reader × p.State) → new_reader p topic a.participant ≡ r
      → (u : Unit {0}) → (handle_subscribe p topic a).0 ≡ ok u
      → readers_of other (handle_subscribe p topic a).1.reader_tasks
        ≡ readers_of other a.reader_tasks + (if str_eq topic other then 1 else 0)
  unfolding handle_subscribe create_reader
  readers-handle_subscribe topic other a (ok reader, s) made u succeeds =
      rw (made, handle_subscribe, create_reader)
        (readers_of-append other a.reader_tasks ((topic, reader) ∷ []) ∙ omega arith)
  readers-handle_subscribe topic other a (err e, s) made u succeeds =
      cc (rw (made, handle_subscribe, create_reader) at succeeds)

  readers-subscribe_times :
      (n : ℕ) (topic other : String) (a b : DdsActor p Q)
      → subscribe_times p n topic a ≡ some b
      → readers_of other b.reader_tasks
        ≡ readers_of other a.reader_tasks + (if str_eq topic other then n else 0)
  readers-subscribe_times zero topic other a b h = ground arith
  readers-subscribe_times (suc n) topic other a b h =
      go (λ c. readers-subscribe_times n topic other c b) (handle_subscribe p topic a).0 refl
    where
      go :
          ((c : DdsActor p Q)
            → subscribe_times p n topic c ≡ some b
            → readers_of other b.reader_tasks
              ≡ readers_of other c.reader_tasks + (if str_eq topic other then n else 0))
          → (r : Result (Unit {0})) → (handle_subscribe p topic a).0 ≡ r
          → readers_of other b.reader_tasks
            ≡ readers_of other a.reader_tasks + (if str_eq topic other then suc n else 0)
      go ih (ok u) e = ground (
        arith,
        ih (handle_subscribe p topic a).1 (rw (e, subscribe_times) at h),
        readers-handle_subscribe topic other a _ refl u e,
      )
      go ih (err x) e = cc (rw (e, subscribe_times) at h)

module _ (k : Channels) where
  -- A message that is handed out n times.
  abbrev pub hand_out_times : ℕ → String → Envelope → Local k.Inbox → Local k.Inbox
  hand_out_times zero topic env l = l
  hand_out_times (suc n) topic env l = hand_out_times n topic env (hand_out k topic env l)

  refused : (o : Offer k.Inbox) (q : k.Inbox) → is_accepted o ≡ false → after_offer q o ≡ q
  refused (accepted q') q h = cc h
  refused full q h = refl
  refused closed q h = refl

  offered-hand_out_times :
      (n : ℕ) (topic : String) (env : Envelope) (l : Local k.Inbox) (i : ℕ)
      → Inv l
      → (count i (senders_of l.subscribers topic) ≡ 1)
        ⊎ ((count i (senders_of l.subscribers topic) ≡ 0)
            × (is_accepted (k.offer (l.inboxes.cell i) env) ≡ false))
      → (hand_out_times n topic env l).inboxes.cell i ≡ offered k env n (l.inboxes.cell i)
  offered-hand_out_times zero topic env l i v h = refl
  offered-hand_out_times (suc n) topic env l i v h =
      let (cell, stays) = hand_out-evicts k topic env l i topic (v.once topic i) in
      let w = hand_out-Inv k topic env l v in
      let o = k.offer (l.inboxes.cell i) env in
      elim h [
        | inl one ↦
            let cell1 : (hand_out k topic env l).inboxes.cell i ≡ after_offer (l.inboxes.cell i) o =
              rw one at cell in
            elim (Bool-cases (is_accepted o)) [
              | inl e ↦
                  offered-hand_out_times n topic env (hand_out k topic env l) i w
                    (inl (ground (arith, stays, one, e, eq_iff topic topic)))
                  ∙ ap (offered k env n) cell1
              | inr e ↦
                  offered-hand_out_times n topic env (hand_out k topic env l) i w (
                    inr (
                      ground (arith, stays, one, e, eq_iff topic topic),
                      ap (λ q. is_accepted (k.offer q env)) (cell1 ∙ refused o _ e) ∙ e,
                    ))
                  ∙ ap (offered k env n) cell1
            ]
        | inr (gone, e) ↦
            let cell0 : (hand_out k topic env l).inboxes.cell i ≡ l.inboxes.cell i =
              rw gone at cell in
            offered-hand_out_times n topic env (hand_out k topic env l) i w (
              inr (
                ground (arith, stays, gone, eq_iff topic topic),
                ap (λ q. is_accepted (k.offer q env)) cell0 ∙ e,
              ))
            ∙ ap (offered k env n) (cell0 ∙ sym (refused o _ e))
      ]

  -- After n subscribes to a topic that an actor granted from its creation on, a message that each
  -- reader task of the topic hands out once is offered n times to an inbox that is subscribed to the
  -- topic once, which is new, whatever subscriptions and messages the map has seen before.
  pub subscribe_times-copies :
      (p : Participant) (n : ℕ) (transport_id topic : String) (participant : p.State)
      (t : Inboxes k.Inbox) (b : DdsActor p k.Inbox) (l : Local k.Inbox) (env : Envelope)
      → subscribe_times p n topic (create p transport_id participant t) ≡ some b
      → Reach k (record { subscribers = []; inboxes = t }) l
      → (hand_out_times
            (readers_of topic b.reader_tasks)
            topic
            env
            (add_subscriber k topic l).1).inboxes.cell
          (add_subscriber k topic l).0
        ≡ offered k env n (k.channel 16)
  unfolding create
  subscribe_times-copies p n transport_id topic participant t b l env granted reach =
      let v = Reach-Inv k (no_subscribers-Inv k t) reach in
      let readers = readers-subscribe_times p n topic topic _ b granted in
      let same : readers_of topic b.reader_tasks ≡ n =
        ground (arith, readers, eq_iff topic topic) in
      let (one, new) = new_subscriber k topic l v in
      rw same (
        offered-hand_out_times n topic env (add_subscriber k topic l).1 (add_subscriber k topic l).0
          (add_subscriber-Inv k topic l v) (inl one)
        ∙ ap (offered k env n) new)
