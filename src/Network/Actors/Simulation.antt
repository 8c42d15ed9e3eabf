-- ===== src/Network/Actors/Simulation.antt =====
-- Such transports as one that may lose, repeat, delay and reorder envelopes.
use mom_rpc.Base.{All, List, some, none, inr, inl, subst, sym, ◌∙◌, ◌≡◌, String, ℕ}
use mom_rpc.Error.{done}
use mom_rpc.Network.Routing.{subscription-topic}
use mom_rpc.Broker.Server.{handle_request}
use mom_rpc.FanOut.{add_subscriber, Local}
use mom_rpc.Network.Lossy.Emits.{old_envelope}
use mom_rpc.Domain.{Subscription, Envelope}
use mom_rpc.Oneshot.{Oneshots}
use mom_rpc.Network.{Node, Role, topic_of, subscription_of, client_task, server_task}
use mom_rpc.Channels.{Channels}
use mom_rpc.Network.Records.{set_at-all}
use mom_rpc.Network.Actors.{
  ActorTransport, Member, Fleet, inboxes_of, listen, take, select, Step, Reach, listens, asks,
  selects, answers, refuses, drops, serves, completes, start, later,
}
use mom_rpc.Network.Actors.Tended.{
  Tended, Tended-map, no_owner-Tended, add_subscriber-Tended, HandsOut-Tended, take-Tended,
}
use mom_rpc.Network.Lossy
use mom_rpc.Network.Lossy.{posts, replies, resolves}
use mathlib.Core.List.{Memᴰ}
use mathlib.Core.Option.{some-injective}

module _ (k : Channels) (t : ActorTransport k) where
  -- What is written encodes an envelope that was published, for its address.
  abbrev Faithful : List Envelope → t.State → Type 0
  Faithful published a =
      (topic : String) (p : t.Payload)
      → t.Written a topic p
      → (e : Envelope) × Memᴰ e published × (topic ≡ e.address.name) × (t.encode e ≡ done p)

  Faithful-map :
      (l l' : List Envelope) (a : t.State)
      → ((e : Envelope) → Memᴰ e l → Memᴰ e l')
      → Faithful l a
      → Faithful l' a
  Faithful-map l l' a more v topic p w =
      let (e, m, to, encoded) = v topic p w in (e, more e m, to, encoded)

  with_local-Faithful :
      (published : List Envelope) (l : Local k.Inbox) (a : t.State)
      → Faithful published a
      → Faithful published (t.with_local l a)
  with_local-Faithful published l a v topic p w = v topic p (t.Written-with_local l a topic p w)

  step-Faithful :
      (published : List Envelope) (i : t.Input) (a : t.State)
      → ((e : Envelope) → t.sends i ≡ some e → Memᴰ e published)
      → Faithful published a
      → Faithful published (t.step i a)
  step-Faithful published i a known v topic p w = elim (t.Written-step i a topic p w) [
    | inl old ↦ v topic p old
    | inr (e, sent, to, encoded) ↦ (e, known e sent, to, encoded)
  ]

  module _ (nodes : ℕ → Node) where
    -- The two together, for a broker of the network.
    abbrev Sound : List Envelope → ℕ → Member t.State → Type 0
    Sound published n m =
        Tended k (nodes n).node_id (λ e. Memᴰ e published) m.owner (t.local m.actor)
        × Faithful published m.actor

    Sound-map :
        (l l' : List Envelope) (n : ℕ) (m : Member t.State)
        → ((e : Envelope) → Memᴰ e l → Memᴰ e l')
        → Sound l n m
        → Sound l' n m
    Sound-map l l' n m more (tended, faithful) = (
      Tended-map k (nodes n).node_id _ _ m.owner (t.local m.actor) more tended,
      Faithful-map l l' m.actor more faithful,
    )

    listen-Sound :
        (published : List Envelope) (n : ℕ) (role : Role) (sub : Subscription) (m : Member t.State)
        → subscription_of role (nodes n).mode (nodes n).node_id ≡ some sub
        → Sound published n m
        → Sound published n (listen k t role sub.name m)
    listen-Sound published n role sub m topic (tended, faithful) =
        let l = t.local m.actor in
        (
          subst (Tended k (nodes n).node_id _ _)
              (sym (t.local-with_local (add_subscriber k sub.name l).1 m.actor))
              (add_subscriber-Tended k (nodes n).node_id _ m.owner role sub.name l
                (subscription-topic nodes role _ _ sub topic) tended),
          with_local-Faithful published _ m.actor faithful,
        )

    select-Sound :
        (published : List Envelope) (n : ℕ) (i : t.Input) (m : Member t.State)
        → ((e : Envelope) → t.sends i ≡ some e → Memᴰ e published)
        → ((topic : String) (p : t.Payload)
            → t.takes i ≡ some (topic, p)
            → (e : Envelope) × Memᴰ e published × (topic ≡ e.address.name) × (t.encode e ≡ done p))
        → Sound published n m
        → Sound published n (select k t i m)
    select-Sound published n i m known wired (tended, faithful) = (
      elim (t.local-step i m.actor tended.map) [
        | inl same ↦ subst (Tended k (nodes n).node_id _ m.owner) (sym same) tended
        | inr (topic, p, e, taken, unique, handed) ↦
            let (x, published_, to, encoded) = wired topic p taken in
            let one = unique x encoded in
            HandsOut-Tended k (nodes n).node_id _ m.owner topic e (t.local m.actor) _
              (subst (λ y. Memᴰ y published) one published_)
              (subst (λ (y : Envelope). y.address.name ≡ topic) one (sym to)) handed tended
      ],
      step-Faithful published i m.actor known faithful,
    )

    take-Sound :
        (published : List Envelope) (n i : ℕ) (role : Role) (e : Envelope) (q : k.Inbox)
        (m : Member t.State)
        → m.owner i ≡ some role
        → k.recv ((inboxes_of k t m).cell i) ≡ some (e, q)
        → Sound published n m
        → (Memᴰ e published × (e.address.name ≡ topic_of role (nodes n).node_id))
          × Sound published n (take k t i q m)
    take-Sound published n i role e q m own got (tended, faithful) =
        let (first, rest) =
          take-Tended k (nodes n).node_id _ m.owner i role e q (t.local m.actor) own got tended in
        (
          first,
          (
            subst (Tended k (nodes n).node_id _ m.owner) (sym (t.local-with_local _ m.actor)) rest,
            with_local-Faithful published _ m.actor faithful,
          ),
        )

module _ (k : Channels) (t : ActorTransport k) (o : Oneshots) (nodes : ℕ → Node)
    (cells : ℕ → o.Cell) where
  -- The transport that may lose envelopes has published those that brokers had for publishing.
  pub record Simulated (s : Fleet t.State o.Cell) : Type 0 where
    pub reached : Lossy.Reach o nodes cells (record { published = s.outgoing; records = s.records })
    pub sound : (n : ℕ) → Sound k t nodes s.outgoing n (s.members n)

  Step-Simulated :
      {s s' : Fleet t.State o.Cell} → Simulated s → Step k t o nodes s s' → Simulated s'
  Step-Simulated {s} v (listens n role sub topic) = record {
    reached = v.reached;
    sound =
        set_at-all (Sound k t nodes s.outgoing) n _ s.members
          (listen-Sound k t nodes s.outgoing n role sub (s.members n) topic (v.sound n)) v.sound;
  }
  Step-Simulated {s} v (asks n target method payload id may fresh) = record {
    reached = Lossy.later v.reached (posts n target method payload id may fresh);
    sound = λ m.
        Sound-map k t nodes s.outgoing _ m (s.members m) (old_envelope s.outgoing (some _))
          (v.sound m);
  }
  Step-Simulated {s} v (selects n i known wired) = record {
    reached = v.reached;
    sound =
        set_at-all (Sound k t nodes s.outgoing) n _ s.members
          (select-Sound k t nodes s.outgoing n i (s.members n) known
            (λ topic p taken. let (m, w) = wired topic p taken in (v.sound m).1 topic p w)
            (v.sound n))
          v.sound;
  }
  Step-Simulated {s} v (answers i id q sent open_ sends_it takes_none known) = record {
    reached = v.reached;
    sound =
        set_at-all (Sound k t nodes s.outgoing) q.caller _ s.members
          (select-Sound k t nodes s.outgoing q.caller i (s.members q.caller)
            (λ e h. subst (λ x. Memᴰ x s.outgoing) (some-injective _ _ (sym sends_it ∙ h)) known)
            (λ topic p taken. absurd (cc (takes_none, taken))) (v.sound q.caller))
          v.sound;
  }
  Step-Simulated v (refuses id q text sent open_) = record { reached = v.reached; sound = v.sound }
  Step-Simulated v (drops id q text sent open_) = record { reached = v.reached; sound = v.sound }
  Step-Simulated {s} v (serves n i e q own got) =
      let resp = handle_request (nodes n).handlers e in
      let ((here, to), rest) =
        take-Sound k t nodes s.outgoing n i server_task e q (s.members n) own got (v.sound n) in
      record {
        reached = Lossy.later v.reached (replies n e here to);
        sound = λ m.
            Sound-map k t nodes s.outgoing _ m _ (old_envelope s.outgoing resp)
              (set_at-all (Sound k t nodes s.outgoing) n _ s.members rest v.sound m);
      }
  Step-Simulated {s} v (completes n i e q own got) =
      let ((here, to), rest) =
        take-Sound k t nodes s.outgoing n i client_task e q (s.members n) own got (v.sound n) in
      record {
        reached = Lossy.later v.reached (resolves n e here to);
        sound = set_at-all (Sound k t nodes s.outgoing) n _ s.members rest v.sound;
      }

  Reach-Simulated : {s : Fleet t.State o.Cell} → Reach k t o nodes cells s → Simulated s
  Reach-Simulated (start actors empty unwritten) = record {
    reached = Lossy.start;
    sound = λ n. (
      no_owner-Tended k (nodes n).node_id _ (λ i. none) (t.local (actors n)) (empty n),
      λ topic p w. absurd (unwritten n topic p w),
    );
  }
  Reach-Simulated (later r step) = Step-Simulated (Reach-Simulated r) step

  -- Brokers over transports each with an actor, whose rounds hand out at most the one envelope that a
  -- message encodes, on the message's topic, and write at most an encoding of the envelope that is to be
  -- published, to its address; in every state that their tasks reach from the start, where each request
  -- takes a correlation ID that no request had: brokers over a transport that may lose, repeat, delay and
  -- reorder envelopes reach the state with the same requests, the same pending maps, and as published
  -- the envelopes that the brokers had for publishing. An envelope in the inbox of a receiving task is
  -- one of these, and is addressed to the task.
  pub actors_refine_any_transport :
      (s : Fleet t.State o.Cell)
      → Reach k t o nodes cells s
      → Lossy.Reach o nodes cells (record { published = s.outgoing; records = s.records })
        × ((n i : ℕ) (role : Role)
            → (s.members n).owner i ≡ some role
            → All
                (λ e. Memᴰ e s.outgoing × (e.address.name ≡ topic_of role (nodes n).node_id))
                (k.queued ((inboxes_of k t (s.members n)).cell i)))
  actors_refine_any_transport s reach =
      let v = Reach-Simulated reach in (v.reached, λ n i role own. (v.sound n).0.queues i role own)
