-- ===== src/Dds/Copies.antt =====
-- What the readers of one topic hand out between them.
use mom_rpc.Base.{
  eq_iff, All, length, arith, ◌∷◌, [], List, some, Option, ◌≢◌, ◌∙◌, ap, sym, refl, ◌≡◌, String,
  ◌<◌, suc, zero, ℕ,
}
use mom_rpc.FanOut.{add_subscriber, Local, hand_out}
use mom_rpc.Channels.{Inboxes, Channels}
use mathlib.Core.Option
use mom_rpc.FanOut.Reachable.{Reach}
use mom_rpc.Memory.Delivery.{offered}
use mom_rpc.Error.{Result, ok, Attempt, done}
use mom_rpc.Domain.{Bytes, Envelope}
use mom_rpc.Dds.Participant.{Participant, DdsEnvelope, Taken, samples, no_data, take_error}
use mom_rpc.Dds.Reader.{drain_reader, hand_out_samples}
use mom_rpc.Dds.Drains.{Cache, drain_reader_lem}
use mom_rpc.Dds.Actor.{DdsActor, create}
use mom_rpc.Dds.Readers.{subscribe_times, subscribe_times-copies, readers_of, hand_out_times}

-- The caches of a participant's readers: a take from one changes no other.
pub record Caches (p : Participant) : Type 0 where
  pub cache : (reader : p.Reader) → Cache p reader
  pub take_others :
      (reader other : p.Reader) (n : ℕ) (s : p.State)
      → reader ≢ other
      → (cache other).unread (p.take reader n s).1 ≡ (cache other).unread s

-- No reader stands in two tasks.
abbrev pub Apart : {R : Type 0} → R → List (String × R) → Type 0
Apart reader [] = Unit
Apart reader ((topic, other) ∷ tasks) = (reader ≢ other) × Apart reader tasks

abbrev pub Distinct : {R : Type 0} → List (String × R) → Type 0
Distinct [] = Unit
Distinct ((topic, reader) ∷ tasks) = Apart reader tasks × Distinct tasks

state_of :
    {R L S : Type 0} (r r' : R) (l l' : L) (s s' : S)
    → ◌≡◌ {A = Option (R × (L × S))} (some (r, (l, s))) (some (r', (l', s')))
    → s ≡ s'
state_of r r' l l' s s' h = ap (λ q. q.1.1) (Option.some-injective _ _ h)

module _ (k : Channels) (from_slice : Bytes → Attempt Envelope) (p : Participant) where
  -- One drain by each task, one after the other.
  abbrev pub drain_tasks :
      List (String × p.Reader) → ℕ → Local k.Inbox × p.State → Option (Local k.Inbox × p.State)
  drain_tasks [] fuel s = some s
  drain_tasks ((topic, reader) ∷ tasks) fuel s =
      let rest = drain_tasks tasks fuel in
      Option.bind (drain_reader k from_slice topic p reader fuel s) (λ r. rest r.1)

  module _ (caches : Caches p) where
    drain_reader-others :
        (topic : String) (reader other : p.Reader) (fuel : ℕ) (l : Local k.Inbox) (s : p.State)
        (r : Result (Unit {0})) (l' : Local k.Inbox) (s' : p.State)
        → reader ≢ other
        → drain_reader k from_slice topic p reader fuel (l, s) ≡ some (r, (l', s'))
        → (caches.cache other).unread s' ≡ (caches.cache other).unread s
    unfolding drain_reader
    drain_reader-others topic reader other zero l s r l' s' apart h = cc h
    drain_reader-others topic reader other (suc fuel) l s r l' s' apart h =
        go (λ m u. drain_reader-others topic reader other fuel m u r l' s' apart)
          (p.take reader 10 s).0 refl
      where
        go :
            ((m : Local k.Inbox) (u : p.State)
              → drain_reader k from_slice topic p reader fuel (m, u) ≡ some (r, (l', s'))
              → (caches.cache other).unread s' ≡ (caches.cache other).unread u)
            → (taken : Taken) → (p.take reader 10 s).0 ≡ taken
            → (caches.cache other).unread s' ≡ (caches.cache other).unread s
        go ih (samples batch) e =
            ih _ _ (rw (e, drain_reader) at h) ∙ caches.take_others reader other 10 s apart
        go ih no_data e =
            ap (caches.cache other).unread (sym (state_of _ _ _ _ _ _ (rw (e, drain_reader) at h)))
            ∙ caches.take_others reader other 10 s apart
        go ih (take_error text) e =
            ap (caches.cache other).unread (sym (state_of _ _ _ _ _ _ (rw (e, drain_reader) at h)))
            ∙ caches.take_others reader other 10 s apart

    module _ (topic : String) (d : DdsEnvelope) (env : Envelope)
        (decodes : from_slice d.payload ≡ done env) where
      -- The task polls the topic, and its reader has the one sample.
      abbrev pub Holds : p.State → String × p.Reader → Type 0
      Holds s (t, reader) = (t ≡ topic) × ((caches.cache reader).unread s ≡ some d ∷ [])

      handed_out :
          (l : Local k.Inbox)
          → hand_out_samples k from_slice topic (some d ∷ []) l ≡ hand_out k topic env l
      unfolding hand_out_samples
      handed_out l = rw decodes refl

      drain_one :
          (reader : p.Reader) (fuel : ℕ) (l : Local k.Inbox) (s : p.State)
          → 1 < fuel
          → (caches.cache reader).unread s ≡ some d ∷ []
          → (s' : p.State) × (drain_reader k from_slice topic p reader fuel (l, s)
              ≡ some (ok tt, (hand_out k topic env l, s')))
      drain_one reader fuel l s enough held =
          let (s', drained, _) =
            drain_reader_lem k from_slice topic p reader (caches.cache reader) fuel l s
              (omega (arith, enough, ap length held)) in
          (
            s',
            drained
                ∙ ap (λ out. some (ok tt, (out, s')))
                    (ap (λ xs. hand_out_samples k from_slice topic xs l) held ∙ handed_out l),
          )

      still_held :
          (reader : p.Reader) (s s' : p.State) (tasks : List (String × p.Reader))
          → ((other : p.Reader)
              → reader ≢ other
              → (caches.cache other).unread s' ≡ (caches.cache other).unread s)
          → Apart reader tasks
          → All (Holds s) tasks
          → All (Holds s') tasks
      still_held reader s s' [] same apart held = tt
      still_held reader s s' ((t, other) ∷ tasks) same (apart, rest) ((named, held), more) =
          ((named, same other apart ∙ held), still_held reader s s' tasks same rest more)

      drain_tasks-copies :
          (tasks : List (String × p.Reader)) (fuel : ℕ) (l : Local k.Inbox) (s : p.State)
          → 1 < fuel
          → Distinct tasks
          → All (Holds s) tasks
          → (s' : p.State) × (drain_tasks tasks fuel (l, s)
              ≡ some (hand_out_times k (length tasks) topic env l, s'))
      unfolding Option.bind
      drain_tasks-copies [] fuel l s enough distinct held = (s, refl)
      drain_tasks-copies ((t, reader) ∷ tasks) fuel l s enough (apart, distinct)
            ((named, held), more) =
          let (s1, drained) = drain_one reader fuel l s enough held in
          let kept =
            still_held reader s s1 tasks
              (λ other differs.
                drain_reader-others topic reader other fuel l s (ok tt) (hand_out k topic env l) s1
                  differs drained)
              apart more in
          let (s', rest) =
            drain_tasks-copies tasks fuel (hand_out k topic env l) s1 enough distinct kept in
          (s', rw (named, drained, Option.bind) rest)

      readers_of_lem :
          (s : p.State) (tasks : List (String × p.Reader))
          → All (Holds s) tasks
          → length tasks ≡ readers_of topic tasks
      readers_of_lem s [] held = refl
      readers_of_lem s ((t, reader) ∷ tasks) ((named, _), more) =
          ground (arith, readers_of_lem s tasks more, eq_iff t topic, named)

      -- After n subscribes to a topic that an actor granted from its creation on, on readers that are
      -- distinct, and of which a take from one leaves the others' samples: once the one sample that
      -- each of them holds is drained by each task, with fuel for two takes, the message in it was
      -- offered n times to an inbox that is subscribed to the topic once, which is new, whatever
      -- subscriptions and messages the map has seen before.
      pub drain_tasks-subscribe_times :
          (n : ℕ) (transport_id : String) (participant : p.State) (t : Inboxes k.Inbox)
          (b : DdsActor p k.Inbox) (l : Local k.Inbox) (s : p.State) (fuel : ℕ)
          → subscribe_times p n topic (create p transport_id participant t) ≡ some b
          → Reach k (record { subscribers = []; inboxes = t }) l
          → Distinct b.reader_tasks
          → All (Holds s) b.reader_tasks
          → 1 < fuel
          → (l' : Local k.Inbox) × (s' : p.State) × (drain_tasks b.reader_tasks fuel
                ((add_subscriber k topic l).1, s)
              ≡ some (l', s'))
            × (l'.inboxes.cell (add_subscriber k topic l).0 ≡ offered k env n (k.channel 16))
      drain_tasks-subscribe_times n transport_id participant t b l s fuel granted reach distinct
            held enough =
          let (s', drained) =
            drain_tasks-copies b.reader_tasks fuel (add_subscriber k topic l).1 s enough distinct
              held in
          (
            _,
            s',
            drained,
            rw (readers_of_lem s b.reader_tasks held) (
                subscribe_times-copies k p n transport_id topic participant t b l env granted
                  reach),
          )
