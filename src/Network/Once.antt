-- ===== src/Network/Once.antt =====
-- How often a request is on its way to an inbox, and how often it was taken from it.
use mom_rpc.Base.{
  is_some, Bool-cases, ==_iff, if◌then◌else◌, ◌==◌, eq_iff, str_eq, arith, ◌++◌, ◌∷◌, [], List,
  some, none, Option, inr, inl, subst, ap, refl, ◌≡◌, String, ◌≤◌, ◌+◌, ℕ,
}
use mom_rpc.Network.Loads.{
  asking, asks_for, asked_in, sent_to, asked_in-append, sent_to-append, asked_in-emit,
  asks_for-request,
}
use mom_rpc.Network.{
  Network, Node, Listener, Step, Reach, take, listens, asks, begins, sends, skips, serves,
  completes, closes, start, later,
}
use mom_rpc.Network.Invariant.{Sound, Reach-Sound}
use mom_rpc.Network.Routing.{subscribed}
use mom_rpc.Network.Traffic.{kept_inboxes}
use mom_rpc.Network.Records.Asks.{get-insert_same, get-insert_apart}
use mom_rpc.Broker.Request.{request_envelope}
use mom_rpc.Broker.Server.{handle_request}
use mom_rpc.Channels.{Channels, Inboxes, accepted, count, copies-le-total, total}
use mom_rpc.Memory.{new, MemoryHub, subscribe, inbox_capacity}
use mom_rpc.Error.{ok}
use mom_rpc.Network.Records.{Sent}
use mom_rpc.Memory.Sends.{targets, count-targets}
use mom_rpc.Oneshot.{Oneshots}
use mom_rpc.Domain.{Subscription, Envelope}
use mom_rpc.Base.HashMap.{HashMap, get, insert}

module _ (k : Channels) (o : Oneshots) (nodes : ℕ → Node) where
  -- How often the request with an ID is on its way to an inbox, or in it.
  abbrev pub load : Network k.Inbox o.Cell → ℕ → String → ℕ
  load s i id =
      asked_in id s.outgoing
      + sent_to i id s.sending
      + asked_in id (k.queued (s.hub.inboxes.cell i))

  -- How often a step takes it from the inbox, for a server task.
  abbrev pub serves_at : {s s' : Network k.Inbox o.Cell} → Step k o nodes s s' → ℕ → String → ℕ
  serves_at (serves i n e q own got) j id = if i == j then asks_for id e else 0
  serves_at (listens n role sub i h topic e) j id = 0
  serves_at (asks n target method payload i may fresh) j id = 0
  serves_at (begins before after e outgoing) j id = 0
  serves_at (sends before after i rest e q chosen sent) j id = 0
  serves_at (skips before after i rest e chosen shut) j id = 0
  serves_at (completes i n e q own got) j id = 0
  serves_at (closes r h e) j id = 0

  abbrev pub times_served :
      {t : Inboxes k.Inbox} {cells : ℕ → o.Cell} {s : Network k.Inbox o.Cell}
      → Reach k o nodes t cells s
      → ℕ
      → String
      → ℕ
  times_served start j id = 0
  times_served (later r step) j id = serves_at step j id + times_served r j id

  abbrev made_once : Network k.Inbox o.Cell → String → ℕ
  made_once s id = if is_some (get s.records.sent id) then 1 else 0

  received_load :
      (i j : ℕ) (id : String) (e : Envelope) (q : k.Inbox) (h : MemoryHub k.Inbox)
      → k.recv (h.inboxes.cell i) ≡ some (e, q)
      → asked_in id (k.queued ((take i q h).inboxes.cell j)) + (if i == j then asks_for id e else 0)
        ≡ asked_in id (k.queued (h.inboxes.cell j))
  received_load i j id e q h got = elim (Bool-cases (i == j)) [
    | inl g ↦
        let queue =
          subst (λ m. k.queued (h.inboxes.cell m) ≡ e ∷ k.queued q) ((==_iff i j).0 g)
            (k.queued-recv (h.inboxes.cell i) e q got) in
        rw g (omega (arith, ap (asked_in id) queue))
    | inr g ↦ rw g (omega arith)
  ]

  sent_load :
      (i j : ℕ) (id : String) (e : Envelope) (q : k.Inbox) (h : MemoryHub k.Inbox)
      → k.offer (h.inboxes.cell i) e ≡ accepted q
      → asked_in id (k.queued ((take i q h).inboxes.cell j))
        ≡ asked_in id (k.queued (h.inboxes.cell j)) + (if i == j then asks_for id e else 0)
  sent_load i j id e q h sent = elim (Bool-cases (i == j)) [
    | inl g ↦
        let queue =
          subst (λ m. k.queued q ≡ k.queued (h.inboxes.cell m) ++ e ∷ []) ((==_iff i j).0 g)
            (k.queued-offer (h.inboxes.cell i) e q sent) in
        rw (g, queue) (omega (arith, asked_in-append id (k.queued (h.inboxes.cell j)) (e ∷ [])))
    | inr g ↦ rw g (omega arith)
  ]

  -- The next send of a publish, or its omission.
  next_load :
      (sending before after : List (List ℕ × Envelope)) (i j : ℕ) (rest : List ℕ) (e : Envelope)
      (id : String)
      → sending ≡ before ++ (i ∷ rest, e) ∷ after
      → sent_to j id (before ++ (rest, e) ∷ after) + (if i == j then asks_for id e else 0)
        ≡ sent_to j id sending
  next_load sending before after i j rest e id chosen = ground (
    arith,
    ap (sent_to j id) chosen,
    sent_to-append j id before ((i ∷ rest, e) ∷ after),
    sent_to-append j id before ((rest, e) ∷ after),
  )

  begun_load :
      (outgoing before after : List Envelope) (e : Envelope) (id : String) (h : MemoryHub k.Inbox)
      (j : ℕ)
      → outgoing ≡ before ++ e ∷ after
      → total h.subscriptions j ≤ 1
      → asked_in id (before ++ after)
          + (if asking id e then count j (targets h.subscriptions e.address.name) else 0)
        ≤ asked_in id outgoing
  begun_load outgoing before after e id h j chosen once = ground (
    arith,
    ap (asked_in id) chosen,
    asked_in-append id before (e ∷ after),
    asked_in-append id before after,
    count-targets h.subscriptions e.address.name j,
    copies-le-total h.subscriptions e.address.name j,
  )

  new_load :
      (owner : ℕ → Option Listener) (sub : Subscription) (i j : ℕ) (id : String)
      (h h' : MemoryHub k.Inbox)
      → subscribe k sub h ≡ some (ok i, h')
      → asked_in id (k.queued (h'.inboxes.cell j)) ≤ asked_in id (k.queued (h.inboxes.cell j))
  new_load owner sub i j id h h' e =
      let (_, _, cells, _) = subscribed nodes k owner sub i h h' e in
      elim (Bool-cases (h.inboxes.next == j)) [
        | inl g ↦ rw (cells j, g, k.queued-channel inbox_capacity) (omega arith)
        | inr g ↦ rw (cells j, g) (omega arith)
      ]

  -- A request that is made is the first with its ID.
  made_load :
      (sent : HashMap Sent) (i id : String) (q : Sent)
      → get sent i ≡ none
      → (if is_some (get sent id) then 1 else 0) + (if str_eq i id then 1 else 0)
        ≤ (if is_some (get (insert sent i q) id) then 1 else 0)
  made_load sent i id q fresh = elim (Bool-cases (str_eq i id)) [
    | inl g ↦
        let same = (eq_iff i id).0 g in
        let first : get sent id ≡ none = subst (λ x. get sent x ≡ none) same fresh in
        let now : get (insert sent i q) id ≡ some q =
          subst (λ x. get (insert sent i q) x ≡ some q) same (get-insert_same sent i q) in
        rw (g, first, now) (omega arith)
    | inr g ↦
        rw (g, get-insert_apart sent i id q (λ same. ground (arith, eq_iff i id))) (omega arith)
  ]

  Step-load :
      {s s' : Network k.Inbox o.Cell}
      → Sound k o nodes s
      → (step : Step k o nodes s s') (j : ℕ) (id : String) (n : ℕ)
      → n + load s j id ≤ made_once s id
      → serves_at step j id + n + load s' j id ≤ made_once s' id
  Step-load {s} v (listens m role sub i h topic e) j id n l =
      omega (arith, new_load s.owner sub i j id s.hub h e)
  Step-load {s} v (asks m target method payload i may fresh) j id n l = omega (
    arith,
    asked_in-append id s.outgoing (request_envelope (nodes m).node_id target method payload i ∷ []),
    asks_for-request (nodes m).node_id target method payload i id,
    made_load s.records.sent i id _ fresh,
  )
  Step-load {s} v (begins before after e outgoing) j id n l =
      omega (arith, begun_load s.outgoing before after e id s.hub j outgoing (v.routed.hub.once j))
  Step-load {s} v (sends before after i rest e q chosen sent) j id n l = omega (
    arith,
    next_load s.sending before after i j rest e id chosen,
    sent_load i j id e q s.hub sent,
  )
  Step-load {s} v (skips before after i rest e chosen shut) j id n l =
      omega (arith, next_load s.sending before after i j rest e id chosen)
  Step-load {s} v (serves i m e q own got) j id n l = omega (
    arith,
    received_load i j id e q s.hub got,
    asked_in-emit (nodes m).handlers e id s.outgoing (handle_request (nodes m).handlers e) refl,
  )
  Step-load {s} v (completes i m e q own got) j id n l =
      omega (arith, received_load i j id e q s.hub got)
  Step-load {s} v (closes r h e) j id n l = omega (
    arith,
    ap (λ (t : Inboxes k.Inbox). asked_in id (k.queued (t.cell j)))
        (kept_inboxes nodes k (λ e. Unit {0}) s.owner s.outgoing r s.hub h e),
  )

  served_load :
      {t : Inboxes k.Inbox} {cells : ℕ → o.Cell} {s : Network k.Inbox o.Cell}
      (run : Reach k o nodes t cells s) (j : ℕ) (id : String)
      → k.queued (t.cell j) ≡ []
      → times_served run j id + load s j id ≤ made_once s id
  unfolding new
  served_load start j id empty = rw empty (omega arith)
  served_load (later r step) j id empty =
      Step-load (Reach-Sound k o nodes r) step j id (times_served r j id) (served_load r j id empty)

  -- Brokers on one in-memory bus, in every run of their tasks from the start, where each request takes a
  -- correlation ID that no request had: a server task takes a request with a given ID from its inbox at most once,
  -- if the inbox holds nothing at the start.
  pub served_once :
      (t : Inboxes k.Inbox) (cells : ℕ → o.Cell) (s : Network k.Inbox o.Cell)
      (run : Reach k o nodes t cells s) (j : ℕ) (id : String)
      → k.queued (t.cell j) ≡ []
      → times_served run j id ≤ 1
  served_once t cells s run j id empty = ground (arith, served_load run j id empty)
