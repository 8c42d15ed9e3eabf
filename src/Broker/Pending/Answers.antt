-- ===== src/Broker/Pending/Answers.antt =====
-- Which response completes which request.
use mom_rpc.Base.{
  Bool-cases, if◌then◌else◌, eq_iff, str_eq, arith, ◌∷◌, [], List, some, none, Option, false, Bool,
  inr, inl, ◌≢◌, subst, sym, ◌≡◌, String, ◌<◌, ℕ,
}
use mom_rpc.Base.HashMap.{get, get-insert, get-remove}
use mom_rpc.Domain.{Bytes}
use mom_rpc.Oneshot.{Oneshots, Poll, waiting, ready}
use mom_rpc.Broker.Pending.{
  Pending, Event, arrives, registers, register, respond, on_event, meanwhile, no_requests,
}

-- A registered sender belongs to one correlation ID, and its request still waits.
pub record Inv (k : Oneshots) (p : Pending k.Cell) : Type 0 where
  pub made : (id : String) (i : ℕ) → get p.senders id ≡ some i → i < p.next
  pub single : (a b : String) (i : ℕ) → get p.senders a ≡ some i → get p.senders b ≡ some i → a ≡ b
  pub unanswered : (id : String) (i : ℕ) → get p.senders id ≡ some i → k.poll (p.cells i) ≡ waiting

-- The payload of the first envelope that carries a correlation ID.
abbrev pub carries : Option String → String → Bool
carries none id = false
carries (some j) id = str_eq j id

unfoldable pub answer : String → List Event → Option Bytes
answer id [] = none
answer id (arrives env ∷ es) =
    if carries env.correlation_id id then some env.payload else answer id es
answer id (registers j ∷ es) = answer id es

-- No other request takes the correlation ID.
abbrev pub Unregistered : String → List Event → Type 0
Unregistered id [] = Unit
Unregistered id (arrives env ∷ es) = Unregistered id es
Unregistered id (registers j ∷ es) = (j ≢ id) × Unregistered id es

abbrev pub outcome : Option Bytes → Poll
outcome none = waiting
outcome (some b) = ready b

module _ (k : Oneshots) where
  pub get-register :
      (id : String) (p : Pending k.Cell) (a : String)
      → get (register k id p).senders a ≡ (if str_eq id a then some p.next else get p.senders a)
  unfolding register
  get-register id p a = get-insert p.senders id p.next a

  pub register-Inv : (id : String) (p : Pending k.Cell) → Inv k p → Inv k (register k id p)
  unfolding register
  register-Inv id p v = record {
    made = λ a i h. ground (arith, get-insert p.senders id p.next a, eq_iff id a, v.made a i);
    single = λ a b i h g. ground (
      arith,
      get-insert p.senders id p.next a,
      get-insert p.senders id p.next b,
      eq_iff id a,
      eq_iff id b,
      v.made a i,
      v.made b i,
      v.single a b i,
    );
    unanswered = λ a i h. ground (
      arith,
      get-insert p.senders id p.next a,
      eq_iff id a,
      v.made a i,
      v.made id i,
      v.unanswered a i,
      v.single a id i,
      k.poll-channel,
    );
  }

  pub respond-Inv :
      (o : Option String) (b : Bytes) (p : Pending k.Cell) → Inv k p → Inv k (respond k o b p)
  respond-Inv none b p v = v
  respond-Inv (some id) b p v = record {
    made = λ a i h. ground (arith, get-remove p.senders id a, v.made a i);
    single = λ a c i h g.
        ground (arith, get-remove p.senders id a, get-remove p.senders id c, v.single a c i);
    unanswered = λ a i h.
        ground (arith, get-remove p.senders id a, eq_iff id a, v.unanswered a i, v.single a id i);
  }

  on_event-Inv : (e : Event) (p : Pending k.Cell) → Inv k p → Inv k (on_event k e p)
  unfolding on_event
  on_event-Inv (arrives env) p v = respond-Inv env.correlation_id env.payload p v
  on_event-Inv (registers id) p v = register-Inv id p v

  -- Responses and new requests keep the invariant: a sender in the map was made, belongs to one
  -- correlation ID, and its request has no answer yet.
  pub meanwhile-Inv : (es : List Event) (p : Pending k.Cell) → Inv k p → Inv k (meanwhile k es p)
  unfolding meanwhile
  meanwhile-Inv [] p v = v
  meanwhile-Inv (e ∷ es) p v = meanwhile-Inv es (on_event k e p) (on_event-Inv e p v)

  pub no_requests-Inv : (cells : ℕ → k.Cell) → Inv k (no_requests k cells)
  unfolding no_requests get
  no_requests-Inv cells = record {
    made = λ a i h. ground arith;
    single = λ a b i h g. ground arith;
    unanswered = λ a i h. ground arith;
  }

  -- The request at channel i has its answer, and nothing can send to it any more.
  record Settled (i : ℕ) (b : Bytes) (p : Pending k.Cell) : Type 0 where
    made : i < p.next
    gone : (id : String) → get p.senders id ≢ some i
    answered : k.poll (p.cells i) ≡ ready b

  respond-Settled :
      (i : ℕ) (b : Bytes) (o : Option String) (c : Bytes) (p : Pending k.Cell)
      → Settled i b p
      → Settled i b (respond k o c p)
  respond-Settled i b none c p s = s
  respond-Settled i b (some id) c p s = record {
    made = s.made;
    gone = λ a h. ground (arith, get-remove p.senders id a, s.gone a);
    answered = ground (arith, s.gone id, s.answered);
  }

  register-Settled :
      (i : ℕ) (b : Bytes) (id : String) (p : Pending k.Cell)
      → Settled i b p
      → Settled i b (register k id p)
  unfolding register
  register-Settled i b id p s = record {
    made = ground (arith, s.made);
    gone = λ a h. ground (arith, get-insert p.senders id p.next a, s.gone a, s.made);
    answered = ground (arith, s.gone id, s.answered, s.made);
  }

  meanwhile-Settled :
      (i : ℕ) (b : Bytes) (es : List Event) (p : Pending k.Cell)
      → Settled i b p
      → k.poll ((meanwhile k es p).cells i) ≡ ready b
  unfolding meanwhile on_event
  meanwhile-Settled i b [] p s = s.answered
  meanwhile-Settled i b (arrives env ∷ es) p s =
      meanwhile-Settled i b es _ (respond-Settled i b env.correlation_id env.payload p s)
  meanwhile-Settled i b (registers id ∷ es) p s =
      meanwhile-Settled i b es _ (register-Settled i b id p s)

  respond-Settled_own :
      (id : String) (i : ℕ) (b : Bytes) (p : Pending k.Cell)
      → Inv k p
      → get p.senders id ≡ some i
      → Settled i b (respond k (some id) b p)
  respond-Settled_own id i b p v h = record {
    made = v.made id i h;
    gone = λ a g. ground (arith, get-remove p.senders id a, eq_iff id a, v.single a id i);
    answered = ground (arith, k.poll-send (p.cells i) b, v.unanswered id i);
  }

  respond_answers :
      (id : String) (i : ℕ) (o : Option String) (b : Bytes) (es : List Event) (p : Pending k.Cell)
      → Inv k p
      → get p.senders id ≡ some i
      → ((q : Pending k.Cell)
          → Inv k q
          → get q.senders id ≡ some i
          → k.poll ((meanwhile k es q).cells i) ≡ outcome (answer id es))
      → k.poll ((meanwhile k es (respond k o b p)).cells i)
        ≡ outcome (if carries o id then some b else answer id es)
  respond_answers id i none b es p v h rest = rest p v h
  respond_answers id i (some j) b es p v h rest = elim (Bool-cases (str_eq j id)) [
    | inl e ↦ rw e (
        meanwhile-Settled i b es _ (
          subst (λ a. Settled i b (respond k (some a) b p)) (sym ((eq_iff j id).0 e))
            (respond-Settled_own id i b p v h)))
    | inr e ↦ rw e (rest _ (respond-Inv (some j) b p v) (ground (arith, get-remove p.senders j id)))
  ]

  meanwhile-answer_from :
      (id : String) (i : ℕ) (es : List Event) (p : Pending k.Cell)
      → Inv k p
      → get p.senders id ≡ some i
      → Unregistered id es
      → k.poll ((meanwhile k es p).cells i) ≡ outcome (answer id es)
  unfolding meanwhile on_event answer
  meanwhile-answer_from id i [] p v h u = v.unanswered id i h
  meanwhile-answer_from id i (registers j ∷ es) p v h u =
      meanwhile-answer_from id i es _ (register-Inv j p v)
        (ground (arith, get-register j p id, eq_iff j id, u.0)) u.1
  meanwhile-answer_from id i (arrives env ∷ es) p v h u =
      respond_answers id i env.correlation_id env.payload es p v h
        (λ q w g. meanwhile-answer_from id i es q w g u)

  -- In a map that meets the invariant, a request whose correlation ID no other request takes sees the payload of the first response
  -- that carries the ID, whatever else arrives or is sent before or after it, and sees nothing if
  -- no response carries it.
  pub meanwhile-answer :
      (id : String) (es : List Event) (p : Pending k.Cell)
      → Inv k p
      → Unregistered id es
      → k.poll ((meanwhile k es (register k id p)).cells p.next) ≡ outcome (answer id es)
  meanwhile-answer id es p v u =
      meanwhile-answer_from id p.next es _ (register-Inv id p v)
        (ground (arith, get-register id p id, eq_iff id id)) u
