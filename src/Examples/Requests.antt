-- ===== src/Examples/Requests.antt =====
-- Runs of requests.
use mom_rpc.Base.{arith, ◌++◌, ◌∷◌, [], List, some, refl, ◌≡◌, suc, zero, ℕ}
use mathlib.Core.Option
use mom_rpc.Examples.{
  two_retries, log, alpha, uuid, reply, stray, during, network, idle, session, as_is,
}
use mom_rpc.Error.{ok, err, transport}
use mom_rpc.Base.HashMap.{get}
use mom_rpc.Domain.{Envelope, response}
use mom_rpc.Floats.{exact, Fraction}
use mom_rpc.BrokerBuilder.{BrokerParams}
use mom_rpc.Retry.{returned}
use mom_rpc.Oneshot.{Poll, waiting, ready, cells}
use mom_rpc.Broker.Pending.{register, meanwhile, no_requests, registers, arrives}
use mom_rpc.Broker.Pending.Answers.{Inv, Unregistered, meanwhile-answer, no_requests-Inv, answer}
use mom_rpc.Broker.Request.{
  Session, request_envelope, request_to_with_timeout, request_to_inner_with_timeout,
}
use mom_rpc.Broker.Request.Outcome.{attempt_leaks}
use mom_rpc.Broker.Request.Retries.{request-first_answer}
use mom_rpc.Broker.Request.Failures.{failed_publish}

fresh_each : (a : ℕ) → Unregistered (uuid a) (during a 30)
fresh_each zero = tt
fresh_each (suc n) = tt

logged :
    (e : Envelope) (w : List Envelope)
    → (w' : List Envelope) × (alpha.transport.publish e w ≡ some (ok tt, w'))
logged e w = (w ++ e ∷ [], refl)

idle-Inv : Inv cells idle
idle-Inv = no_requests-Inv cells (λ i. waiting)

request-first_answer_example :
    (s' : Session Poll (List Envelope)) × (sleeps : List ℕ) × (request_to_with_timeout cells exact
        (λ _. 0)
        5
        network
        as_is
        as_is
        as_is
        alpha
        "beta"
        "echo"
        (3 ∷ [])
        30
        session
      ≡ returned (ok (7 ∷ [])) s' sleeps)
unfolding answer response
request-first_answer_example =
    request-first_answer cells network alpha two_retries "beta" "echo" 30 refl fresh_each logged
      as_is as_is as_is (λ _. 0) 5 (3 ∷ []) (3 ∷ []) session 150 idle-Inv (omega arith)
      (omega arith) (omega arith) (omega arith) (omega arith) refl

-- While another request goes out.
busy : Unregistered "second" (registers "third" ∷ arrives stray ∷ arrives reply ∷ [])
busy = (λ e. cc, tt)

meanwhile-answer_example :
    cells.poll (
      (meanwhile cells
          (registers "third" ∷ arrives stray ∷ arrives reply ∷ [])
          (register cells "second" idle)).cells
        0)
    ≡ ready (7 ∷ [])
unfolding answer response no_requests
meanwhile-answer_example =
    meanwhile-answer cells "second" (registers "third" ∷ arrives stray ∷ arrives reply ∷ []) idle
      idle-Inv busy

-- The first attempt, which nobody answers, leaves its entry behind.
attempt_leaks_example :
    Option.map
      (λ r. get r.1.pending.senders "first")
      (request_to_inner_with_timeout cells network alpha "beta" "echo" (3 ∷ []) 30 session)
    ≡ some (some 0)
unfolding answer no_requests
attempt_leaks_example =
    attempt_leaks cells network alpha "beta" "echo" (3 ∷ []) 30 session
      (request_envelope "alpha" "beta" "echo" (3 ∷ []) "first" ∷ []) idle-Inv tt refl

-- A broker that retries, over a transport that refuses every publish.
abbrev refusing : BrokerParams (List Envelope) Fraction
refusing = record alpha {
  transport = record log { publish = λ e w. some (err (transport "down"), w) };
}

failed_publish_example :
    (s' : Session Poll (List Envelope)) × (request_to_with_timeout cells exact
        (λ _. 0)
        1
        network
        as_is
        as_is
        as_is
        refusing
        "beta"
        "echo"
        (3 ∷ [])
        30
        session
      ≡ returned (err (transport "down")) s' [])
    × (get s'.pending.senders "first" ≡ some 0)
    × (s'.world ≡ [])
    × (s'.attempt ≡ 1)
unfolding no_requests
failed_publish_example =
    failed_publish cells exact network refusing "beta" "echo" 30 as_is as_is as_is (λ _. 0) 0
      (3 ∷ []) (3 ∷ []) session [] "down" refl refl
