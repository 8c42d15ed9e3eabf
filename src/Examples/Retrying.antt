-- ===== src/Examples/Retrying.antt =====
-- Runs of the retry loop.
use mom_rpc.Base.{
  inr, ◌^◌, length, arith, ◌∷◌, [], List, some, none, Option, ◌⊎◌, refl, ◌≡◌, ◌≤◌, suc, ℕ,
}
use mom_rpc.Examples.{two_retries}
use mom_rpc.Error.{Result, err, transport_retryable}
use mom_rpc.Domain.{Duration}
use mom_rpc.Floats.{exact, Fraction}
use mom_rpc.Retry.{
  retry_loop, next_delay, RetryConfig, retry_with_backoff, panicked, apply_jitter, retryable,
}
use mom_rpc.Retry.Attempts.{attempts, Agrees, retry_with_backoff-Agrees, retry_exhausted}
use mom_rpc.Retry.Backoff.{retry_panics}

-- An operation that always asks for another attempt, on a count of its runs.
abbrev busy : ℕ → Option (Result ℕ × ℕ)
busy s = some (err (transport_retryable "busy"), suc s)

retry_with_backoff-Agrees_example :
    Agrees (attempts busy 2 0) (retry_with_backoff exact busy (λ _. 0) 3 (some two_retries) 0)
retry_with_backoff-Agrees_example =
    retry_with_backoff-Agrees exact busy (λ _. 0) two_retries (omega arith) 3 0 (omega arith)

abbrev ran : Result ℕ
ran = err (transport_retryable "busy")

-- The sleeps between the three runs: 75 and 112 of the delays 100 and 150.
abbrev two_sleeps : List Duration
two_sleeps = 75 ∷ 112 ∷ []

retry_exhausted_example :
    (length two_sleeps ≤ 2) × ((retryable ran ≡ none) ⊎ (length two_sleeps ≡ 2))
unfolding retry_with_backoff retry_loop apply_jitter next_delay
retry_exhausted_example =
    retry_exhausted exact busy (λ _. 0) two_retries (omega arith) 3 (omega arith) 0 3
      (err (transport_retryable "busy")) two_sleeps refl

-- A second, times 10^20, with a maximal delay of five seconds.
abbrev steep : RetryConfig Fraction
steep = record {
  max_attempts = 1;
  multiplier = record { plus = 10 ^ 20; minus = 0; over = 1 };
  initial_delay = 1_000_000_000;
  max_delay = 5_000_000_000;
}

retry_panics_example : retry_with_backoff exact busy (λ _. 0) 2 (some steep) 0 ≡ panicked
retry_panics_example =
    retry_panics busy (λ _. 0) steep 1 0 1 "busy" (omega arith) refl (omega arith)
      (inr (omega arith, omega arith))
