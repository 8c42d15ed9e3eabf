-- ===== src/Retry.antt =====
-- src/retry.rs: the retry loop with exponential backoff and jitter. The operation is a function on
-- a state `S`, `none` if it never completes; the hash of the clock that the jitter draws is
-- `random`, at the attempt's number.
-- `attempt` is a u32 and wraps as in a release build.
pub mod Attempts
pub mod Backoff
pub mod Delays
use mathlib.Core.Option
use mom_rpc.Base.{
  ltb, map, ◌∷◌, [], List, some, none, Option, false, true, String, min, ◌^◌, ◌%◌, ◌*◌, ◌+◌, suc,
  zero, ℕ,
}
use mom_rpc.Error.{Result, ok, err, transport_retryable}
use mom_rpc.Domain.{Async, Duration}
use mom_rpc.Floats.{Floats}

-- `F` is the type of the f32 multiplier.
pub record RetryConfig (F : Type 0) : Type 0 where
  pub max_attempts : ℕ
  pub multiplier : F
  pub initial_delay : Duration
  pub max_delay : Duration

-- Duration::from_millis, Duration::from_secs
abbrev pub from_millis : ℕ → Duration
from_millis n = n * 1_000_000

abbrev pub from_secs : ℕ → Duration
from_secs n = n * 1_000_000_000

abbrev pub u32_mod : ℕ
u32_mod = 2 ^ 32

-- RetryConfig::default
unfoldable pub default_config : (f : Floats) → RetryConfig f.F64
default_config f = record {
  max_attempts = 3;
  multiplier = f.literal 2 1;
  initial_delay = from_millis 100;
  max_delay = from_secs 5;
}

-- delay * (0.75 + random(0.0..0.5))
unfoldable pub apply_jitter : (f : Floats) → ℕ → Duration → Option Duration
apply_jitter f hash delay =
    let random_factor = f.div (f.of_ℕ (hash % 1000)) (f.literal 1000 1) in
    let jitter_multiplier = f.add (f.literal 75 100) (f.mul random_factor (f.literal 5 10)) in
    f.from_secs_f64 (f.mul (f.as_secs_f64 delay) jitter_multiplier)

-- The delay after the one at hand.
unfoldable pub next_delay : (f : Floats) → RetryConfig f.F64 → Duration → Option Duration
next_delay f cfg delay =
    Option.map (λ d. min d cfg.max_delay)
      (f.from_secs_f64 (f.mul (f.as_secs_f64 delay) cfg.multiplier))

-- How the loop ends, with the sleeps that it made; `out_of_fuel` is the model's own.
pub data Retried (T S : Type 0) : Type 0 where
  returned : Result T → S → List Duration → Retried T S
  panicked : Retried T S
  suspended : Retried T S
  out_of_fuel : Retried T S

abbrev pub slept : {T S : Type 0} → Duration → Retried T S → Retried T S
slept d (returned r s sleeps) = returned r s (d ∷ sleeps)
slept d panicked = panicked
slept d suspended = suspended
slept d out_of_fuel = out_of_fuel

-- The sleep, the delay after it, and the next round of the loop.
abbrev pub back_off :
    {T S : Type 0} → Option Duration → Option Duration → (Duration → Retried T S) → Retried T S
back_off none next again = panicked
back_off (some jittered) none again = panicked
back_off (some jittered) (some next) again = slept jittered (again next)

-- The details of an error that is worth another attempt.
abbrev pub retryable : {T : Type 0} → Result T → Option String
retryable (ok t) = none
retryable (err (transport_retryable details)) = some details
retryable (err _) = none

module _ (f : Floats) {T S : Type 0} (operation : Async S T) (random : ℕ → ℕ)
    (cfg : RetryConfig f.F64) where
  -- The loop, one call of the operation for each unit of fuel.
  unfoldable pub retry_loop : ℕ → ℕ → Duration → S → Retried T S
  retry_loop zero attempt current_delay s = out_of_fuel
  retry_loop (suc fuel) attempt current_delay s = elim (operation s) [
    | none ↦ suspended
    | some (r, s') ↦ elim (retryable r) [
      | none ↦ returned r s' []
      | some details ↦
          let attempt' = (attempt + 1) % u32_mod in
          elim (ltb cfg.max_attempts attempt') [
            | true ↦ returned (err (transport_retryable details)) s' []
            | false ↦
                back_off (apply_jitter f (random attempt') current_delay)
                  (next_delay f cfg current_delay) (λ next. retry_loop fuel attempt' next s')
          ]
    ]
  ]

-- Without a configuration the operation runs once.
unfoldable pub retry_with_backoff :
    (f : Floats) {T S : Type 0}
    → Async S T
    → (ℕ → ℕ)
    → ℕ
    → Option (RetryConfig f.F64)
    → S
    → Retried T S
retry_with_backoff f operation random fuel none s = elim (operation s) [
  | none ↦ suspended
  | some (r, s') ↦ returned r s' []
]
retry_with_backoff f operation random fuel (some cfg) s =
    retry_loop f operation random cfg fuel 0 cfg.initial_delay s
