-- ===== src/Retry/Backoff.antt =====
-- How long `retry_with_backoff` sleeps, and when it panics, in exact arithmetic.
use native.Mathlib.Nat.{le_trans}
use mom_rpc.Base.{
  Option-cases, Bool-cases, ltb, All, length, arith, List, some, none, Option, false, inr, inl,
  refl, ◌≡◌, ◌<◌, ◌≤◌, String, ◌%◌, ◌*◌, ◌+◌, suc, zero, ℕ,
}
use mom_rpc.Retry.{
  suspended, Retried, returned, panicked, out_of_fuel, slept, back_off, retryable, RetryConfig,
  u32_mod, retry_loop, retry_with_backoff, apply_jitter, next_delay,
}
use mom_rpc.Error.{Result, err, transport_retryable}
use mom_rpc.Domain.{Async, Duration}
use mom_rpc.Retry.Attempts.{Agrees, attempts, retry_with_backoff-Agrees}
use mom_rpc.Floats.{exact, Fraction}
use mom_rpc.Retry.Delays.{
  to_duration-nanos, jitter_of, jitter_of_bounds, Convertible, apply_jitter-some, next_delay-some,
  TooLarge, next_delay-none,
}

pub apply_jitter_bounds :
    (hash delay jittered : ℕ)
    → apply_jitter exact hash delay ≡ some jittered
    → (3 * delay < 4 * (jittered + 1)) × (4 * jittered ≤ 5 * delay)
unfolding apply_jitter
apply_jitter_bounds hash delay jittered h =
    jitter_of_bounds hash delay jittered (to_duration-nanos (jitter_of hash delay) jittered h)

-- The sleeps of a run, each bounded; a run that did not return is no such run.
abbrev pub SleepsWithin : {T S : Type 0} → Duration → Retried T S → Type 0
SleepsWithin b (returned r s sleeps) = All (λ d. 4 * d ≤ 5 * b) sleeps
SleepsWithin b panicked = ⊥
SleepsWithin b suspended = Unit
SleepsWithin b out_of_fuel = Unit

slept-SleepsWithin :
    {T S : Type 0} (b d : Duration) (x : Retried T S)
    → 4 * d ≤ 5 * b
    → SleepsWithin b x
    → SleepsWithin b (slept d x)
slept-SleepsWithin b d (returned r s sleeps) l h = (l, h)
slept-SleepsWithin b d panicked l h = h
slept-SleepsWithin b d suspended l h = tt
slept-SleepsWithin b d out_of_fuel l h = tt

Retried-returned :
    {T S : Type 0} (b : Duration) (o : Option (Result T × S × ℕ)) (r : Result T) (s : S) (n : ℕ)
    (x : Retried T S)
    → o ≡ some (r, s, n)
    → Agrees o x
    → SleepsWithin b x
    → (sleeps : List Duration) × (x ≡ returned r s sleeps)
      × (length sleeps ≡ n)
      × All (λ d. 4 * d ≤ 5 * b) sleeps
Retried-returned b none r s n x e a h = cc
Retried-returned b (some o) r s n (returned q u sleeps) e (same, stays, count) h =
    (sleeps, ground arith, ground arith, h)
Retried-returned b (some o) r s n panicked e a h = elim h [ ]
Retried-returned b (some o) r s n suspended e a h = elim a [ ]
Retried-returned b (some o) r s n out_of_fuel e a h = elim a [ ]

next_delay-le :
    (cfg : RetryConfig Fraction) (d n : Duration)
    → next_delay exact cfg d ≡ some n
    → n ≤ cfg.max_delay
unfolding next_delay
next_delay-le cfg d n h = ground arith

module _ {T S : Type 0} (operation : Async S T) (random : ℕ → ℕ) (cfg : RetryConfig Fraction)
    (b : Duration) (capped : cfg.max_delay ≤ b) (fits : Convertible cfg b) where
  back_off-SleepsWithin :
      (hash : ℕ) (d : Duration) (again : Duration → Retried T S)
      → d ≤ b
      → ((n : Duration) → n ≤ b → SleepsWithin b (again n))
      → SleepsWithin b (back_off (apply_jitter exact hash d) (next_delay exact cfg d) again)
  back_off-SleepsWithin hash d again l h =
      let (j, e) = apply_jitter-some hash d (omega (arith, fits.0)) in
      let (n, e') = next_delay-some cfg b d fits l in
      rw (e, e')
        (slept-SleepsWithin b j _ (omega (arith, (apply_jitter_bounds hash d j e).1))
          (h n (le_trans (next_delay-le cfg d n e') capped)))

  retry_loop-SleepsWithin :
      (fuel attempt : ℕ) (d : Duration) (s : S)
      → d ≤ b
      → SleepsWithin b (retry_loop exact operation random cfg fuel attempt d s)
  unfolding retry_loop
  retry_loop-SleepsWithin zero attempt d s l = tt
  retry_loop-SleepsWithin (suc fuel) attempt d s l = elim (Option-cases (operation s)) [
    | inl o ↦ rw (o, retry_loop) tt
    | inr ((r, s'), o) ↦ elim (Option-cases (retryable r)) [
      | inl e ↦ rw (o, e, retry_loop) tt
      | inr (details, e) ↦ elim (Bool-cases (ltb cfg.max_attempts ((attempt + 1) % u32_mod))) [
        | inl t ↦ rw (o, e, t, retry_loop) tt
        | inr t ↦
            rw (o, e, t, retry_loop)
              (back_off-SleepsWithin _ d _ l (λ n m. retry_loop-SleepsWithin fuel _ n s' m))
      ]
    ]
  ]

  pub retry_returns :
      (fuel : ℕ) (s s' : S) (r : Result T) (n : ℕ)
      → cfg.max_attempts + 1 < u32_mod
      → cfg.max_attempts < fuel
      → cfg.initial_delay ≤ b
      → attempts operation cfg.max_attempts s ≡ some (r, s', n)
      → (sleeps : List Duration) × (retry_with_backoff exact operation random fuel (some cfg) s
          ≡ returned r s' sleeps)
        × (length sleeps ≡ n)
        × All (λ d. 4 * d ≤ 5 * b) sleeps
  unfolding retry_with_backoff
  retry_returns fuel s s' r n no_overflow enough small runs =
      Retried-returned b _ r s' n _ runs
        (retry_with_backoff-Agrees exact operation random cfg no_overflow fuel s enough)
        (retry_loop-SleepsWithin fuel 0 cfg.initial_delay s small)

back_off-panicked :
    {T S : Type 0} (jittered : Option Duration) (again : Duration → Retried T S)
    → back_off jittered none again ≡ panicked
back_off-panicked none again = refl
back_off-panicked (some j) again = refl

-- In exact arithmetic, a retried call with fuel for its first attempt and a max_attempts of at least one
-- panics, if this attempt asks for another one and the product of the initial delay and the multiplier
-- is no Duration, since it is negative, or is 2^64 seconds or more: however small max_delay is.
pub retry_panics :
    {T S : Type 0} (operation : Async S T) (random : ℕ → ℕ) (cfg : RetryConfig Fraction) (fuel : ℕ)
    (s s' : S) (details : String)
    → 0 < cfg.max_attempts
    → operation s ≡ some (err (transport_retryable details), s')
    → 0 < cfg.multiplier.over
    → TooLarge cfg cfg.initial_delay
    → retry_with_backoff exact operation random (suc fuel) (some cfg) s ≡ panicked
unfolding retry_with_backoff retry_loop
retry_panics operation random cfg fuel s s' details many first o large =
    let goes_on : ltb cfg.max_attempts 1 ≡ false = ground arith in
    rw (first, goes_on, next_delay-none cfg cfg.initial_delay o large, retry_loop)
      (back_off-panicked _ _)
