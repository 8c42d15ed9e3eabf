-- ===== src/Retry/Attempts.antt =====
-- How often the operation of `retry_with_backoff` runs, and what becomes of its results.
use mom_rpc.Retry.{
  suspended, back_off, Retried, returned, panicked, out_of_fuel, slept, retryable, RetryConfig,
  u32_mod, retry_loop, retry_with_backoff,
}
use native.Mathlib.Nat.{mod-eq_of_lt}
use mom_rpc.Base.{
  Option-cases, ltb, length, arith, List, some, none, Option, false, true, inr, inl, ◌⊎◌, subst, ap,
  sym, refl, ◌≡◌, String, ◌<◌, ◌≤◌, ◌%◌, ◌+◌, suc, zero, ℕ,
}
use mom_rpc.Error.{Result, err, transport_retryable}
use mom_rpc.Domain.{Async, Duration}
use mathlib.Core.Option
use mom_rpc.Floats.{Floats}

-- Run an operation until its result is not worth another attempt, with at most n more attempts
-- after the first; the result, the state, and the number of those further attempts, or `none` if
-- one of the runs never completes.
unfoldable pub attempts : {T S : Type 0} → Async S T → ℕ → S → Option (Result T × S × ℕ)
attempts operation zero s = Option.map (λ p. (p.0, p.1, 0)) (operation s)
attempts operation (suc n) s = elim (operation s) [
  | none ↦ none
  | some (r, s') ↦ elim (retryable r) [
    | none ↦ some (r, s', 0)
    | some _ ↦ Option.map (λ p. (p.0, p.1, suc p.2)) (attempts operation n s')
  ]
]

-- The loop ended with this result and state after this many sleeps, or it panicked.
abbrev pub Agrees : {T S : Type 0} → Option (Result T × S × ℕ) → Retried T S → Type 0
Agrees (some (q, u, k)) (returned r s sleeps) = (r ≡ q) × (s ≡ u) × (length sleeps ≡ k)
Agrees none (returned r s sleeps) = ⊥
Agrees (some _) suspended = ⊥
Agrees none suspended = Unit
Agrees _ panicked = Unit
Agrees _ out_of_fuel = ⊥

retryable-eq-some :
    {T : Type 0} (r : Result T) (details : String)
    → retryable r ≡ some details
    → r ≡ err (transport_retryable details)
retryable-eq-some r details h = ground arith

abbrev one_more : {T S : Type 0} → Option (Result T × S × ℕ) → Option (Result T × S × ℕ)
one_more = Option.map (λ p. (p.0, p.1, suc p.2))

slept-Agrees :
    {T S : Type 0} (d : Duration) (o : Option (Result T × S × ℕ)) (x : Retried T S)
    → Agrees o x
    → Agrees (one_more o) (slept d x)
slept-Agrees d (some o) (returned r s sleeps) (a, b, c) = (a, b, ap suc c)
slept-Agrees d (some o) panicked h = tt
slept-Agrees d (some o) suspended h = elim h [ ]
slept-Agrees d (some o) out_of_fuel h = elim h [ ]
slept-Agrees d none (returned r s sleeps) h = elim h [ ]
slept-Agrees d none panicked h = tt
slept-Agrees d none suspended h = tt
slept-Agrees d none out_of_fuel h = elim h [ ]

back_off-Agrees :
    {T S : Type 0} (o : Option (Result T × S × ℕ)) (jittered next : Option Duration)
    (again : Duration → Retried T S)
    → ((d : Duration) → Agrees o (again d))
    → Agrees (one_more o) (back_off jittered next again)
back_off-Agrees (some o) none next again h = tt
back_off-Agrees none none next again h = tt
back_off-Agrees (some o) (some j) none again h = tt
back_off-Agrees none (some j) none again h = tt
back_off-Agrees o (some j) (some d) again h = slept-Agrees j o (again d) (h d)

module _ (f : Floats) {T S : Type 0} (operation : Async S T) (random : ℕ → ℕ)
    (cfg : RetryConfig f.F64) (no_overflow : cfg.max_attempts + 1 < u32_mod) where
  retry_loop-Agrees :
      (left fuel attempt : ℕ) (d : Duration) (s : S)
      → attempt + left ≡ cfg.max_attempts
      → left < fuel
      → Agrees (attempts operation left s) (retry_loop f operation random cfg fuel attempt d s)
  unfolding retry_loop attempts
  retry_loop-Agrees left zero attempt d s h l = absurd (omega arith)
  retry_loop-Agrees zero (suc fuel) attempt d s h l = elim (Option-cases (operation s)) [
    | inl o ↦ rw (o, retry_loop) tt
    | inr ((r, s'), o) ↦ elim (Option-cases (retryable r)) [
      | inl e ↦ rw (o, e, retry_loop) (refl, refl, refl)
      | inr (details, e) ↦
          rw (o, e, last, retry_loop) (sym (retryable-eq-some _ details e), refl, refl)
    ]
  ]
    where
      last : ltb cfg.max_attempts ((attempt + 1) % u32_mod) ≡ true
      last = ground (arith, mod-eq_of_lt {n = attempt + 1} {m = u32_mod})
  retry_loop-Agrees (suc left) (suc fuel) attempt d s h l = elim (Option-cases (operation s)) [
    | inl o ↦ rw (o, retry_loop, attempts) tt
    | inr ((r, s'), o) ↦ elim (Option-cases (retryable r)) [
      | inl e ↦ rw (o, e, retry_loop, attempts) (refl, refl, refl)
      | inr (details, e) ↦
          rw (o, e, more, retry_loop, attempts)
            (back_off-Agrees _ _ _ _
              (λ next. retry_loop-Agrees left fuel _ next s' count (omega arith)))
    ]
  ]
    where
      more : ltb cfg.max_attempts ((attempt + 1) % u32_mod) ≡ false
      more = ground (arith, mod-eq_of_lt {n = attempt + 1} {m = u32_mod})

      count : (attempt + 1) % u32_mod + left ≡ cfg.max_attempts
      count = omega (arith, mod-eq_of_lt {n = attempt + 1} {m = u32_mod})

  -- With fuel for max_attempts + 1 calls, and a max_attempts at which the u32 counter does not wrap,
  -- the loop never runs out: it panics in a conversion of a delay, or it ends as `attempts` does,
  -- with one sleep for each further attempt.
  pub retry_with_backoff-Agrees :
      (fuel : ℕ) (s : S)
      → cfg.max_attempts < fuel
      → Agrees
          (attempts operation cfg.max_attempts s)
          (retry_with_backoff f operation random fuel (some cfg) s)
  unfolding retry_with_backoff
  retry_with_backoff-Agrees fuel s l =
      retry_loop-Agrees cfg.max_attempts fuel 0 cfg.initial_delay s (omega arith) l

Agrees-returned :
    {T S : Type 0} (o : Option (Result T × S × ℕ)) (r : Result T) (s : S) (sleeps : List Duration)
    → Agrees o (returned r s sleeps)
    → o ≡ some (r, s, length sleeps)
Agrees-returned (some (q, u, k)) r s sleeps (same, stays, count) = ground arith
Agrees-returned none r s sleeps h = elim h [ ]

attempts_count :
    {T S : Type 0} (operation : Async S T) (n : ℕ) (s u : S) (r : Result T) (k : ℕ)
    → attempts operation n s ≡ some (r, u, k)
    → (k ≤ n) × ((details : String) → r ≡ err (transport_retryable details) → k ≡ n)
unfolding attempts
attempts_count operation zero s u r k h =
    let (p, o, e) = (Option.map-eq-some_iff _ _).0 h in (ground arith, λ d x. ground arith)
attempts_count operation (suc n) s u r k h = elim (Option-cases (operation s)) [
  | inl o ↦ cc (rw (o, attempts) at h)
  | inr ((q, v), o) ↦ elim (Option-cases (retryable q)) [
    | inl e ↦ let h' = rw (o, e, attempts) at h in (ground arith, λ d x. ground arith)
    | inr (d, e) ↦
        let (p, again, eq) = (Option.map-eq-some_iff _ _).0 (rw (o, e, attempts) at h) in
        let (le, exhausted) = attempts_count operation n v p.1 p.0 p.2 again in
        (ground arith, λ details x. ground (arith, exhausted details))
  ]
]

module _ (f : Floats) {T S : Type 0} (operation : Async S T) (random : ℕ → ℕ)
    (cfg : RetryConfig f.F64) (no_overflow : cfg.max_attempts + 1 < u32_mod) (fuel : ℕ)
    (enough : cfg.max_attempts < fuel) (s s' : S) (r : Result T) (sleeps : List Duration)
    (run : retry_with_backoff f operation random fuel (some cfg) s ≡ returned r s' sleeps) where
  agreed : Agrees (attempts operation cfg.max_attempts s) (returned r s' sleeps)
  agreed =
      subst (Agrees (attempts operation cfg.max_attempts s)) run
        (retry_with_backoff-Agrees f operation random cfg no_overflow fuel s enough)

  -- With enough fuel and a counter that does not wrap, a retried call that returns has slept at most max_attempts times, and exactly max_attempts times
  -- unless its result is one that is not worth another attempt.
  pub retry_exhausted :
      (length sleeps ≤ cfg.max_attempts)
      × ((retryable r ≡ none) ⊎ (length sleeps ≡ cfg.max_attempts))
  retry_exhausted =
      let (le, exhausted) =
        attempts_count operation cfg.max_attempts s s' r (length sleeps)
          (Agrees-returned _ r s' sleeps agreed) in
      (
        le,
        elim (Option-cases (retryable r)) [
          | inl e ↦ inl e
          | inr (details, e) ↦ inr (exhausted details (retryable-eq-some r details e))
        ],
      )
