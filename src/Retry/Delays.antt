-- ===== src/Retry/Delays.antt =====
-- When the delays that src/retry.rs calculates are Durations, in exact arithmetic.
use native.Mathlib.Nat.{
  mul-le-mul_left, mul-le-mul_right, div-lt_iff_lt-mul, mul-sub, mul-lt-mul_of_pos_left,
}
use native.Mathlib.Decide.{dec_lt}
use mathlib.Core.Option
use mom_rpc.Base.{
  arith, some, none, inr, inl, ◌⊎◌, ap, refl, min, ◌≡◌, ◌<◌, ◌≤◌, ◌%◌, ◌/◌, ◌*◌, ◌-◌, ◌+◌, ℕ,
}
use mom_rpc.Domain.{Duration}
use mom_rpc.Floats.{exact, Fraction, to_duration, duration_limit}
use mom_rpc.Retry.{RetryConfig, apply_jitter, next_delay}

-- What a conversion to a Duration needs, and what it gives.
pub to_duration-nanos :
    (x : Fraction) (d : Duration)
    → to_duration x ≡ some d
    → (x.plus - x.minus) * 1_000_000_000 / x.over ≡ d
to_duration-nanos x d h = ground arith

to_duration-some :
    (x : Fraction)
    → 0 < x.over
    → x.minus ≤ x.plus
    → (x.plus - x.minus) * 1_000_000_000 / x.over < duration_limit
    → to_duration x ≡ some ((x.plus - x.minus) * 1_000_000_000 / x.over)
to_duration-some x o m l = ground arith

-- 75 x / 100 + x / 2 * m / 1000 lies between 3 x / 4 and 5 x / 4.
scaled_bounds :
    (d m j : ℕ)
    → m < 1000
    → d * (75 * 10000 + m * 5 * 100) * 1_000_000_000 / (1_000_000_000 * 1000000) ≡ j
    → (3 * d < 4 * (j + 1)) × (4 * j ≤ 5 * d)
scaled_bounds d m j l e = let p : d * m ≤ d * 999 = mul-le-mul_left d (omega arith) in omega arith

-- The delay after jitter, in seconds.
abbrev pub jitter_of : ℕ → Duration → Fraction
jitter_of hash delay = exact.mul (exact.as_secs_f64 delay) (
    exact.add (exact.literal 75 100) (
      exact.mul (exact.div (exact.of_ℕ (hash % 1000)) (exact.literal 1000 1)) (exact.literal 5 10)))

pub jitter_of_bounds :
    (hash d j : ℕ)
    → ((jitter_of hash d).plus - (jitter_of hash d).minus) * 1_000_000_000 / (jitter_of hash d).over
      ≡ j
    → (3 * d < 4 * (j + 1)) × (4 * j ≤ 5 * d)
jitter_of_bounds hash d j e = scaled_bounds d (hash % 1000) j (omega arith) (omega arith)

-- A delay up to b is not too large for its jitter, and a further one can be calculated from it: the
-- multiplier is not negative, and not so large that its product with b is no Duration.
abbrev pub Convertible : RetryConfig Fraction → Duration → Type 0
Convertible cfg b =
    (5 * b < 4 * duration_limit)
    × (0 < cfg.multiplier.over)
    × (cfg.multiplier.minus ≤ cfg.multiplier.plus)
    × (b * (cfg.multiplier.plus - cfg.multiplier.minus) < duration_limit * cfg.multiplier.over)

pub apply_jitter-some :
    (hash d : ℕ)
    → 5 * d < 4 * duration_limit
    → (j : Duration) × (apply_jitter exact hash d ≡ some j)
unfolding apply_jitter
apply_jitter-some hash d l = (
  _,
  to_duration-some (jitter_of hash d) (omega arith) (omega arith)
      (omega (arith, (jitter_of_bounds hash d _ refl).1)),
)

-- The product of a delay and the multiplier, in seconds.
abbrev product_of : RetryConfig Fraction → Duration → Fraction
product_of cfg d = exact.mul (exact.as_secs_f64 d) cfg.multiplier

product-lt :
    (cfg : RetryConfig Fraction) (d b : Duration)
    → d ≤ b
    → 0 < cfg.multiplier.over
    → b * (cfg.multiplier.plus - cfg.multiplier.minus) < duration_limit * cfg.multiplier.over
    → ((product_of cfg d).plus - (product_of cfg d).minus) * 1_000_000_000 / (product_of cfg d).over
      < duration_limit
product-lt cfg d b l o h =
    let m = cfg.multiplier in
    let small : d * (m.plus - m.minus) ≤ b * (m.plus - m.minus) = mul-le-mul_right _ l in
    (div-lt_iff_lt-mul (omega arith)).1 (omega (arith, mul-sub d m.plus m.minus))

pub next_delay-some :
    (cfg : RetryConfig Fraction) (b d : Duration)
    → Convertible cfg b
    → d ≤ b
    → (n : Duration) × (next_delay exact cfg d ≡ some n)
unfolding next_delay
next_delay-some cfg b d (_, o, sign, h) l =
    let signs : d * cfg.multiplier.minus ≤ d * cfg.multiplier.plus = mul-le-mul_left d sign in
    (
      _,
      ap (Option.map (λ n. min n cfg.max_delay)) (
          to_duration-some (product_of cfg d) (omega arith) (omega arith)
            (product-lt cfg d b l o h)),
    )

to_duration-none :
    (x : Fraction)
    → x.plus < x.minus ⊎ (duration_limit ≤ (x.plus - x.minus) * 1_000_000_000 / x.over)
    → to_duration x ≡ none
to_duration-none x (inl h) = ground arith
to_duration-none x (inr h) = ground arith

-- The multiplier makes no Duration of a delay.
abbrev pub TooLarge : RetryConfig Fraction → Duration → Type 0
TooLarge cfg d =
    (0 < d) × (cfg.multiplier.plus < cfg.multiplier.minus)
    ⊎ (cfg.multiplier.minus ≤ cfg.multiplier.plus)
      × (duration_limit * cfg.multiplier.over ≤ d * (cfg.multiplier.plus - cfg.multiplier.minus))

product-le :
    (cfg : RetryConfig Fraction) (d : Duration)
    → 0 < cfg.multiplier.over
    → duration_limit * cfg.multiplier.over ≤ d * (cfg.multiplier.plus - cfg.multiplier.minus)
    → duration_limit
      ≤ ((product_of cfg d).plus - (product_of cfg d).minus)
        * 1_000_000_000
        / (product_of cfg d).over
product-le cfg d o h =
    let m = cfg.multiplier in
    elim (dec_lt
      (((product_of cfg d).plus - (product_of cfg d).minus)
        * 1_000_000_000
        / (product_of cfg d).over)
      duration_limit) [
        | yes small ↦ absurd (
            omega (
              arith,
              (div-lt_iff_lt-mul {k = (product_of cfg d).over} (omega arith)).0 small,
              mul-sub d m.plus m.minus,
            ))
        | no large ↦ omega arith
      ]

pub next_delay-none :
    (cfg : RetryConfig Fraction) (d : Duration)
    → 0 < cfg.multiplier.over
    → TooLarge cfg d
    → next_delay exact cfg d ≡ none
unfolding next_delay
next_delay-none cfg d o (inl (some_, negative)) =
    let less : d * cfg.multiplier.plus < d * cfg.multiplier.minus =
      mul-lt-mul_of_pos_left negative some_ in
    ap (Option.map (λ n. min n cfg.max_delay))
      (to_duration-none (product_of cfg d) (inl (omega arith)))
next_delay-none cfg d o (inr (sign, large)) =
    ap (Option.map (λ n. min n cfg.max_delay))
      (to_duration-none (product_of cfg d) (inr (product-le cfg d o large)))
