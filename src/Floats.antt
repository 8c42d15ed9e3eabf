-- ===== src/Floats.antt =====
-- The floating-point operations that src/retry.rs uses, as an interface, and exact signed fractions
-- as an instance of it. A conversion to a Duration that panics is `none`.
use mom_rpc.Base.{
  if◌then◌else◌, ltb, leb, ◌==◌, ◌||◌, some, none, Option, ◌/◌, ◌*◌, ◌-◌, ◌+◌, ◌^◌, ℕ,
}
use mom_rpc.Domain.{Duration}

pub record Floats : Type 1 where
  pub F64 : Type 0
  -- n as f64
  pub of_ℕ : ℕ → F64
  -- The literal m / n.
  pub literal : ℕ → ℕ → F64
  pub add : F64 → F64 → F64
  pub mul : F64 → F64 → F64
  pub div : F64 → F64 → F64
  -- Duration::as_secs_f64, Duration::from_secs_f64
  pub as_secs_f64 : Duration → F64
  pub from_secs_f64 : F64 → Option Duration

-- The fraction (plus - minus) / over.
pub record Fraction : Type 0 where
  pub plus : ℕ
  pub minus : ℕ
  pub over : ℕ

-- Duration::MAX in nanoseconds, and one more: 2^64 seconds.
abbrev pub duration_limit : ℕ
duration_limit = 2 ^ 64 * 1_000_000_000

abbrev pub quotient : Fraction → Fraction → Fraction
quotient x y =
    if leb y.minus y.plus
    then record {
      plus = x.plus * y.over;
      minus = x.minus * y.over;
      over = x.over * (y.plus - y.minus);
    }
    else record {
      plus = x.minus * y.over;
      minus = x.plus * y.over;
      over = x.over * (y.minus - y.plus);
    }

-- A negative number of seconds, one of 2^64 or more, and one that is no number, panic. The others are
-- rounded down to nanoseconds.
abbrev pub to_duration : Fraction → Option Duration
to_duration x =
    let nanos = (x.plus - x.minus) * 1_000_000_000 / x.over in
    if x.over == 0 || ltb x.plus x.minus
    then none
    else (if ltb nanos duration_limit then some nanos else none)

-- Exact arithmetic.
abbrev pub exact : Floats
exact = record {
  F64 = Fraction;
  of_ℕ = λ n. record { plus = n; minus = 0; over = 1 };
  literal = λ m n. record { plus = m; minus = 0; over = n };
  add = λ x y. record {
    plus = x.plus * y.over + y.plus * x.over;
    minus = x.minus * y.over + y.minus * x.over;
    over = x.over * y.over;
  };
  mul = λ x y. record {
    plus = x.plus * y.plus + x.minus * y.minus;
    minus = x.plus * y.minus + x.minus * y.plus;
    over = x.over * y.over;
  };
  div = quotient;
  as_secs_f64 = λ d. record { plus = d; minus = 0; over = 1_000_000_000 };
  from_secs_f64 = to_duration;
}
