-- ===== src/Base/Texts/Numbers.antt =====
-- What parse::<u16> reads.
use mom_rpc.Base.{
  Bool-cases, if◌then◌else◌, ◌==◌, ltb, arith, false, true, inr, inl, refl, ◌≡◌, String, ◌<◌, ◌≤◌,
  ◌*◌, ◌-◌, ◌+◌, ℕ,
}
use Prim.Native.Char.{Char, code}
use Prim.Native.String.{[], ◌∷◌}
use mom_rpc.Base.Texts.{is_digit, parse_digits, parse_u16, u16_mod}
use mom_rpc.Error.{Attempt, done, failed, map_err, RpcError, ok, err}

abbrev pub AllDigits : String → Type 0
AllDigits [] = Unit
AllDigits (c ∷ s) = (is_digit c ≡ true) × AllDigits s

-- The number that digits stand for, after those that make up n.
abbrev pub value : ℕ → String → ℕ
value n [] = n
value n (c ∷ s) = value (n * 10 + (code c - 48)) s

value-ge : (s : String) (n : ℕ) → n ≤ value n s
value-ge [] n = omega arith
value-ge (c ∷ s) n = omega (arith, value-ge s (n * 10 + (code c - 48)))

-- A number, or the error that it is too large.
abbrev pub in_u16 : ℕ → Attempt ℕ
in_u16 n = if ltb n u16_mod then done n else failed "number too large to fit in target type"

parse_digits_lem :
    (s : String) (n : ℕ) → AllDigits s → n < u16_mod → parse_digits n s ≡ in_u16 (value n s)
unfolding parse_digits
parse_digits_lem [] n h l = ground arith
parse_digits_lem (c ∷ s) n (d, h) l = elim (Bool-cases (ltb (n * 10 + (code c - 48)) u16_mod)) [
  | inl e ↦ rw (d, e) (parse_digits_lem s (n * 10 + (code c - 48)) h (ground arith))
  | inr e ↦ rw (d, e) (ground (arith, value-ge s (n * 10 + (code c - 48))))
]

-- A text of digits is read as its number.
pub parse_u16_lem :
    (c : Char) (s : String) → AllDigits (c ∷ s) → parse_u16 (c ∷ s) ≡ in_u16 (value 0 (c ∷ s))
unfolding parse_u16
parse_u16_lem c [] h = parse_digits_lem (c ∷ []) 0 h (omega arith)
parse_u16_lem c (d ∷ s) h =
    let not_plus : (code c == 43) ≡ false = ground (arith, h.0) in
    rw not_plus (parse_digits_lem (c ∷ (d ∷ s)) 0 h (omega arith))

parse_digits-lt : (s : String) (n m : ℕ) → n < u16_mod → parse_digits n s ≡ done m → m < u16_mod
unfolding parse_digits
parse_digits-lt [] n m l e = ground arith
parse_digits-lt (c ∷ s) n m l e = ground (arith, parse_digits-lt s (n * 10 + (code c - 48)) m)

-- What is read fits into 16 bits.
pub parse_u16-lt : (s : String) (n : ℕ) → parse_u16 s ≡ done n → n < u16_mod
unfolding parse_u16
parse_u16-lt [] n e = cc
parse_u16-lt (c ∷ []) n e = parse_digits-lt (c ∷ []) 0 n (omega arith) e
parse_u16-lt (c ∷ (d ∷ s)) n e =
    ground (arith, parse_digits-lt (d ∷ s) 0 n, parse_digits-lt (c ∷ (d ∷ s)) 0 n)

pub map_err-in_u16 :
    (n : ℕ) (f : String → RpcError)
    → map_err (in_u16 n) f
      ≡ (if ltb n u16_mod then ok n else err (f "number too large to fit in target type"))
map_err-in_u16 n f = elim (Bool-cases (ltb n u16_mod)) [ inl e ↦ rw e refl | inr e ↦ rw e refl ]
