-- ===== src/Base/Texts.antt =====
-- What the crate takes from str: strip_prefix, split_once, and parse::<u16>, with its errors' texts.
pub mod Numbers
pub mod Prefixes
use Prim.Native.Char.{Char, code}
use Prim.Native.String.{[], ◌∷◌}
use mathlib.Core.Option.{Option, none, some}
use mathlib.Core.Bool.{Bool, ◌&&◌}
use Prim.Native.Nat.{ℕ, ◌+◌, ◌-◌, ◌*◌, ◌^◌}
use Prim.Native.String.{String}
use mathlib.Core.Option
use mom_rpc.Base.Tests.{if◌then◌else◌, ltb, leb, ◌==◌}
use mom_rpc.Error.{Attempt, done, failed}

-- s.strip_prefix(p), with p first
unfoldable pub strip_prefix : String → String → Option String
strip_prefix [] s = some s
strip_prefix (c ∷ p) [] = none
strip_prefix (c ∷ p) (d ∷ s) =
    let rest = strip_prefix p s in if code c == code d then rest else none

-- s.split_once(c)
unfoldable pub split_once : Char → String → Option (String × String)
split_once c [] = none
split_once c (d ∷ s) =
    let rest = split_once c s in
    if code c == code d then some ([], s) else Option.map (λ r. (d ∷ r.0, r.1)) rest

abbrev pub u16_mod : ℕ
u16_mod = 2 ^ 16

abbrev pub is_digit : Char → Bool
is_digit c = leb 48 (code c) && leb (code c) 57

-- The digits after the ones that make up `n`, each checked before and after it is added.
unfoldable pub parse_digits : ℕ → String → Attempt ℕ
parse_digits n [] = done n
parse_digits n (c ∷ s) =
    let next = n * 10 + (code c - 48) in
    let rest = parse_digits next s in
    if is_digit c
    then (if ltb next u16_mod then rest else failed "number too large to fit in target type")
    else failed "invalid digit found in string"

-- A sign of plus may stand in front of the digits.
unfoldable pub parse_u16 : String → Attempt ℕ
unfolding parse_digits
parse_u16 [] = failed "cannot parse integer from empty string"
parse_u16 (c ∷ []) = parse_digits 0 (c ∷ [])
parse_u16 (c ∷ (d ∷ s)) =
    if code c == 43 then parse_digits 0 (d ∷ s) else parse_digits 0 (c ∷ (d ∷ s))
