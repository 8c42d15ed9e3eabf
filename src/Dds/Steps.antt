-- ===== src/Dds/Steps.antt =====
-- Calls that change a state and may fail, one after the other: `?` on such calls.
use mom_rpc.Base.{String}
use mom_rpc.Error.{RpcError, Result, ok, err, Attempt, map_err}

abbrev pub Step : Type 0 → Type 0 → Type 0
Step S A = S → Result A × S

module _ {S A B : Type 0} where
  abbrev pub proceed : (A → Step S B) → Result A × S → Result B × S
  proceed rest (ok a, s) = rest a s
  proceed rest (err e, s) = (err e, s)

  infixl 5 ◌>>=◌
  abbrev pub ◌>>=◌ : Step S A → (A → Step S B) → Step S B
  (first >>= rest) s = proceed rest (first s)

module _ {S A : Type 0} where
  abbrev pub returns : Result A → Step S A
  returns r s = (r, s)

  -- map_err on a call of the participant.
  abbrev pub calls : (S → Attempt A × S) → (String → RpcError) → Step S A
  calls call f s = let r = call s in (map_err r.0 f, r.1)
