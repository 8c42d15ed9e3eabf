-- ===== src/Error.antt =====
-- src/error.rs: the error type, and the crate's `Result`.
use mom_rpc.Base.{inr, inl, ◌⊎◌, refl, ◌≡◌, false, true, Bool, String}

-- `serialization` carries the text of serde_json's error.
pub data RpcError : Type 0 where
  timeout : RpcError
  connection_lost : RpcError
  serialization : String → RpcError
  transport : String → RpcError
  transport_retryable : String → RpcError
  handler_not_found : String → RpcError
  invalid_response : RpcError
  invalid_request : RpcError
  missing_response_topic : RpcError
  invalid_mode : String → RpcError
  missing_config : String → RpcError
  config_conflict : String → RpcError

pub data Result {ℓ} (A : Type ℓ) : Type ℓ where
  ok : A → Result A
  err : RpcError → Result A

-- What a call of another crate returns: a value, or an error with its text.
pub data Attempt {ℓ} (A : Type ℓ) : Type ℓ where
  done : A → Attempt A
  failed : String → Attempt A

-- map_err on such a call.
abbrev pub map_err {ℓ} : {A : Type ℓ} → Attempt A → (String → RpcError) → Result A
map_err (done a) f = ok a
map_err (failed e) f = err (f e)

module _ {ℓ} {A : Type ℓ} where
  abbrev pub is_ok : Result A → Bool
  is_ok (ok a) = true
  is_ok (err e) = false

  pub Result-cases : (r : Result A) → ((a : A) × (r ≡ ok a)) ⊎ ((e : RpcError) × (r ≡ err e))
  Result-cases (ok a) = inl (a, refl)
  Result-cases (err e) = inr (e, refl)

-- The `?` operator, and its form for calls whose value is not used.
module _ {ℓ κ} {T : Type ℓ} {U : Type κ} where
  infixl 5 ◌>>=◌
  abbrev pub ◌>>=◌ : Result T → (T → Result U) → Result U
  err e >>= rest = err e
  ok t >>= rest = rest t

  -- Inversion of a `?` that did not return early.
  pub >>=-eq-ok :
      (r : Result T) (rest : T → Result U) {u : U}
      → (r >>= rest) ≡ ok u
      → (t : T) × (r ≡ ok t) × (rest t ≡ ok u)
  >>=-eq-ok (err e) rest h = cc
  >>=-eq-ok (ok t) rest h = (t, refl, h)

infixl 5 ◌>>◌
abbrev pub ◌>>◌ {ℓ} : {U : Type ℓ} → Result (Unit {0}) → Result U → Result U
first >> rest = first >>= λ _. rest
