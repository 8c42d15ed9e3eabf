-- ===== src/Base/Lists.antt =====
-- Lists measured by native numbers, and predicates over a list.
use Prim.Native.Nat.{ℕ, suc, ◌+◌}
use mathlib.Core.Path.{◌≡◌}
use mathlib.Core.List.{List, [], ◌∷◌, ◌++◌}
use native.Mathlib.Omega.{arith}

module _ {ℓ} {A : Type ℓ} where
  abbrev pub length : List A → ℕ
  length [] = 0
  length (x ∷ xs) = suc (length xs)

  pub length-append : (xs ys : List A) → length (xs ++ ys) ≡ length xs + length ys
  length-append [] ys = omega arith
  length-append (x ∷ xs) ys = omega (arith, length-append xs ys)

  abbrev pub All {κ} : (A → Type κ) → List A → Type κ
  All P [] = Unit
  All P (x ∷ xs) = P x × All P xs

  module _ {κ} (P : A → Type κ) where
    pub All-append : (xs ys : List A) → All P xs → All P ys → All P (xs ++ ys)
    All-append [] ys p q = q
    All-append (x ∷ xs) ys (p, ps) q = (p, All-append xs ys ps q)

    -- What holds of all holds of one, and of the rest.
    pub All-take_out :
        (xs : List A) (x : A) (ys : List A) → All P (xs ++ x ∷ ys) → P x × All P (xs ++ ys)
    All-take_out [] x ys (p, ps) = (p, ps)
    All-take_out (y ∷ xs) x ys (p, ps) = let (q, rest) = All-take_out xs x ys ps in (q, (p, rest))

    -- The element is replaced by one of which it holds too.
    pub All-replace :
        (xs : List A) (x y : A) (ys : List A)
        → All P (xs ++ x ∷ ys)
        → (P x → P y)
        → All P (xs ++ y ∷ ys)
    All-replace [] x y ys (p, ps) f = (f p, ps)
    All-replace (z ∷ xs) x y ys (p, ps) f = (p, All-replace xs x y ys ps f)

  pub All-map {κ} : (P Q : A → Type κ) (xs : List A) → ((x : A) → P x → Q x) → All P xs → All Q xs
  All-map P Q [] f p = tt
  All-map P Q (x ∷ xs) f (p, ps) = (f x p, All-map P Q xs f ps)
