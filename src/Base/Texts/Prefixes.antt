-- ===== src/Base/Texts/Prefixes.antt =====
-- What strip_prefix and split_once find.
use mom_rpc.Base.{
  Bool-cases, ==_iff, ◌==◌, arith, some, none, false, true, inr, inl, ◌∙◌, sym, refl, ◌≡◌, ◌<>◌,
  String,
}
use Prim.Native.Char.{Char, code}
use Prim.Native.String.{[], ◌∷◌}
use text.Mathlib.TextLemmas.{nil-append, cons-append}
use text.Mathlib.TextEquality.{Char-path}
use mom_rpc.Base.Texts.{strip_prefix, split_once}
use mathlib.Core.Option.{some-injective}

same_code : (c : Char) → (code c == code c) ≡ true
same_code c = ground arith

pub strip_prefix-append : (p s : String) → strip_prefix p (p <> s) ≡ some s
unfolding strip_prefix
strip_prefix-append [] s = rw (nil-append s) refl
strip_prefix-append (c ∷ p) s = rw (cons-append c p s, same_code c) (strip_prefix-append p s)

pub strip_prefix-eq-some : (p s t : String) → strip_prefix p s ≡ some t → s ≡ p <> t
unfolding strip_prefix
strip_prefix-eq-some [] s t h = some-injective _ _ h ∙ sym (nil-append t)
strip_prefix-eq-some (c ∷ p) [] t h = cc
strip_prefix-eq-some (c ∷ p) (d ∷ s) t h = elim (Bool-cases (code c == code d)) [
  | inl e ↦
      let same = Char-path c d ((==_iff (code c) (code d)).0 e) in
      cc (same, strip_prefix-eq-some p s t (rw e at h), cons-append c p t)
  | inr e ↦ cc (rw e at h)
]

-- The character does not stand in the text.
abbrev pub Without : Char → String → Type 0
Without c [] = Unit
Without c (d ∷ s) = ((code c == code d) ≡ false) × Without c s

pub split_once-append :
    (c : Char) (s t : String) → Without c s → split_once c (s <> (c ∷ t)) ≡ some (s, t)
unfolding split_once
split_once-append c [] t h = rw (nil-append (c ∷ t), same_code c) refl
split_once-append c (d ∷ s) t (e, h) =
    rw (cons-append d s (c ∷ t), e, split_once-append c s t h) refl

pub split_once-Without : (c : Char) (s : String) → Without c s → split_once c s ≡ none
unfolding split_once
split_once-Without c [] h = refl
split_once-Without c (d ∷ s) (e, h) = rw (e, split_once-Without c s h) refl
