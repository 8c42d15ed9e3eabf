-- ===== src/Examples/Codec.antt =====
-- An encoding of two envelopes, a request and its response, in one letter or one byte.
use mom_rpc.Base.{
  Bool-cases, if◌then◌else◌, ◌==◌, eq_iff, str_eq, arith, ◌++◌, ◌∷◌, [], List, some, none, Option,
  ◌&&◌, false, true, Bool, inr, inl, ◌⊎◌, ap, sym, refl, ◌≡◌, String,
}
use mathlib.Core.Option.{some-injective}
use mathlib.Core.List.{Memᴰ}
use mathlib.Core.List.Memᴰ
use mom_rpc.Error.{failed, done, Attempt}
use mom_rpc.Domain.{request, Envelope, Bytes, Address, response}
use mom_rpc.Broker.Request.{request_envelope}

abbrev pub same_text : Option String → Option String → Bool
same_text none none = true
same_text none (some b) = false
same_text (some a) none = false
same_text (some a) (some b) = str_eq a b

same_text_sound : (a b : Option String) → same_text a b ≡ true → a ≡ b
same_text_sound none none h = refl
same_text_sound none (some b) h = cc
same_text_sound (some a) none h = cc
same_text_sound (some a) (some b) h = ap some ((eq_iff a b).0 h)

abbrev pub same_bytes : Bytes → Bytes → Bool
same_bytes [] [] = true
same_bytes [] (y ∷ ys) = false
same_bytes (x ∷ xs) [] = false
same_bytes (x ∷ xs) (y ∷ ys) = (x == y) && same_bytes xs ys

same_bytes_sound : (a b : Bytes) → same_bytes a b ≡ true → a ≡ b
same_bytes_sound [] [] h = refl
same_bytes_sound [] (y ∷ ys) h = cc
same_bytes_sound (x ∷ xs) [] h = cc
same_bytes_sound (x ∷ xs) (y ∷ ys) h = ground (arith, same_bytes_sound xs ys)

abbrev pub name_of : Option Address → Option String
name_of none = none
name_of (some a) = some a.name

name_of-injective : (a b : Option Address) → name_of a ≡ name_of b → a ≡ b
name_of-injective none none h = refl
name_of-injective none (some b) h = cc
name_of-injective (some a) none h = cc
name_of-injective (some a) (some b) h = ap (λ x. some (record { name = x })) (some-injective _ _ h)

abbrev pub same : Envelope → Envelope → Bool
same a b =
    str_eq a.address.name b.address.name
    && same_text a.method b.method
    && same_bytes a.payload b.payload
    && same_text a.correlation_id b.correlation_id
    && same_text (name_of a.reply_to) (name_of b.reply_to)
    && same_text a.content_type b.content_type

both : (x y : Bool) → (x && y) ≡ true → (x ≡ true) × (y ≡ true)
both true true h = (refl, refl)
both true false h = cc
both false y h = cc

pub same_sound : (a b : Envelope) → same a b ≡ true → a ≡ b
same_sound a b h =
    let (h1, content_type) = both _ _ h in
    let (h2, reply_to) = both _ _ h1 in
    let (h3, correlation_id) = both _ _ h2 in
    let (h4, payload) = both _ _ h3 in
    let (address, method) = both _ _ h4 in
    let same_name = (eq_iff a.address.name b.address.name).0 address in
    let same_method = same_text_sound a.method b.method method in
    let same_payload = same_bytes_sound a.payload b.payload payload in
    let same_id = same_text_sound a.correlation_id b.correlation_id correlation_id in
    let same_reply_to =
      name_of-injective a.reply_to b.reply_to
        (same_text_sound (name_of a.reply_to) (name_of b.reply_to) reply_to) in
    let same_type = same_text_sound a.content_type b.content_type content_type in cc

abbrev pub asked : Envelope
unfolding request_envelope request
asked = request_envelope "alpha" "beta" "echo" (3 ∷ []) "only"

abbrev pub answered : Envelope
unfolding response
answered = response (record { name = "responses/alpha" }) (1 ∷ 3 ∷ []) "only" "application/json"

module _ {P : Type 0} (q a : P) where
  -- Other envelopes cannot be encoded.
  abbrev pub encode : Envelope → Attempt P
  encode e = if same e asked then done q else if same e answered then done a else failed "other"

abbrev pub from_str : String → Attempt Envelope
from_str s = if str_eq s "q" then done asked else done answered

abbrev pub to_string : Envelope → Attempt String
to_string e = encode "q" "a" e

pub decodes : (e : Envelope) (s : String) → to_string e ≡ done s → from_str s ≡ done e
decodes e s h = elim (Bool-cases (same e asked)) [
  | inl y ↦ let one = same_sound e asked y in cc (rw y at h)
  | inr n ↦ elim (Bool-cases (same e answered)) [
    | inl y ↦ let one = same_sound e answered y in cc (rw (n, y) at h)
    | inr m ↦ cc (rw (n, m) at h)
  ]
]

abbrev pub from_slice : Bytes → Attempt Envelope
from_slice b = if same_bytes b (0 ∷ []) then done asked else done answered

abbrev pub to_vec : Envelope → Attempt Bytes
to_vec e = encode (0 ∷ []) (1 ∷ []) e

pub decodes_bytes : (e : Envelope) (b : Bytes) → to_vec e ≡ done b → from_slice b ≡ done e
decodes_bytes e b h = elim (Bool-cases (same e asked)) [
  | inl y ↦ let one = same_sound e asked y in cc (rw y at h)
  | inr n ↦ elim (Bool-cases (same e answered)) [
    | inl y ↦ let one = same_sound e answered y in cc (rw (n, y) at h)
    | inr m ↦ cc (rw (n, m) at h)
  ]
]

-- What a log holds, and what one more entry adds.
abbrev pub Logs : (P : Type 0) → List (String × P) → String → P → Type 0
Logs P s topic p = Memᴰ (topic, p) s

pub append-Logs :
    {P : Type 0} (topic : String) (payload : P) (s : List (String × P)) (t : String) (p : P)
    → Logs P (s ++ (topic, payload) ∷ []) t p
    → Logs P s t p ⊎ ((t ≡ topic) × (p ≡ payload))
append-Logs topic payload s t p w = elim (Memᴰ.append_cases s w) [
  | inl old ↦ inl old
  | inr new ↦ let one = Memᴰ.eq_of_singleton new in inr (ap (λ x. x.0) one, ap (λ x. x.1) one)
]

-- An entry of a log.
pub entry : {A : Type 0} {x y : A} (l r : List A) → some x ≡ some y → Memᴰ y (l ++ x ∷ r)
entry l r h = Memᴰ.append_right l (Memᴰ.head (sym (some-injective _ _ h)))

pub no_entry : {A : Type 0} {x : A} → ¬ none ≡ some x
no_entry h = cc
