-- ===== src/Dds/Uri/Domains.antt =====
-- Which domain a URI stands for.
use mom_rpc.Base.{
  Option-cases, if◌then◌else◌, ltb, arith, some, inr, inl, ◌≡◌, ◌<>◌, String, ◌<◌, ℕ,
}
use Prim.Native.Char.{Char}
use Prim.Native.String.{◌∷◌}
use mom_rpc.Error.{RpcError, ok, err, transport, Attempt, done, map_err}
use mom_rpc.Base.Texts.{strip_prefix, parse_u16, u16_mod}
use mom_rpc.Base.Texts.Numbers.{AllDigits, value, parse_u16_lem, parse_u16-lt, map_err-in_u16}
use mom_rpc.Base.Texts.Prefixes.{strip_prefix-append, strip_prefix-eq-some}
use mom_rpc.Dds.Uri.{parse_domain_id}

-- A URI that is "dds:" and a text of digits is the domain of that number if it fits into 16 bits, and
-- is refused if not.
pub parse_domain_id_lem :
    (c : Char) (digits : String)
    → AllDigits (c ∷ digits)
    → parse_domain_id (some ("dds:" <> (c ∷ digits))) ≡ (
        if ltb (value 0 (c ∷ digits)) u16_mod
        then ok (value 0 (c ∷ digits))
        else err (transport ("Invalid DDS domain ID '" <> (c ∷ digits) <> "', must be a number")))
unfolding parse_domain_id
parse_domain_id_lem c digits all =
    rw (strip_prefix-append "dds:" (c ∷ digits), parse_u16_lem c digits all)
      (map_err-in_u16 (value 0 (c ∷ digits)) _)

map_err-eq-ok : (a : Attempt ℕ) (f : String → RpcError) (n : ℕ) → map_err a f ≡ ok n → a ≡ done n
map_err-eq-ok a f n h = ground arith

-- A URI that is accepted begins with "dds:", what follows is read as the domain, and the domain fits
-- into 16 bits.
pub parse_domain_id-lt :
    (uri : String) (domain : ℕ)
    → parse_domain_id (some uri) ≡ ok domain
    → (digits : String) × (uri ≡ "dds:" <> digits)
      × (parse_u16 digits ≡ done domain)
      × (domain < u16_mod)
unfolding parse_domain_id
parse_domain_id-lt uri domain h = elim (Option-cases (strip_prefix "dds:" uri)) [
  | inl e ↦ cc (rw e at h)
  | inr (digits, e) ↦
      let read = map_err-eq-ok (parse_u16 digits) _ domain (rw e at h) in
      (digits, strip_prefix-eq-some "dds:" uri digits e, read, parse_u16-lt digits domain read)
]
