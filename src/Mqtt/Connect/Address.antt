-- ===== src/Mqtt/Connect/Address.antt =====
-- Which host and port the URI of the broker stands for.
use mom_rpc.Base.{Bool-cases, if◌then◌else◌, ltb, none, inr, inl, refl, ◌≡◌, ◌<>◌, String, ℕ}
use Prim.Native.Char.{Char}
use Prim.Native.String.{◌∷◌}
use text.Mathlib.TextLemmas.{cons-append}
use mom_rpc.Error.{RpcError, ◌>>=◌, ok, err, transport, map_err}
use mom_rpc.Base.Texts.{strip_prefix, u16_mod}
use mom_rpc.Base.Texts.Numbers.{AllDigits, value, in_u16, parse_u16_lem}
use mom_rpc.Base.Texts.Prefixes.{
  Without, strip_prefix-append, split_once-append, split_once-Without,
}
use mom_rpc.Mqtt.Connect.{broker_address, without_scheme}

pub data Scheme : Type 0 where
  mqtt tcp : Scheme

abbrev pub scheme_text : Scheme → String
scheme_text mqtt = "mqtt://"
scheme_text tcp = "tcp://"

pub not_mqtt : (t : String) → strip_prefix "mqtt://" ("tcp://" <> t) ≡ none
unfolding strip_prefix
not_mqtt t = rw (cons-append "t" "cp://" t) refl

without_scheme_lem : (scheme : Scheme) (s : String) → without_scheme (scheme_text scheme <> s) ≡ s
unfolding without_scheme
without_scheme_lem mqtt s = rw (strip_prefix-append "mqtt://" s) refl
without_scheme_lem tcp s = rw (not_mqtt s, strip_prefix-append "tcp://" s) refl

port_of :
    (n : ℕ) (f : String → RpcError) (host : String)
    → ◌>>=◌ {U = String × ℕ} (map_err (in_u16 n) f) (λ port. ok (host, port))
      ≡ (if ltb n u16_mod then ok (host, n) else err (f "number too large to fit in target type"))
port_of n f host = elim (Bool-cases (ltb n u16_mod)) [ inl e ↦ rw e refl | inr e ↦ rw e refl ]

-- The address is read from a host without a colon and a text of digits after the scheme as it
-- is written, and digits that stand for more than 65535 are refused; without a colon the port is
-- 1883.
pub broker_address_lem :
    (scheme : Scheme) (host : String) (c : Char) (digits : String)
    → Without ":" host
    → AllDigits (c ∷ digits)
    → (broker_address (scheme_text scheme <> host) ≡ ok (host, 1883))
      × (broker_address (scheme_text scheme <> (host <> (":" ∷ (c ∷ digits)))) ≡ (
          if ltb (value 0 (c ∷ digits)) u16_mod
          then ok (host, value 0 (c ∷ digits))
          else err (
              transport (
                "rumqttc: invalid port in broker URL "
                <> (scheme_text scheme <> (host <> (":" ∷ (c ∷ digits))))
                <> ": "
                <> "number too large to fit in target type"))))
unfolding broker_address
broker_address_lem scheme host c digits plain all = (
  rw (without_scheme_lem scheme host, split_once-Without ":" host plain) refl,
  rw
      (
        without_scheme_lem scheme (host <> (":" ∷ (c ∷ digits))),
        split_once-append ":" host (c ∷ digits) plain,
        parse_u16_lem c digits all,
      )
      (port_of (value 0 (c ∷ digits)) _ host),
)
