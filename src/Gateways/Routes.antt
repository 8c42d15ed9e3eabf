-- ===== src/Gateways/Routes.antt =====
-- Which transport a URI leads to when no transport type is set.
use mom_rpc.Gateways.{over_mqtt, factories, over_dds, Features, Crates, made, gated}
use mom_rpc.Base.Texts.Numbers.{AllDigits, value}
use mom_rpc.Base.Texts.Prefixes.{Without, strip_prefix-append}
use mom_rpc.TransportBuilder.{TransportBuilder, configure, build, Factories, dispatch}
use mom_rpc.TransportBuilder.Modes.{configure-ModeMatches}
use mom_rpc.Mqtt.Connect.Address.{broker_address_lem, Scheme, mqtt, tcp, scheme_text}
use mom_rpc.Base.Texts.{u16_mod, strip_prefix}
use mom_rpc.Dds.Actor.{DdsActor}
use mom_rpc.Domain.{TransportBase, TransportConfig, base_of_config}
use mom_rpc.Error.{Result, Result-cases, ok, err, is_ok}
use mom_rpc.Base.{
  arith, some, ◌∙◌, sym, ◌<◌, Bool-cases, eq_iff, str_eq, none, false, true, Bool, inr, inl, ap,
  refl, ◌≡◌, ◌<>◌, String, ℕ,
}
use mom_rpc.Mqtt.Connect.{
  MqttOptions, broker_address, create_mqtt_client, create_transport as create_mqtt,
}
use mathlib.Core.Option
use Prim.Native.Char.{Char}
use Prim.Native.String.{◌∷◌}
use text.Mathlib.TextLemmas.{cons-append}
use mom_rpc.Channels.{Channels}
use mom_rpc.Retry.{from_secs}
use mom_rpc.Mqtt.Commands.{create as create_mqtt_actor}
use mom_rpc.Dds.Transport.{create_transport as create_dds}
use mom_rpc.Dds.Uri.{parse_domain_id}

not_dds : (scheme : Scheme) (t : String) → strip_prefix "dds:" (scheme_text scheme <> t) ≡ none
unfolding strip_prefix
not_dds mqtt t = rw (cons-append "m" "qtt://" t) refl
not_dds tcp t = rw (cons-append "t" "cp://" t) refl

nothing_stripped : (scheme : Scheme) → strip_prefix (scheme_text scheme) "" ≡ none
unfolding strip_prefix
nothing_stripped mqtt = refl
nothing_stripped tcp = refl

not_empty : (scheme : Scheme) (t : String) → str_eq (scheme_text scheme <> t) "" ≡ false
not_empty scheme t = elim (Bool-cases (str_eq (scheme_text scheme <> t) "")) [
  | inl e ↦ absurd (
      cc (
        strip_prefix-append (scheme_text scheme) t,
        ap (strip_prefix (scheme_text scheme)) ((eq_iff (scheme_text scheme <> t) "").0 e),
        nothing_stripped scheme,
      ))
  | inr e ↦ e
]

-- The host and the port that a URI names.
abbrev broker_uri : Scheme → String → Char → String → String
broker_uri scheme host ch digits = scheme_text scheme <> (host <> (":" ∷ (ch ∷ digits)))

module _ (k : Channels) (x : Crates k) (features : Features) (c : TransportConfig) where
  dds_refuses :
      (scheme : Scheme) (t : String)
      → c.uri ≡ scheme_text scheme <> t
      → is_ok (create_dds x.dust_dds x.create_participant x.inboxes c) ≡ false
  unfolding create_dds parse_domain_id
  dds_refuses scheme t named =
      rw (named, not_empty scheme t, not_dds scheme t, create_dds, parse_domain_id) refl

  -- Also without the feature.
  dds_factory_fails :
      (b : Bool) (r : Result (TransportBase × DdsActor x.dust_dds k.Inbox))
      → is_ok r ≡ false
      → is_ok (gated k x b "transport_dust_dds" (made k x over_dds r)) ≡ false
  dds_factory_fails true (ok a) fails = cc fails
  dds_factory_fails true (err e) fails = refl
  dds_factory_fails false r fails = refl

  -- The options that an MQTT client is made with.
  abbrev options : String → ℕ → MqttOptions
  options host port = record {
    client_id = c.node_id;
    host = host;
    port = port;
    keep_alive = Option.map from_secs c.keep_alive_secs;
  }

  mqtt_made :
      (host : String) (port : ℕ)
      → str_eq c.uri "" ≡ false
      → broker_address c.uri ≡ ok (host, port)
      → create_mqtt x.rumqttc x.new_client x.inboxes c
        ≡ ok (
          base_of_config c,
          create_mqtt_actor x.rumqttc c.node_id (x.new_client (options host port) 10) x.inboxes,
        )
  unfolding create_mqtt create_mqtt_client
  mqtt_made host port named found = rw (named, found, create_mqtt, create_mqtt_client) refl

  first_ok :
      {T : Type 0} (f : Factories T) (t : T)
      → is_ok (f.create_dust_dds_transport c) ≡ false
      → f.create_rumqttc_transport c ≡ ok t
      → dispatch f none c ≡ ok t
  unfolding dispatch
  first_ok f t refused found = elim (Result-cases (f.create_dust_dds_transport c)) [
    | inl (u, e) ↦ cc (rw e at refused)
    | inr (u, e) ↦ rw (e, found, dispatch) refl
  ]

  dispatched :
      (scheme : Scheme) (host : String) (ch : Char) (digits : String)
      → Without ":" host
      → AllDigits (ch ∷ digits)
      → value 0 (ch ∷ digits) < u16_mod
      → features.transport_rumqttc ≡ true
      → c.uri ≡ broker_uri scheme host ch digits
      → dispatch (factories k x features) none c
        ≡ ok (
            over_mqtt (
              base_of_config c,
              create_mqtt_actor x.rumqttc c.node_id
                  (x.new_client (options host (value 0 (ch ∷ digits))) 10)
                  x.inboxes,
            ))
  unfolding factories
  dispatched scheme host ch digits plain all fits enabled named =
      let (_, address) = broker_address_lem scheme host ch digits plain all in
      let found : broker_address c.uri ≡ ok (host, value 0 (ch ∷ digits)) =
        ground (arith, named, address, fits) in
      let filled : str_eq c.uri "" ≡ false = rw named (not_empty scheme _) in
      first_ok (factories k x features) _
        (dds_factory_fails features.transport_dust_dds _ (dds_refuses scheme _ named))
        (rw (enabled, mqtt_made host (value 0 (ch ∷ digits)) filled found) refl)

module _ (k : Channels) (x : Crates k) (features : Features) where
  -- Without a transport type and with the MQTT feature, whatever the other features: a builder that
  -- passes the validation, and whose URI is mqtt:// or tcp:// with a host without a colon and a port
  -- that fits into 16 bits, builds a transport over MQTT, whose client was made for that host and
  -- port and the node.
  pub build_routes :
      (b : TransportBuilder) (c : TransportConfig) (scheme : Scheme) (host : String) (ch : Char)
      (digits : String)
      → Without ":" host
      → AllDigits (ch ∷ digits)
      → value 0 (ch ∷ digits) < u16_mod
      → features.transport_rumqttc ≡ true
      → b.transport_type ≡ none
      → b.uri ≡ some (broker_uri scheme host ch digits)
      → configure b ≡ ok c
      → build (factories k x features) b
        ≡ ok (
            over_mqtt (
              base_of_config c,
              create_mqtt_actor x.rumqttc c.node_id
                  (x.new_client (options k x features c host (value 0 (ch ∷ digits))) 10)
                  x.inboxes,
            ))
  unfolding build
  build_routes b c scheme host ch digits plain all fits enabled untyped set valid =
      let (_, kept, _) = configure-ModeMatches b c valid in
      let named : c.uri ≡ broker_uri scheme host ch digits =
        Option.some-injective _ _ (sym kept ∙ set) in
      rw (valid, untyped, build)
        (dispatched k x features c scheme host ch digits plain all fits enabled named)
