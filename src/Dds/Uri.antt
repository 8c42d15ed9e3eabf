-- ===== src/Dds/Uri.antt =====
-- parse_domain_id of src/transport/dds/dust_dds.rs.
pub mod Domains
use mom_rpc.Base.{some, none, Option, ◌<>◌, String, ℕ}
use mom_rpc.Error.{Result, ok, transport, map_err, ◌>>=◌}
use mom_rpc.TransportBuilder.{ok_or}
use mom_rpc.Base.Texts.{strip_prefix, parse_u16}

unfoldable pub parse_domain_id : Option String → Result ℕ
unfolding strip_prefix parse_u16
parse_domain_id none = ok 0
parse_domain_id (some uri) = do
  domain ←
      ok_or (strip_prefix "dds:" uri)
        (transport ("Invalid DDS URI format '" <> uri <> "', expected 'dds:<domain_id>'"))
  map_err (parse_u16 domain)
      (λ _. transport ("Invalid DDS domain ID '" <> domain <> "', must be a number"))
