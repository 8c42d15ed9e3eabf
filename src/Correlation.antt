-- ===== src/Correlation.antt =====
-- src/correlation.rs: the IDs that match responses to requests.
use mom_rpc.Base.{String, ℕ}

pub record CorrelationId : Type 0 where
  pub value : String

-- The UUIDs that are drawn, as texts, come from the crate uuid, by the number of the draw.
abbrev pub generate : (ℕ → String) → ℕ → CorrelationId
generate new_v4 n = record { value = new_v4 n }

abbrev pub as_str : CorrelationId → String
as_str id = id.value

-- From<String>, and From<&str>
abbrev pub from : String → CorrelationId
from value = record { value = value }

-- Display
abbrev pub to_string : CorrelationId → String
to_string id = id.value
