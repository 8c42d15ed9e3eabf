-- ===== src/BrokerBuilder/Defaults.antt =====
-- What a built broker is configured with.
use mom_rpc.Base.{some, none, refl, ℕ, ◌≡◌}
use mom_rpc.Domain.{Duration, Transport}
use mom_rpc.Floats.{Floats}
use mom_rpc.Retry.{default_config}
use mom_rpc.BrokerBuilder.{
  new, retry_max_attempts, retry_multiplier, retry_initial_delay, retry_max_delay, build,
}

-- A broker whose builder set no retry parameter does not retry, and one parameter that is set is
-- the only departure from RetryConfig::default.
pub retry_parameters :
    {W : Type 0} (f : Floats) (t : Transport W) (n : ℕ) (m : f.F64) (d : Duration)
    → ((build f (new t)).retry_config ≡ none)
      × ((build f (retry_max_attempts (new t) n)).retry_config
          ≡ some (record (default_config f) { max_attempts = n }))
      × ((build f (retry_multiplier (new t) m)).retry_config
          ≡ some (record (default_config f) { multiplier = m }))
      × ((build f (retry_initial_delay (new t) d)).retry_config
          ≡ some (record (default_config f) { initial_delay = d }))
      × ((build f (retry_max_delay (new t) d)).retry_config
          ≡ some (record (default_config f) { max_delay = d }))
unfolding build default_config new retry_max_attempts retry_multiplier retry_initial_delay
    retry_max_delay
retry_parameters f t n m d = (refl, refl, refl, refl, refl)
