-- ===== src/Provider/Config.antt =====
-- provider_governance.go: the limits that govern the calls of one provider, and their defaults.
-- A rate is a fraction `rate_num / rate_den` of requests per second; durations are nanoseconds.
-- config.go rejects negative values before any of these records reaches a governor.
use go_rag_agent.Base.{ℕ, ◌*◌, Bool, ◌&&◌, ◌||◌, ltb, ◌==◌, if◌then◌else◌}

pub record RateLimitConfig : Type 0 where
  pub rate_num : ℕ
  pub rate_den : ℕ
  pub burst : ℕ

pub record BreakerConfig : Type 0 where
  pub failure_threshold : ℕ
  pub open_timeout : ℕ
  pub half_open_max_calls : ℕ

pub record GovernanceConfig : Type 0 where
  pub retry_max_attempts : ℕ
  pub retry_base_delay : ℕ
  pub retry_max_delay : ℕ
  pub rate_limit : RateLimitConfig
  pub circuit_breaker : BreakerConfig

unfoldable pub rate_limit_enabled : RateLimitConfig → Bool
rate_limit_enabled c = ltb 0 c.rate_num

unfoldable pub rate_limit_normalized : RateLimitConfig → RateLimitConfig
rate_limit_normalized c = if ltb 0 c.rate_num && c.burst == 0 then record c { burst = 1 } else c

unfoldable pub breaker_enabled : BreakerConfig → Bool
breaker_enabled c = ltb 0 c.failure_threshold || ltb 0 c.open_timeout || ltb 0 c.half_open_max_calls

unfoldable pub breaker_normalized : BreakerConfig → BreakerConfig
unfolding breaker_enabled
breaker_normalized c =
    if breaker_enabled c && c.half_open_max_calls == 0
    then record c { half_open_max_calls = 1 }
    else c

abbrev pub millisecond : ℕ
millisecond = 1000000

abbrev or_default : ℕ → ℕ → ℕ
or_default n default = if n == 0 then default else n

unfoldable pub governance_normalized : GovernanceConfig → GovernanceConfig
unfolding rate_limit_normalized breaker_normalized
governance_normalized c = record {
  retry_max_attempts = or_default c.retry_max_attempts 2;
  retry_base_delay = or_default c.retry_base_delay (200 * millisecond);
  retry_max_delay = or_default c.retry_max_delay (2000 * millisecond);
  rate_limit = rate_limit_normalized c.rate_limit;
  circuit_breaker = breaker_normalized c.circuit_breaker;
}
