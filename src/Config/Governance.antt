-- ===== src/Config/Governance.antt =====
-- provider_governance.go on the numbers of a caller, which may be negative. A rate is a number of
-- millionths of a request per second. Once the numbers are checked, they are the limits that
-- Provider/Config has.
use go_rag_agent.Base.{
  Bool, false, ℕ, ◌*◌, ◌≡◌, ◌&&◌, ◌||◌, ltb, ◌==◌, if◌then◌else◌, ℤ, pos, negsuc, is_neg, to_nat,
}
use go_rag_agent.Provider.Config.{RateLimitConfig, BreakerConfig, GovernanceConfig, millisecond}

pub record RawRateLimit : Type 0 where
  pub requests_per_second : ℤ
  pub burst : ℤ

pub record RawBreaker : Type 0 where
  pub failure_threshold : ℤ
  pub open_timeout : ℤ
  pub half_open_max_calls : ℤ

pub record RawGovernance : Type 0 where
  pub retry_max_attempts : ℤ
  pub retry_base_delay : ℤ
  pub retry_max_delay : ℤ
  pub rate_limit : RawRateLimit
  pub circuit_breaker : RawBreaker

-- `n > 0`
abbrev pub positive : ℤ → Bool
positive n = ltb 0 (to_nat n)

-- `n == 0`
abbrev pub is_zero : ℤ → Bool
is_zero (pos n) = n == 0
is_zero (negsuc n) = false

-- `if n == 0 { n = fallback }`
abbrev pub or_int : ℤ → ℕ → ℤ
or_int n fallback = if is_zero n then pos fallback else n

unfoldable pub raw_rate_limit_normalized : RawRateLimit → RawRateLimit
raw_rate_limit_normalized c =
    if positive c.requests_per_second && is_zero c.burst then record c { burst = pos 1 } else c

unfoldable pub raw_rate_limit_enabled : RawRateLimit → Bool
raw_rate_limit_enabled c = positive c.requests_per_second

unfoldable pub raw_breaker_enabled : RawBreaker → Bool
raw_breaker_enabled c =
    positive c.failure_threshold || positive c.open_timeout || positive c.half_open_max_calls

unfoldable pub raw_breaker_normalized : RawBreaker → RawBreaker
unfolding raw_breaker_enabled
raw_breaker_normalized c =
    if raw_breaker_enabled c && is_zero c.half_open_max_calls
    then record c { half_open_max_calls = pos 1 }
    else c

unfoldable pub raw_governance_normalized : RawGovernance → RawGovernance
unfolding raw_rate_limit_normalized raw_breaker_normalized
raw_governance_normalized c = record {
  retry_max_attempts = or_int c.retry_max_attempts 2;
  retry_base_delay = or_int c.retry_base_delay (200 * millisecond);
  retry_max_delay = or_int c.retry_max_delay (2000 * millisecond);
  rate_limit = raw_rate_limit_normalized c.rate_limit;
  circuit_breaker = raw_breaker_normalized c.circuit_breaker;
}

abbrev pub rate_limit_of : RawRateLimit → RateLimitConfig
rate_limit_of c = record {
  rate_num = to_nat c.requests_per_second;
  rate_den = 1000000;
  burst = to_nat c.burst;
}

abbrev pub breaker_of : RawBreaker → BreakerConfig
breaker_of c = record {
  failure_threshold = to_nat c.failure_threshold;
  open_timeout = to_nat c.open_timeout;
  half_open_max_calls = to_nat c.half_open_max_calls;
}

-- the limits that the numbers are
abbrev pub governance_of : RawGovernance → GovernanceConfig
governance_of c = record {
  retry_max_attempts = to_nat c.retry_max_attempts;
  retry_base_delay = to_nat c.retry_base_delay;
  retry_max_delay = to_nat c.retry_max_delay;
  rate_limit = rate_limit_of c.rate_limit;
  circuit_breaker = breaker_of c.circuit_breaker;
}

-- no number of it is negative
pub record IsNatural (c : RawGovernance) : Type 0 where
  pub attempts : is_neg c.retry_max_attempts ≡ false
  pub base_delay : is_neg c.retry_base_delay ≡ false
  pub max_delay : is_neg c.retry_max_delay ≡ false
  pub rate : is_neg c.rate_limit.requests_per_second ≡ false
  pub tokens : is_neg c.rate_limit.burst ≡ false
  pub threshold : is_neg c.circuit_breaker.failure_threshold ≡ false
  pub timeout : is_neg c.circuit_breaker.open_timeout ≡ false
  pub probes : is_neg c.circuit_breaker.half_open_max_calls ≡ false
