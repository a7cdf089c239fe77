-- ===== src/Provider.antt =====
-- The governance of calls to model providers: provider_governance.go, provider_governor.go and
-- provider_resilience.go.
pub mod Config
pub mod Classify
pub mod Breaker
pub mod Limiter
pub mod Backoff
pub mod Retry
pub mod Governor
