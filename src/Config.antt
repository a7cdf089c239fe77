-- ===== src/Config.antt =====
-- config.go and the configurations that it checks: defaults, normalization and `Validate`.
pub mod Governance
pub mod Bridges
pub mod Options
pub mod Checks
pub mod Usable
