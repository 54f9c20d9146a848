-- ===== src/Config.antt =====
-- internal/config/config.go: the gateway's configuration, from the records that the YAML decoder fills
-- to the validated and completed `Config`.
pub mod Raw
pub mod Limits
pub mod Values
pub mod Error
pub mod Validate
pub mod Resilience
pub mod Upstreams
pub mod Sections
pub mod Convert
mod Tests
