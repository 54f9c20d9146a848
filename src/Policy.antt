-- ===== src/Policy.antt =====
-- internal/policy: rate limits at three levels, per caller, per caller and tool, and per upstream.
pub mod Limits
pub mod Redis
pub mod Local
mod Tests
