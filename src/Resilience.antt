-- ===== src/Resilience.antt =====
-- internal/resilience: the circuit breaker, the retry policy, and the transport that joins them.
pub mod Breaker
pub mod Retry
pub mod RoundTrip
mod Tests
