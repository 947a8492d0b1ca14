-- ===== src/Resilience.antt =====
-- internal/resilience: the circuit breaker, the retry loop and the hedged call.
pub mod Breaker
pub mod Retry
pub mod Hedge
