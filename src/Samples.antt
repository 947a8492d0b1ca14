-- ===== src/Samples.antt =====
-- Concrete inputs on which the theorems apply, one module per part of the gateway.
pub mod Resilience
pub mod Ratelimit
pub mod Pricing
pub mod Budget
pub mod Router
pub mod Auth
pub mod Dispatch
pub mod Cache
pub mod Redis
pub mod Config
pub mod Http
pub mod Translate
pub mod Health
pub mod Chat
pub mod Embeddings
