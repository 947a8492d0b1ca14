-- ===== src/Ratelimit.antt =====
-- internal/ratelimit: the token buckets, the limiter over them, and the per-tenant overrides.
pub mod Bucket
pub mod Limiter
pub mod Override
pub mod Redis
pub mod Backend
