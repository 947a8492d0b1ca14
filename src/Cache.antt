-- ===== src/Cache.antt =====
-- internal/cache: the response caches of the gateway.
pub mod Memory
pub mod Semantic
