-- ===== src/Http.antt =====
-- The HTTP handlers around the API of the gateway: internal/proxy/middleware.go, in the order in
-- which cmd/gateway/main.go wraps them.
pub mod Recorder
pub mod Middleware
pub mod Front
