-- ===== src/Lib.antt =====
-- The LLM API gateway: an HTTP server that takes chat and embedding requests in the OpenAI format,
-- authenticates them, limits their rate and their monthly cost, and dispatches them to one of
-- several providers, with retries, circuit breakers, hedged calls and fallbacks.
--
-- Which file models which part of the repository:
--   Prelude      shared names: tests, integers, lists, dictionaries (Go maps), the choice loop.
--   Resilience   internal/resilience: Breaker (circuit.go, `Breaker.Allow` and the other methods),
--                Retry (retry.go, `Do`), Hedge (hedge.go, `DoHedge`).
--   Redisstore   internal/redisstore/store.go: the client that may be exchanged while it is in use.
--   Ratelimit    internal/ratelimit: Bucket and Limiter (token_bucket.go), Override (override.go), Redis
--                (redis.go, the script and the fallback to the local limiter), Backend (the interface
--                of both).
--   Pricing      internal/pricing/catalog.go: the catalog and its estimates.
--   Budget       internal/budget/budget.go: Account (the map in memory), Script (the Lua scripts),
--                Manager (`Manager` and `Reservation`); Refine states the account that both backends
--                implement, Ledger the histories of reservations.
--   Router       internal/proxy/router.go: the registry, `Resolve` and `RemapForFallback`;
--                Route is the description of the routing that `Resolve` is compared with.
--   Auth         internal/auth: the key store (store.go) and the handler around it (middleware.go).
--   Cache        internal/cache: Memory (memory.go, the LRU), Semantic (semantic.go, the vector index).
--   Dispatch     internal/proxy/handler.go: `dispatch`, `dispatchHedge`, `openStream`, over the
--                registry of Router, the breakers of Resilience.Breaker and the race of Hedge.
--   Chat         internal/proxy/handler.go: Serve is `Handler.ServeHTTP` over the state of the limiter,
--                caches, budget and breakers; Stream the events of a stream; Upstream connects it with
--                Dispatch; Charge and Reach state what a request costs, and which are never served.
--   Embeddings   internal/proxy/embeddings.go: `dispatch` of embedding requests, Serve for the handler.
--   Provider     internal/provider/provider.go: the errors of providers, as the handlers read them.
--   Types        internal/types/types.go: requests and responses.
--   Translate    internal/translate: Anthropic (anthropic.go) and Gemini (gemini.go).
--   Http         internal/proxy/middleware.go: Recorder, Middleware, and Front, the order of the
--                handlers in cmd/gateway/main.go.
--   Health       internal/proxy/health.go: liveness, readiness and its cache, provider checks.
--   Config       internal/config/config.go: Defaults, Checks and Validate are what `Load` does after
--                the file is decoded.
--   Samples      concrete inputs on which the theorems apply.
-- A request passes the handlers of Http, with Auth and Ratelimit (with the limits of Override), to
-- Chat: it looks in Cache, reserves a part of Budget priced by Pricing, and asks Dispatch, which asks
-- Router for providers and Resilience for permission. Chat then commits or cancels the reservation.
--
-- State is passed explicitly: a method that mutates a struct returns the new record. A mutex makes a
-- method one step. The clock, random draws, hashes, regular expressions, the answers of providers and
-- of Redis, and encoding/json are arguments; what is relied on of Redis is stated by the laws of
-- `Budget.Script.Commands` and `Ratelimit.Redis.Commands`.
-- Floats (tokens of a bucket, USD) are exact numbers of a small unit; their rounding is not modelled.
-- Go's `int` is an unbounded integer, but for the product of the retry delay, where the 64 bits are
-- written out. The retry loop recurs on the attempts that are left, all other loops on a list: there
-- is no fuel.
--
-- Not modelled: the hashes that are the keys of the caches, the HTTP clients of
-- the providers and the parsing of their streams, the admin server, reading and watching the
-- configuration file, logging, metrics and tracing.
pub mod Prelude
pub mod Resilience
pub mod Ratelimit
pub mod Pricing
pub mod Budget
pub mod Router
pub mod Auth
pub mod Dispatch
pub mod Cache
pub mod Redisstore
pub mod Config
pub mod Http
pub mod Types
pub mod Translate
pub mod Provider
pub mod Chat
pub mod Health
pub mod Embeddings
pub mod Samples
