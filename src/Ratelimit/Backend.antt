-- ===== src/Ratelimit/Backend.antt =====
-- `Backend` of internal/ratelimit, the interface of a limiter, and its two implementations: the local
-- limiter of token_bucket.go and the Redis limiter of redis.go. `now` is `time.Now()`.
use llm_api_gateway.Prelude.{ℕ, Bool, ℤ, pos, String}
use llm_api_gateway.Ratelimit.Limiter as Local
use llm_api_gateway.Ratelimit.Limiter.{Limiter}
use llm_api_gateway.Ratelimit.Redis as Redis
use llm_api_gateway.Ratelimit.Redis.{Commands, Link, RedisLimiter}

pub record Backend : Type 1 where
  pub State : Type 0
  pub allow_one : ℕ → String → State → State × Bool
  pub allow_with_limits : ℕ → String → ℤ → ℤ → ℤ → State → State × Bool
  pub retry_after : ℕ → String → State → State × ℕ
  pub retry_after_with_limits : ℕ → String → ℤ → ℤ → State → State × ℕ

-- `RetryAfter` of the local limiter
abbrev pub retry_after_local : (String → ℕ) → ℕ → String → Limiter → Limiter × ℕ
retry_after_local hash now key l =
    Local.retry_after_with_limits hash now key (pos l.rate) (pos l.burst) l

abbrev pub local_backend : (String → ℕ) → Backend
local_backend hash = record {
  State = Limiter;
  allow_one = Local.allow_one hash;
  allow_with_limits = Local.allow_with_limits hash;
  retry_after = retry_after_local hash;
  retry_after_with_limits = Local.retry_after_with_limits hash;
}

-- All Redis calls of a request have the same fate.
abbrev pub redis_backend : Commands → (String → ℕ) → Link → Backend
redis_backend r hash link = record {
  State = RedisLimiter r.Store;
  allow_one = λ now key l. Redis.allow_one r hash now link key l;
  allow_with_limits =
      λ now key n rpm burst l. Redis.allow_with_limits r hash now link key n rpm burst l;
  retry_after = λ now key l. Redis.retry_after r hash now key l;
  retry_after_with_limits =
      λ now key rpm burst l. Redis.retry_after_with_limits r hash now key rpm burst l;
}
