-- ===== src/Ratelimit/Bucket.antt =====
-- One bucket of internal/ratelimit/token_bucket.go. The code counts tokens and seconds in float64;
-- here both are exact: times are nanoseconds, and tokens are counted in units of which a token has
-- 60 * 10^9, so that a rate of `rpm` requests per minute adds `rpm` units in each nanosecond.
-- Rounding of floats is not modelled. The clock is monotonic, so `now.Sub` is never negative.
pub mod Window
pub mod Wait
use llm_api_gateway.Prelude.{
  ℕ, ◌+◌, ◌-◌, ◌*◌, ◌/◌, Bool, true, false, ltb, leb, if◌then◌else◌, Option, none, some, min,
}

abbrev pub token : ℕ
token = 60_000_000_000

abbrev pub second : ℕ
second = 1_000_000_000

pub record Bucket : Type 0 where
  pub tokens : ℕ
  pub last_refill : ℕ
  pub last_seen : ℕ

-- `refillLocked`, on the entry that the map holds for the key.
unfoldable pub refill : ℕ → ℕ → ℕ → Option Bucket → Bucket
refill rpm burst now none = record { tokens = burst * token; last_refill = now; last_seen = now }
refill rpm burst now (some b) =
    let tokens = b.tokens + (now - b.last_refill) * rpm in
    record {
      tokens = if ltb (burst * token) tokens then burst * token else tokens;
      last_refill = now;
      last_seen = now;
    }

-- The part of `AllowWithLimits` below the lock, for positive limits and a positive `n`.
unfoldable pub take : ℕ → ℕ → ℕ → ℕ → Option Bucket → Bucket × Bool
take rpm burst now n entry =
    let b = refill rpm burst now entry in
    if ltb b.tokens (n * token)
    then (b, false)
    else (record b { tokens = b.tokens - n * token }, true)

-- The part of `RetryAfterWithLimits` below the lock, in nanoseconds; the conversion to
-- `time.Duration` drops the fraction.
unfoldable pub retry_after : ℕ → ℕ → ℕ → Option Bucket → Bucket × ℕ
retry_after rpm burst now entry =
    let b = refill rpm burst now entry in
    if leb token b.tokens then (b, 0) else (b, (token - b.tokens) / rpm)

-- The `Retry-After` header that internal/proxy/middleware.go and handler.go write from it: whole
-- seconds, at least one.
unfoldable pub header_seconds : ℕ → ℕ
header_seconds wait = let seconds = wait / second in if ltb seconds 1 then 1 else seconds
