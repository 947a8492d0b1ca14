-- ===== src/Ratelimit/Limiter.antt =====
-- The limiter of internal/ratelimit/token_bucket.go: sixteen shards of buckets by key. The hash
-- (`hash/fnv`) is a parameter. The mutexes make each operation one step, and `now` is `time.Now()`.
-- The limiter's own limits are the configuration's, which are positive, so they are numbers; the
-- limits that a call brings may be zero or negative. `rate` is kept as requests per minute, of which
-- the code's `rate` is the sixtieth part, and `GetLimits` gives it back. (In the code's float64 the
-- product may be just below the number, and `int` then drops one, as for 123 requests per minute.)
pub mod Keys
pub mod Cleanup
use llm_api_gateway.Prelude.{
  ℕ, ◌+◌, ◌%◌, Bool, true, false, not, ◌||◌, ℤ, pos, pos_part, leb_ℤ, ltb_ℤ, ltb, ◌==◌, String,
  Dict, lookup, insert, retain, Option, if◌then◌else◌, ◌/◌, [],
}
use llm_api_gateway.Ratelimit.Bucket.{Bucket, second, refill, take, retry_after}

pub record Limiter : Type 0 where
  pub shards : ℕ → Dict Bucket
  pub rate : ℕ
  pub burst : ℕ

unfoldable pub new : ℕ → ℕ → Limiter
new rpm burst = record { shards = λ i. []; rate = rpm; burst = burst }

-- 10 minutes
abbrev pub ttl : ℕ
ttl = 600_000_000_000

-- `n <= 0` stands for one token.
abbrev pub requested : ℤ → ℕ
requested n = if leb_ℤ n (pos 0) then 1 else pos_part n

module _ (hash : String → ℕ) where
  -- `shardFor`
  unfoldable pub shard_for : String → ℕ
  shard_for key = hash key % 16

  unfoldable pub entry_of : String → Limiter → Option Bucket
  entry_of key l = lookup key (l.shards (shard_for key))

  unfoldable pub put_entry : String → Bucket → Limiter → Limiter
  put_entry key b l = record l {
    shards = λ i. if i == shard_for key then insert key b (l.shards i) else l.shards i;
  }

  unfoldable pub allow_with_limits : ℕ → String → ℤ → ℤ → ℤ → Limiter → Limiter × Bool
  allow_with_limits now key n rpm burst l =
      if leb_ℤ rpm (pos 0) || leb_ℤ burst (pos 0)
      then (l, false)
      else let r = take (pos_part rpm) (pos_part burst) now (requested n) (entry_of key l) in
        (put_entry key r.0 l, r.1)

  unfoldable pub allow_n : ℕ → String → ℤ → Limiter → Limiter × Bool
  unfolding allow_with_limits
  allow_n now key n l = allow_with_limits now key n (pos l.rate) (pos l.burst) l

  -- `Allow`
  unfoldable pub allow_one : ℕ → String → Limiter → Limiter × Bool
  unfolding allow_n
  allow_one now key l = allow_n now key (pos 1) l

  unfoldable pub retry_after_with_limits : ℕ → String → ℤ → ℤ → Limiter → Limiter × ℕ
  retry_after_with_limits now key rpm burst l =
      if leb_ℤ rpm (pos 0) || leb_ℤ burst (pos 0)
      then (l, second)
      else let r = retry_after (pos_part rpm) (pos_part burst) now (entry_of key l) in
        (put_entry key r.0 l, r.1)

  -- `Tokens`, in the units of a bucket
  unfoldable pub tokens_of : ℕ → String → Limiter → Limiter × ℕ
  tokens_of now key l =
      let b = refill l.rate l.burst now (entry_of key l) in (put_entry key b l, b.tokens)

unfoldable pub update_limits : ℤ → ℤ → Limiter → Limiter
update_limits rpm burst l = record l {
  rate = if ltb_ℤ (pos 0) rpm then pos_part rpm else l.rate;
  burst = if ltb_ℤ (pos 0) burst then pos_part burst else l.burst;
}

-- `b.lastSeen.Before(cutoff)`
abbrev pub expired : ℕ → Bucket → Bool
expired now b = ltb (b.last_seen + ttl) now

unfoldable pub cleanup : ℕ → Limiter → Limiter
cleanup now l = record l { shards = λ i. retain (λ b. not (expired now b)) (l.shards i) }

-- `EstimateTokens`; `if tokens < 1 { tokens = 1 }`
unfoldable pub estimate_tokens : ℤ → ℕ
estimate_tokens chars =
    if leb_ℤ chars (pos 0)
    then 1
    else let tokens = pos_part chars / 4 in if ltb tokens 1 then 1 else tokens
