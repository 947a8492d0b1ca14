-- ===== src/Ratelimit/Redis.antt =====
-- internal/ratelimit/redis.go: the limiter whose buckets are Redis hashes. The script is written over
-- the commands that it calls, of which `Commands` states the documented behaviour. Time and tokens
-- are in the units of `Bucket`. The clocks of several gateways may differ, so the elapsed time may
-- be negative, and with it the number of tokens.
pub mod Script
pub mod Outage
use llm_api_gateway.Prelude.{
  ℕ, ◌+◌, ◌-◌, ◌*◌, ◌/◌, Bool, true, false, ◌||◌, ℤ, pos, pos_part, neg_part, sub_ℕ, leb_ℤ, ltb_ℤ,
  leb, String, str_eq, Option, none, some, ◌≡◌, if◌then◌else◌,
}
use llm_api_gateway.Ratelimit.Bucket.{token, second}
use llm_api_gateway.Ratelimit.Limiter as Local
use llm_api_gateway.Ratelimit.Limiter.{Limiter, requested}

pub record Commands : Type 1 where
  pub Store : Type 0
  -- HMGET of the fields "tokens" and "last_refill"
  pub hmget : String → Store → Option ℤ × Option ℕ
  -- HMSET of the same fields
  pub hmset : String → ℤ → ℕ → Store → Store
  pub expire : String → ℕ → Store → Store
  pub hmget-hmset :
      (k j : String) (t : ℤ) (n : ℕ) (s : Store)
      → hmget j (hmset k t n s) ≡ (if str_eq k j then (some t, some n) else hmget j s)
  -- The expiry lies in the future: what is read right after it is what was there.
  pub hmget-expire : (k j : String) (ttl : ℕ) (s : Store) → hmget j (expire k ttl s) ≡ hmget j s

abbrev pub plus : ℤ → ℕ → ℤ
plus a n = sub_ℕ (pos_part a + n) (neg_part a)

abbrev pub minus : ℤ → ℕ → ℤ
minus a n = sub_ℕ (pos_part a) (neg_part a + n)

-- `tokens + elapsed * rate`
unfoldable pub refilled : ℕ → ℤ → ℕ → ℕ → ℤ
refilled rpm tokens last now =
    if leb last now then plus tokens ((now - last) * rpm) else minus tokens ((last - now) * rpm)

-- `if tokens > burst then tokens = burst end`
unfoldable pub cap : ℕ → ℤ → ℤ
cap burst tokens = if ltb_ℤ (pos (burst * token)) tokens then pos (burst * token) else tokens

-- The tokens before the request; `none` is the error that Lua raises when "last_refill" is nil.
unfoldable pub level : ℕ → ℕ → ℕ → Option ℤ × Option ℕ → Option ℤ
level rpm burst now (none, last) = some (pos (burst * token))
level rpm burst now (some tokens, none) = none
level rpm burst now (some tokens, some last) = some (cap burst (refilled rpm tokens last now))

-- `luaScript`: the store after it, and the first element of the reply (`true` stands for 1).
module _ (r : Commands) where
  open r use {Store, hmget, hmset, expire}

  unfoldable pub finish : String → ℕ → ℕ → Store → Option ℤ → Store × Option Bool
  finish key now n s none = (s, none)
  finish key now n s (some tokens) =
      if leb_ℤ (pos (n * token)) tokens
      then (expire key 600 (hmset key (minus tokens (n * token)) now s), some true)
      else (expire key 600 (hmset key tokens now s), some false)

  unfoldable pub lua_script : String → ℕ → ℕ → ℕ → ℕ → Store → Store × Option Bool
  unfolding finish
  lua_script key rpm burst now n s = finish key now n s (level rpm burst now (hmget key s))

-- The reply arrives; there is no store or no connection; the call fails before or after the
-- script ran; the reply has another type.
pub data Link : Type 0 where
  answers no_client lost_before lost_after garbled : Link

pub record RedisLimiter (S : Type 0) : Type 0 where
  pub redis : S
  pub rate : ℕ
  pub burst : ℕ
  pub fallback : Limiter
  pub degraded : Bool

-- `NewRedisWithStore`
unfoldable pub new_redis_with_store : {S : Type 0} → S → ℕ → ℕ → RedisLimiter S
new_redis_with_store s rpm burst = record {
  redis = s;
  rate = rpm;
  burst = burst;
  fallback = Local.new rpm burst;
  degraded = false;
}

-- What `script.Run` gives: the store, and the answer if it is one that the limiter can use.
unfoldable pub through : {S : Type 0} → Link → S → S × Option Bool → S × Option Bool
through answers s (s', v) = (s', v)
through no_client s (s', v) = (s, none)
through lost_before s (s', v) = (s, none)
through lost_after s (s', v) = (s', none)
through garbled s (s', v) = (s', none)

module _ (r : Commands) (hash : String → ℕ) where
  open r use {Store}

  -- The local limiter decides.
  unfoldable pub fall_back : ℕ → String → ℤ → ℤ → ℤ → RedisLimiter Store → RedisLimiter Store × Bool
  fall_back now key n rpm burst l =
      let local = Local.allow_with_limits hash now key n rpm burst l.fallback in
      (record l { fallback = local.0; degraded = true }, local.1)

  unfoldable pub use_reply :
      ℕ → String → ℤ → ℤ → ℤ → RedisLimiter Store → Store × Option Bool → RedisLimiter Store × Bool
  unfolding fall_back
  use_reply now key n rpm burst l (s, some v) = (record l { redis = s; degraded = false }, v)
  use_reply now key n rpm burst l (s, none) = fall_back now key n rpm burst (record l { redis = s })

  unfoldable pub allow_with_limits :
      ℕ → Link → String → ℤ → ℤ → ℤ → RedisLimiter Store → RedisLimiter Store × Bool
  unfolding use_reply lua_script
  allow_with_limits now link key n rpm burst l =
      if leb_ℤ rpm (pos 0) || leb_ℤ burst (pos 0)
      then (l, false)
      else use_reply now key (pos (requested n)) rpm burst l (
          through link l.redis
            (lua_script r key (pos_part rpm) (pos_part burst) now (requested n) l.redis))

  -- `AllowN`; `int(r.rate * 60)` is the rate, but for the rounding of the code's float64.
  unfoldable pub allow_n : ℕ → Link → String → ℤ → RedisLimiter Store → RedisLimiter Store × Bool
  unfolding allow_with_limits
  allow_n now link key n l = allow_with_limits now link key n (pos l.rate) (pos l.burst) l

  -- `Allow`
  unfoldable pub allow_one : ℕ → Link → String → RedisLimiter Store → RedisLimiter Store × Bool
  unfolding allow_n
  allow_one now link key l = allow_n now link key (pos 1) l

  -- The local limiter says how long to wait.
  unfoldable pub local_wait : ℕ → String → ℤ → ℤ → RedisLimiter Store → RedisLimiter Store × ℕ
  local_wait now key rpm burst l =
      let local = Local.retry_after_with_limits hash now key rpm burst l.fallback in
      (record l { fallback = local.0 }, local.1)

  unfoldable pub retry_after_with_limits :
      ℕ → String → ℤ → ℤ → RedisLimiter Store → RedisLimiter Store × ℕ
  retry_after_with_limits now key rpm burst l =
      if leb_ℤ rpm (pos 0)
      then (l, second)
      else if l.degraded
      then local_wait now key rpm burst l
      else (l, token / pos_part rpm)

  unfoldable pub retry_after : ℕ → String → RedisLimiter Store → RedisLimiter Store × ℕ
  unfolding retry_after_with_limits
  retry_after now key l = retry_after_with_limits now key (pos l.rate) (pos l.burst) l

unfoldable pub update_limits : {S : Type 0} → ℤ → ℤ → RedisLimiter S → RedisLimiter S
update_limits rpm burst l = if leb_ℤ rpm (pos 0) || leb_ℤ burst (pos 0) then l else record l {
  rate = pos_part rpm;
  burst = pos_part burst;
  fallback = Local.update_limits rpm burst l.fallback;
}
