-- ===== src/Samples/Redis.antt =====
-- The Redis limiter over a store that is a function, and the shared Redis connection.
use llm_api_gateway.Prelude.{
  ℕ, ◌+◌, ◌≡◌, refl, true, false, ℤ, pos, String, str_eq, Option, some, List, [], ◌∷◌, arith,
  if◌then◌else◌,
}
use llm_api_gateway.Ratelimit.Bucket.{Bucket, token, take}
use llm_api_gateway.Ratelimit.Redis.{
  Commands, RedisLimiter, new_redis_with_store, lua_script, no_client, lost_after,
}
use llm_api_gateway.Ratelimit.Redis.Script.{fields, lua_script-take}
use llm_api_gateway.Ratelimit.Redis.Outage.{Request, run, run_local, run-run_local}
use llm_api_gateway.Redisstore.{new, endpoint}
use llm_api_gateway.Redisstore.Clients.{replaces, closes, count, held, run-new-Settled}
use llm_api_gateway.Redisstore.Clients as Clients

abbrev Hashes : Type 0
Hashes = String → Option ℤ × Option ℕ

abbrev put_hash : String → ℤ → ℕ → Hashes → Hashes
put_hash k t n s j = if str_eq k j then (some t, some n) else s j

abbrev commands : Commands
commands = record {
  Store = Hashes;
  hmget = λ k s. s k;
  hmset = put_hash;
  expire = λ k ttl s. s;
  hmget-hmset = λ k j t n s. refl;
  hmget-expire = λ k j ttl s. refl;
}

abbrev half_full : Option Bucket
half_full = some (record { tokens = token; last_refill = 5; last_seen = 5 })

abbrev hashes : Hashes
hashes k = (some (pos token), some 5)

hashes-half_full : hashes "a" ≡ fields half_full
unfolding fields
hashes-half_full = refl

lua_script-take_example :
    let got = take 60 2 10 1 half_full in
    let done = lua_script commands "a" 60 2 10 1 hashes in
    (done.1 ≡ some got.1)
    × (done.0 "b" ≡ (if str_eq "a" "b" then fields (some got.0) else hashes "b"))
lua_script-take_example =
    lua_script-take commands "a" "b" 60 2 10 1 half_full hashes hashes-half_full (omega arith)

abbrev hash_zero : String → ℕ
hash_zero key = 0

abbrev outage : List Request
outage =
    (record { now = 1; link = no_client; key = "a"; n = pos 1; rpm = pos 60; burst = pos 1 })
    ∷ (record { now = 2; link = lost_after; key = "a"; n = pos 1; rpm = pos 60; burst = pos 1 })
    ∷ []

abbrev limiter : RedisLimiter Hashes
limiter = new_redis_with_store hashes 60 1

run-run_local_example :
    ((run hash_zero commands limiter outage).0.fallback
      ≡ (run_local hash_zero limiter.fallback outage).0)
    × ((run hash_zero commands limiter outage).1 ≡ (run_local hash_zero limiter.fallback outage).1)
run-run_local_example = run-run_local hash_zero commands outage limiter (tt, (tt, tt))

-- A second endpoint takes the place of the first, a third does not answer, then the store is closed.
run-new-Settled_example :
    let m = Clients.run new (
      replaces "redis://a" (endpoint 1 true)
      ∷ replaces "redis://b" (endpoint 2 true)
      ∷ replaces "redis://c" (endpoint 3 false)
      ∷ closes
      ∷ []) in
    count 2 m.created ≡ count 2 m.closed + held 2 m.client
run-new-Settled_example =
    run-new-Settled
      (replaces "redis://a" (endpoint 1 true)
        ∷ replaces "redis://b" (endpoint 2 true)
        ∷ replaces "redis://c" (endpoint 3 false)
        ∷ closes
        ∷ [])
      2
