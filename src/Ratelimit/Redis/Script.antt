-- ===== src/Ratelimit/Redis/Script.antt =====
-- The Lua script keeps a bucket of `Bucket` in the hash of its key.
use llm_api_gateway.Prelude.{
  ℕ, ◌-◌, ◌*◌, ◌≤◌, ◌≡◌, refl, leb, ℤ, pos, String, str_eq, Option, none, some, arith,
  if◌then◌else◌,
}
use llm_api_gateway.Ratelimit.Bucket.{Bucket, token, take, refill}
use llm_api_gateway.Ratelimit.Redis.{Commands, refilled, cap, level, finish, lua_script}

-- The fields of a hash that hold a bucket, or no bucket. Redis keeps no `last_seen`.
unfoldable pub fields : Option Bucket → Option ℤ × Option ℕ
fields none = (none, none)
fields (some b) = (some (pos b.tokens), some b.last_refill)

-- The clock has not gone back since the bucket was last filled.
abbrev pub IsPast : ℕ → Option Bucket → Type 0
IsPast now none = Unit
IsPast now (some b) = b.last_refill ≤ now

level-refill :
    (rpm burst now : ℕ) (entry : Option Bucket)
    → IsPast now entry
    → level rpm burst now (fields entry) ≡ some (pos (refill rpm burst now entry).tokens)
unfolding level refill fields cap refilled
level-refill rpm burst now none h = refl
level-refill rpm burst now (some b) h = ground arith

module _ (r : Commands) where
  open r use {Store, hmget, hmset, expire, hmget-hmset, hmget-expire}

  finish-fields :
      (key other : String) (now n t : ℕ) (s : Store)
      → let done = finish r key now n s (some (pos t)) in
        (done.1 ≡ some (leb (n * token) t))
        × (hmget other done.0 ≡ (
            if str_eq key other
            then (some (pos (if leb (n * token) t then t - n * token else t)), some now)
            else hmget other s))
  unfolding finish
  finish-fields key other now n t s = ground (
    arith,
    hmget-expire key other 600 (hmset key (pos (t - n * token)) now s),
    hmget-expire key other 600 (hmset key (pos t) now s),
    hmget-hmset key other (pos (t - n * token)) now s,
    hmget-hmset key other (pos t) now s,
  )

  take_lem :
      (rpm burst now n : ℕ) (entry : Option Bucket)
      → let t = (refill rpm burst now entry).tokens in
        let got = take rpm burst now n entry in
        (got.1 ≡ leb (n * token) t)
        × (fields (some got.0)
            ≡ (some (pos (if leb (n * token) t then t - n * token else t)), some now))
  unfolding take fields refill
  take_lem rpm burst now n none = ground arith
  take_lem rpm burst now n (some b) = ground arith

  -- When the hash of a key holds a bucket that was last filled before now, or no bucket, the script
  -- answers what the local bucket algorithm answers, leaves the bucket in the hash that this
  -- algorithm leaves, and changes no other key.
  pub lua_script-take :
      (key other : String) (rpm burst now n : ℕ) (entry : Option Bucket) (s : Store)
      → hmget key s ≡ fields entry
      → IsPast now entry
      → let got = take rpm burst now n entry in
        let done = lua_script r key rpm burst now n s in
        (done.1 ≡ some got.1)
        × (hmget other done.0 ≡ (if str_eq key other then fields (some got.0) else hmget other s))
  unfolding lua_script
  lua_script-take key other rpm burst now n entry s h p =
      let t = (refill rpm burst now entry).tokens in
      rw (h, level-refill rpm burst now entry p)
        (ground (arith, finish-fields key other now n t s, take_lem rpm burst now n entry))
