-- ===== src/Samples/Ratelimit.antt =====
-- Buckets, limiters and overrides on concrete inputs.
use llm_api_gateway.Prelude.{
  ℕ, ◌+◌, ◌-◌, ◌*◌, ◌%◌, ◌≤◌, ◌≡◌, ◌≢◌, refl, Bool, false, pos, String, lookup, Option, none, some,
  List, [], ◌∷◌, arith,
}
use llm_api_gateway.Ratelimit.Bucket.{
  Bucket, token, second, refill, take, retry_after, header_seconds,
}
use llm_api_gateway.Ratelimit.Bucket.Window.{serve, granted, granted-bound}
use llm_api_gateway.Ratelimit.Bucket.Wait.{header_seconds_too_short}
use llm_api_gateway.Ratelimit.Limiter.{Limiter, entry_of, allow_with_limits, cleanup}
use llm_api_gateway.Ratelimit.Limiter.Cleanup.{IsWf, allow-cleanup, allow_with_limits-IsWf}
use llm_api_gateway.Ratelimit.Override.{OverrideStore, resolve}
use llm_api_gateway.Ratelimit.Override.Specificity.{most_specific, resolve-most_specific}

abbrev full : Bucket
full = record { tokens = 2 * token; last_refill = 100; last_seen = 100 }

abbrev three_requests : List (ℕ × ℕ)
three_requests = (100, 1) ∷ (200, 1) ∷ (300, 1) ∷ []

granted-bound_example :
    granted 60 2 full three_requests * token
    ≤ 2 * token + ((serve 60 2 full three_requests).last_refill - 100) * 60
granted-bound_example =
    granted-bound 60 2 full three_requests (omega arith)
      (omega arith, (omega arith, (omega arith, tt)))

-- Empty since time 0, with a rate of 7 requests per minute.
abbrev empty : Option Bucket
empty = some (record { tokens = 0; last_refill = 0; last_seen = 0 })

empty_wait : (retry_after 7 1 0 empty).1 ≡ 8_571_428_571
unfolding retry_after refill
empty_wait = refl

empty_fraction : (retry_after 7 1 0 empty).1 % second ≢ 0
empty_fraction = rw empty_wait (λ e. omega arith)

header_seconds_too_short_example :
    let (b, wait) = retry_after 7 1 0 empty in
    (take 7 1 (0 + header_seconds wait * second) 1 (some b)).1 ≡ false
header_seconds_too_short_example =
    header_seconds_too_short 7 1 empty 0 (omega arith) (omega arith) (omega (arith, empty_wait))
      empty_fraction

-- A hash that puts every key in the first shard.
abbrev one_shard : String → ℕ
one_shard key = 0

abbrev limiter : Limiter
limiter = record { shards = λ i. []; rate = 60; burst = 10 }

abbrev called_once : Limiter
called_once = (allow_with_limits one_shard 100 "a" (pos 3) (pos 60) (pos 10) limiter).0

limiter-IsWf : IsWf one_shard limiter
unfolding entry_of lookup
limiter-IsWf = record { distinct = λ i. tt; seen = λ key. tt }

allow-cleanup_example :
    (allow_with_limits one_shard 900_000_000_000 "a"
      (pos 3)
      (pos 60)
      (pos 10)
      (cleanup 800_000_000_000 called_once)).1
    ≡ (allow_with_limits one_shard 900_000_000_000 "a" (pos 3) (pos 60) (pos 10) called_once).1
allow-cleanup_example =
    allow-cleanup one_shard 800_000_000_000 900_000_000_000 "a" (pos 3) 59 9 called_once
      (allow_with_limits-IsWf one_shard 100 "a" (pos 3) (pos 60) (pos 10) limiter limiter-IsWf)
      (omega arith) (omega arith)

-- Only equal strings match.
abbrev no_globs : String → String → Option Bool
no_globs pattern value = none

abbrev store : OverrideStore
store = record {
  default_rpm = pos 60;
  default_burst = pos 10;
  overrides =
      (record { tenant = "acme"; model_pattern = "gpt"; rpm = pos 600; burst = pos 20 })
      ∷ (record { tenant = "*"; model_pattern = "*"; rpm = pos 30; burst = pos 5 })
      ∷ [];
}

resolve-most_specific_example :
    resolve no_globs "acme" "gpt" store
    ≡ elim (most_specific no_globs "acme" "gpt" store.overrides) [
      | none ↦ (pos 60, pos 10)
      | some ov ↦ (ov.rpm, ov.burst)
    ]
resolve-most_specific_example =
    resolve-most_specific no_globs "acme" "gpt" store
      ((omega arith, omega arith), ((omega arith, omega arith), tt))
