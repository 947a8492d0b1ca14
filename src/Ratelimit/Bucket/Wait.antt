-- ===== src/Ratelimit/Bucket/Wait.antt =====
-- How long a refused caller has to wait.
use llm_api_gateway.Prelude.{
  ℕ, ap, ◌∙◌, ◌%◌, ◌≢◌, ◌+◌, ◌-◌, ◌*◌, ◌/◌, ◌≤◌, ◌<◌, ◌≡◌, Option, none, some, true, false, arith,
  if◌then◌else◌, leb,
}
use llm_api_gateway.Ratelimit.Bucket.{
  Bucket, token, second, refill, take, retry_after, header_seconds,
}

-- A token is there as soon as what the bucket holds and what has been added since make one.
take_one :
    (rpm burst : ℕ) (b : Bucket) (later : ℕ)
    → 0 < burst
    → (take rpm burst later 1 (some b)).1 ≡ leb token (b.tokens + (later - b.last_refill) * rpm)
unfolding take refill
take_one rpm burst b later h = ground arith

wait_enough : (x rpm : ℕ) → 0 < rpm → x < token → token ≤ x + ((token - x) / rpm + 1) * rpm
wait_enough x rpm h k = grind arith

wait_needed : (x rpm d : ℕ) → 0 < rpm → x < token → d < (token - x) / rpm → x + d * rpm < token
wait_needed x rpm d h k l = grind arith

retry_after_lem :
    (rpm burst : ℕ) (entry : Option Bucket) (now : ℕ)
    → 0 < burst
    → let b = (retry_after rpm burst now entry).0 in
      (b.last_refill ≡ now)
      × ((retry_after rpm burst now entry).1
          ≡ (if leb token b.tokens then 0 else (token - b.tokens) / rpm))
unfolding retry_after refill
retry_after_lem rpm burst none now h = ground arith
retry_after_lem rpm burst (some b) now h = ground arith

module _ (rpm burst : ℕ) (entry : Option Bucket) (now : ℕ) (rate_pos : 0 < rpm)
    (burst_pos : 0 < burst) where
  take_later :
      (d : ℕ)
      → let (b, wait) = retry_after rpm burst now entry in
        (take rpm burst (now + d) 1 (some b)).1 ≡ leb token (b.tokens + d * rpm)
  take_later d =
      let b = (retry_after rpm burst now entry).0 in
      let e : now + d - b.last_refill ≡ d =
        omega (arith, (retry_after_lem rpm burst entry now burst_pos).0) in
      take_one rpm burst b (now + d) burst_pos ∙ ap (λ (t : ℕ). leb token (b.tokens + t * rpm)) e

  -- For positive limits, one nanosecond after the wait that `RetryAfter` reports, a request for one token is granted,
  -- if no other request for the key came in between.
  pub retry_after-enough :
      let (b, wait) = retry_after rpm burst now entry in
      (take rpm burst (now + (wait + 1)) 1 (some b)).1 ≡ true
  retry_after-enough = rw (take_later ((retry_after rpm burst now entry).1 + 1)) (
      ground (
        arith,
        (retry_after_lem rpm burst entry now burst_pos).1,
        wait_enough (retry_after rpm burst now entry).0.tokens rpm,
      ))

  -- For positive limits, a request for a token is refused before the wait that `RetryAfter` reports
  -- is over, if no other request for the key came in between.
  pub retry_after-needed :
      (d : ℕ)
      → d < (retry_after rpm burst now entry).1
      → (take rpm burst (now + d) 1 (some (retry_after rpm burst now entry).0)).1 ≡ false
  retry_after-needed d h = rw (take_later d) (
      ground (
        arith,
        (retry_after_lem rpm burst entry now burst_pos).1,
        wait_needed (retry_after rpm burst now entry).0.tokens rpm d,
      ))

  -- The header drops the fraction of a second. For positive limits, when the wait is longer than a second and no whole
  -- number of them, a client that waits as long as the `Retry-After` header says is refused again.
  pub header_seconds_too_short :
      second < (retry_after rpm burst now entry).1
      → (retry_after rpm burst now entry).1 % second ≢ 0
      → let (b, wait) = retry_after rpm burst now entry in
        (take rpm burst (now + header_seconds wait * second) 1 (some b)).1 ≡ false
  unfolding header_seconds
  header_seconds_too_short h k =
      retry_after-needed (header_seconds (retry_after rpm burst now entry).1 * second)
        (ground arith)
