-- ===== src/Resilience/Retry/Backoff.antt =====
-- How long `Do` waits between two calls.
use llm_api_gateway.Prelude.{
  ℕ, zero, suc, ◌+◌, ◌-◌, ◌*◌, ◌/◌, ◌^◌, ◌≤◌, ◌<◌, ◌≡◌, refl, min, Bool, true, false, pos, negsuc,
  arith, pos_part,
}
use llm_api_gateway.Resilience.Retry.{
  RetryConfig, base_delay_of, signed64, capped_delay, add_jitter, backoff,
}

signed64_small : (n : ℕ) → n < 9223372036854775808 → signed64 n ≡ pos n
unfolding signed64
signed64_small n h = ground arith

signed64_large :
    (n : ℕ)
    → 9223372036854775808 ≤ n
    → n < 18446744073709551616
    → signed64 n ≡ negsuc (18446744073709551615 - n)
unfolding signed64
signed64_large n h k = ground arith

capped_delay_small :
    (cfg : RetryConfig) (attempt m : ℕ)
    → base_delay_of cfg * 2 ^ attempt < 9223372036854775808
    → cfg.max_delay ≡ pos (suc m)
    → capped_delay cfg attempt ≡ pos (min (base_delay_of cfg * 2 ^ attempt) (suc m))
unfolding capped_delay
capped_delay_small cfg attempt m h e = rw (signed64_small _ h, e) (ground arith)

add_jitter_bounds :
    (jitter : Bool) (draw : ℕ → ℕ) (d : ℕ)
    → d < 4611686018427387904
    → (0 < d / 2 → draw (d / 2) < d / 2)
    → (r : ℕ) × (add_jitter jitter draw (pos d) ≡ pos r) × (d ≤ r + d / 4) × (r + d / 4 ≤ d + d / 2)
unfolding add_jitter
add_jitter_bounds false draw d k h = (d, refl, omega arith, omega arith)
add_jitter_bounds true draw zero k h = (0, ground arith, omega arith, omega arith)
add_jitter_bounds true draw (suc zero) k h = (1, ground arith, omega arith, omega arith)
add_jitter_bounds true draw (suc (suc d)) k h =
    let n = suc (suc d) in
    let drawn = h (omega arith) in
    (
      n + draw (n / 2) - n / 4,
      ground (arith, signed64_small (n + draw (n / 2) - n / 4) (omega (arith, drawn))),
      ground arith,
      ground arith,
    )

-- If the doubled base delay fits in 62 bits and the maximum is positive, the wait after the
-- attempt is the doubled delay capped at the maximum, less at most a quarter of it by the jitter,
-- or more by at most the other half-range, provided that the random draw lies in its range.
pub backoff_bounds :
    (cfg : RetryConfig) (rand : ℕ → ℕ → ℕ) (attempt m : ℕ)
    → base_delay_of cfg * 2 ^ attempt < 4611686018427387904
    → cfg.max_delay ≡ pos (suc m)
    → ((n : ℕ) → 0 < n → rand attempt n < n)
    → let d = min (base_delay_of cfg * 2 ^ attempt) (suc m) in
      (r : ℕ) × (backoff cfg rand attempt ≡ pos r) × (d ≤ r + d / 4) × (r + d / 4 ≤ d + d / 2)
unfolding backoff
backoff_bounds cfg rand attempt m h e draw =
    rw (capped_delay_small cfg attempt m (omega (arith, h)) e)
      (add_jitter_bounds cfg.jitter (rand attempt) _ (omega (arith, h)) (draw _))

-- When the doubled base delay takes exactly 64 bits, the product is negative and passes the cap: the
-- loop does not wait at all.
pub backoff_overflow :
    (cfg : RetryConfig) (rand : ℕ → ℕ → ℕ) (attempt : ℕ)
    → 9223372036854775808 ≤ base_delay_of cfg * 2 ^ attempt
    → base_delay_of cfg * 2 ^ attempt < 18446744073709551616
    → pos_part (backoff cfg rand attempt) ≡ 0
unfolding backoff capped_delay add_jitter
backoff_overflow cfg rand attempt h k = rw (signed64_large _ h k) (ground arith)
