-- ===== src/Resilience/Retry.antt =====
-- internal/resilience/retry.go. The function that `Do` calls, the context and the random source
-- are arguments: `fn k` is what the k-th call returns (`none` for a nil error), `interrupted k d` is
-- `some` with the context's error if the context ends before the wait of `d` after the k-th call is
-- over, and `rand k n` is what `rand.Int63n(n)` returns after the k-th call. The loop recurs on the
-- attempts left. A duration is an int64, and the one product that can pass 64 bits is wrapped.
pub mod Calls
pub mod Backoff
use llm_api_gateway.Prelude.{
  ℕ, zero, suc, ◌+◌, ◌-◌, ◌*◌, ◌/◌, ◌%◌, ◌^◌, Bool, true, false, not, ℤ, pos, negsuc, pos_part,
  neg_part, sub_ℕ, leb_ℤ, ltb_ℤ, ltb, ◌==◌, ◌&&◌, if◌then◌else◌, Option, none, some, List, [], ◌∷◌,
  ◌++◌,
}

pub record RetryConfig : Type 0 where
  pub max_attempts : ℤ
  pub base_delay : ℤ
  pub max_delay : ℤ
  pub jitter : Bool

abbrev pub default_retry_config : RetryConfig
default_retry_config = record {
  max_attempts = pos 3;
  base_delay = pos 200_000_000;
  max_delay = pos 2_000_000_000;
  jitter = true;
}

-- The int64 with the bit pattern `n % 2^64`.
unfoldable pub signed64 : ℕ → ℤ
signed64 n =
    let m = n % 18446744073709551616 in
    if ltb m 9223372036854775808 then pos m else negsuc (18446744073709551615 - m)

-- What `Do` works with after its two defaults.
abbrev pub attempts_of : RetryConfig → ℕ
attempts_of cfg = if leb_ℤ cfg.max_attempts (pos 0) then 1 else pos_part cfg.max_attempts

abbrev pub base_delay_of : RetryConfig → ℕ
base_delay_of cfg = if leb_ℤ cfg.base_delay (pos 0) then 200_000_000 else pos_part cfg.base_delay

-- `delay := cfg.BaseDelay * time.Duration(1<<attempt)`, then the cap
unfoldable pub capped_delay : RetryConfig → ℕ → ℤ
capped_delay cfg attempt =
    let delay = signed64 (base_delay_of cfg * 2 ^ attempt) in
    if ltb_ℤ cfg.max_delay delay && ltb_ℤ (pos 0) cfg.max_delay then cfg.max_delay else delay

-- The jitter is added only if half the delay is positive, so only to a positive delay, of which it takes
-- a quarter at most.
unfoldable pub add_jitter : Bool → (ℕ → ℕ) → ℤ → ℤ
unfolding signed64
add_jitter true draw (pos d) = if ltb 0 (d / 2) then signed64 (d + draw (d / 2) - d / 4) else pos d
add_jitter true draw (negsuc d) = negsuc d
add_jitter false draw d = d

unfoldable pub backoff : RetryConfig → (ℕ → ℕ → ℕ) → ℕ → ℤ
backoff cfg rand attempt = add_jitter cfg.jitter (rand attempt) (capped_delay cfg attempt)

-- The error that `Do` returns, and how often it called `fn`.
pub record Outcome (E : Type 0) : Type 0 where
  pub error : Option E
  pub calls : ℕ

module _ {E : Type 0} (cfg : RetryConfig) (is_retryable : E → Bool) (fn : ℕ → Option E)
    (interrupted : ℕ → ℤ → Option E) (rand : ℕ → ℕ → ℕ) where
  -- The `select` after a retryable failure: `next` is the rest of the loop.
  unfoldable pub wait : ℕ → Option E → Outcome E → Outcome E
  wait attempt none next = next
  wait attempt (some ctx_err) next = record { error = some ctx_err; calls = attempt + 1 }

  -- The body of the loop after the call of `fn`, whose result is the second argument.
  unfoldable pub after_call : ℕ → Option E → Outcome E → Outcome E
  unfolding wait
  after_call attempt none next = record { error = none; calls = attempt + 1 }
  after_call attempt (some err) next =
      if not (is_retryable err)
      then record { error = some err; calls = attempt + 1 }
      else if attempt + 1 == attempts_of cfg
      then record { error = some err; calls = attempt + 1 }
      else wait attempt (interrupted attempt (backoff cfg rand attempt)) next

  -- The loop with `left` attempts left; the last argument is `lastErr`.
  unfoldable pub retry_loop : ℕ → ℕ → Option E → Outcome E
  unfolding after_call
  retry_loop zero attempt last = record { error = last; calls = attempt }
  retry_loop (suc left) attempt last =
      let next = retry_loop left (suc attempt) (fn attempt) in after_call attempt (fn attempt) next

  -- `Do`
  unfoldable pub do_retry : Outcome E
  unfolding retry_loop
  do_retry = retry_loop (attempts_of cfg) 0 none
