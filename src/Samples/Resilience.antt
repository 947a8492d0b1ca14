-- ===== src/Samples/Resilience.antt =====
-- Breakers, retries and hedged calls on concrete inputs.
use llm_api_gateway.Prelude.{
  List, ℕ, zero, suc, ◌≡◌, refl, true, pos, pos_part, String, Option, none, some, [], ◌∷◌, map,
  arith, ◌==◌,
}
use llm_api_gateway.Resilience.Breaker.{State, closed, opened, CircuitConfig, Breaker, new_breaker}
use llm_api_gateway.Resilience.Breaker.Invariant.{
  allows, succeeds, fails, run, IsPositive, IsBounded,
}
use llm_api_gateway.Resilience.Breaker.Reload as Reload
use llm_api_gateway.Resilience.Breaker.Reload.{
  Event, calls, updates, IsWithin, IsCapped, run-new_breaker-IsCapped,
}
use llm_api_gateway.Resilience.Breaker.Trip.{run-fails}
use llm_api_gateway.Resilience.Breaker.Probe.{admitted, admitted-timeout_over}
use llm_api_gateway.Resilience.Retry.{RetryConfig, do_retry, backoff}
use llm_api_gateway.Resilience.Retry.Calls.{Explained, do_retry-Explained}
use llm_api_gateway.Resilience.Retry.Backoff.{backoff_overflow}
use llm_api_gateway.Resilience.Hedge as Hedge

abbrev two_failures : CircuitConfig
two_failures = record { failure_threshold = pos 2; open_timeout = pos 10; half_open_max = pos 2 }

-- A breaker of this configuration, opened at time 5 if it is open.
abbrev breaker_in : State → ℕ → Breaker
breaker_in s pend = record {
  cfg = two_failures;
  state = s;
  failures = 0;
  successes = 0;
  last_opened_at = 5;
  half_open_pend = pend;
}

two_failures-IsPositive : IsPositive two_failures
two_failures-IsPositive = record {
  failure_threshold = omega arith;
  open_timeout = omega arith;
  half_open_max = omega arith;
}

breaker_in-IsBounded : (s : State) → IsBounded (breaker_in s 1)
breaker_in-IsBounded s = record {
  positive = two_failures-IsPositive;
  short_of_failures = λ e. omega arith;
  short_of_successes = λ e. omega arith;
  probes = λ e. omega arith;
  counts_closed = λ e. refl;
  counts_opened = λ e. refl;
}

-- One failure is enough, and one probe.
abbrev one_failure : CircuitConfig
one_failure = record { failure_threshold = pos 1; open_timeout = pos 10; half_open_max = pos 1 }

abbrev reloaded : List Event
reloaded =
    calls (fails 1)
    ∷ updates one_failure
    ∷ calls (fails 2)
    ∷ calls (allows 20)
    ∷ calls succeeds
    ∷ []

two_failures-IsWithin : IsWithin (pos 2) (pos 2) (new_breaker two_failures).cfg
unfolding new_breaker
two_failures-IsWithin = record { failure_threshold = omega arith; half_open_max = omega arith }

run-new_breaker-IsCapped_example :
    IsCapped (pos 2) (pos 2) (Reload.run (new_breaker two_failures) reloaded)
run-new_breaker-IsCapped_example =
    run-new_breaker-IsCapped (pos 2) (pos 2) two_failures reloaded two_failures-IsWithin (
      tt,
      (
        record { failure_threshold = omega arith; half_open_max = omega arith },
        (tt, (tt, (tt, tt))),
      ),
    )

run-fails_example : (run (breaker_in closed 1) (map fails (6 ∷ 7 ∷ []))).state ≡ opened
run-fails_example = run-fails (breaker_in closed 1) (6 ∷ 7 ∷ []) (breaker_in-IsBounded closed) refl

admitted-timeout_over_example : admitted (breaker_in opened 1) (15 ∷ 16 ∷ 17 ∷ []) ≡ 2
admitted-timeout_over_example =
    admitted-timeout_over (breaker_in opened 1) 15 (16 ∷ 17 ∷ []) (breaker_in-IsBounded opened) refl
      refl

abbrev retry_twice : RetryConfig
retry_twice = record {
  max_attempts = pos 3;
  base_delay = pos 200;
  max_delay = pos 300;
  jitter = true;
}

-- The first call fails with the error 7, the next one succeeds.
abbrev fails_once : ℕ → Option ℕ
fails_once zero = some 7
fails_once (suc k) = none

-- The smallest draw.
abbrev draw_zero : ℕ → ℕ → ℕ
draw_zero attempt n = 0

do_retry-Explained_example :
    Explained retry_twice
      (λ e. e == 7)
      fails_once
      (λ k d. none)
      draw_zero
      0
      (do_retry retry_twice (λ e. e == 7) fails_once (λ k d. none) draw_zero)
do_retry-Explained_example =
    do_retry-Explained retry_twice (λ e. e == 7) fails_once (λ k d. none) draw_zero

-- A base delay of 2^60 nanoseconds.
abbrev retry_slowly : RetryConfig
retry_slowly = record retry_twice { base_delay = pos 1_152_921_504_606_846_976 }

backoff_overflow_example : pos_part (backoff retry_slowly draw_zero 3) ≡ 0
backoff_overflow_example = backoff_overflow retry_slowly draw_zero 3 (omega arith) (omega arith)

both_failed :
    Hedge.do_hedge {E = ℕ} {A = String}
      (Hedge.timer ∷ Hedge.primary_done (Hedge.err 3) ∷ Hedge.fallback_done (Hedge.err 4) ∷ [])
    ≡ Hedge.returned (Hedge.err 4)
unfolding Hedge.do_hedge Hedge.run Hedge.step
both_failed = refl

do_hedge_error_example :
    Hedge.Failed {E = ℕ} {A = String} 4
      (Hedge.timer ∷ Hedge.primary_done (Hedge.err 3) ∷ Hedge.fallback_done (Hedge.err 4) ∷ [])
do_hedge_error_example =
    Hedge.do_hedge_error 4
      (Hedge.timer ∷ Hedge.primary_done (Hedge.err 3) ∷ Hedge.fallback_done (Hedge.err 4) ∷ [])
      both_failed
