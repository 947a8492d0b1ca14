-- ===== src/Resilience/Breaker/Invariant.antt =====
-- Every history of calls on a breaker that keeps its configuration, as a sequence of steps, and what holds after each.
use llm_api_gateway.Prelude.{ℕ, suc, ◌≡◌, pos, ◌≤ℤ◌, List, [], ◌∷◌, arith}
use llm_api_gateway.Resilience.Breaker.{
  closed, opened, half_open, CircuitConfig, Breaker, new_breaker, allow, record_success,
  record_failure, state_of, reset,
}

-- One call on a breaker of a given configuration; the number is the time of the call.
pub data Call : Type 0 where
  allows : ℕ → Call
  succeeds : Call
  fails : ℕ → Call
  observes : ℕ → Call
  resets : Call

unfoldable pub step : Breaker → Call → Breaker
step b (allows now) = (allow now b).0
step b succeeds = record_success b
step b (fails now) = record_failure now b
step b (observes now) = (state_of now b).0
step b resets = reset b

unfoldable pub run : Breaker → List Call → Breaker
run b [] = b
run b (c ∷ cs) = run (step b c) cs

-- The thresholds in force are positive.
pub record IsPositive (c : CircuitConfig) : Type 0 where
  pub failure_threshold : pos 1 ≤ℤ c.failure_threshold
  pub open_timeout : pos 1 ≤ℤ c.open_timeout
  pub half_open_max : pos 1 ≤ℤ c.half_open_max

-- A closed breaker is short of its failures, a half-open one is short of its successes and has at
-- most the allowed number of probes in flight, and only a half-open one counts successes.
pub record IsBounded (b : Breaker) : Type 0 where
  pub positive : IsPositive b.cfg
  pub short_of_failures : b.state ≡ closed → pos (suc b.failures) ≤ℤ b.cfg.failure_threshold
  pub short_of_successes : b.state ≡ half_open → pos (suc b.successes) ≤ℤ b.cfg.half_open_max
  pub probes : b.state ≡ half_open → pos b.half_open_pend ≤ℤ b.cfg.half_open_max
  pub counts_closed : b.state ≡ closed → b.successes ≡ 0
  pub counts_opened : b.state ≡ opened → b.successes ≡ 0

pub new_breaker-IsBounded : (cfg : CircuitConfig) → IsBounded (new_breaker cfg)
unfolding new_breaker
new_breaker-IsBounded cfg = ground arith

pub step-IsBounded : (b : Breaker) (c : Call) → IsBounded b → IsBounded (step b c)
unfolding step allow record_success record_failure state_of reset
step-IsBounded b (allows now) v = ground arith
step-IsBounded b succeeds v = ground arith
step-IsBounded b (fails now) v = ground arith
step-IsBounded b (observes now) v = ground arith
step-IsBounded b resets v = ground arith

run-IsBounded : (b : Breaker) (cs : List Call) → IsBounded b → IsBounded (run b cs)
unfolding run
run-IsBounded b [] v = v
run-IsBounded b (c ∷ cs) v = run-IsBounded (step b c) cs (step-IsBounded b c v)

-- After every history of the calls `Allow`, `RecordSuccess`, `RecordFailure`, `State` and `Reset` on a
-- new breaker, of whatever configuration, its thresholds are
-- positive; if it is closed its failures are fewer than the failure threshold, and if it is
-- half-open its successes are fewer than `half_open_max` and its probes in flight at most that many.
pub run-new_breaker-IsBounded :
    (cfg : CircuitConfig) (cs : List Call) → IsBounded (run (new_breaker cfg) cs)
run-new_breaker-IsBounded cfg cs = run-IsBounded (new_breaker cfg) cs (new_breaker-IsBounded cfg)
