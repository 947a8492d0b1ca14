-- ===== src/Resilience/Breaker/Trip.antt =====
-- When a breaker trips, and how it recovers.
use llm_api_gateway.Prelude.{
  ℕ, suc, zero, ◌+◌, ◌≡◌, refl, pos, leb_ℤ, List, [], ◌∷◌, map, length, arith, if◌then◌else◌,
  replicate,
}
use llm_api_gateway.Resilience.Breaker.{
  closed, opened, half_open, Breaker, record_success, record_failure,
}
use llm_api_gateway.Resilience.Breaker.Invariant.{
  succeeds, fails, step, run, IsBounded, step-IsBounded,
}

run-fails_opened : (b : Breaker) (ts : List ℕ) → b.state ≡ opened → run b (map fails ts) ≡ b
unfolding run step record_failure
run-fails_opened b [] o = refl
run-fails_opened b (t ∷ ts) o = ground (arith, run-fails_opened b ts o)

-- A closed breaker that keeps the invariant `IsBounded` is opened by consecutive failures exactly
-- when they bring its count to the failure threshold, at whatever times they come; until then it
-- stays closed.
pub run-fails :
    (b : Breaker) (ts : List ℕ)
    → IsBounded b
    → b.state ≡ closed
    → (run b (map fails ts)).state
      ≡ (if leb_ℤ b.cfg.failure_threshold (pos (b.failures + length ts)) then opened else closed)
unfolding run step record_failure
run-fails b [] v c = ground arith
run-fails b (t ∷ ts) v c = ground (
  arith,
  run-fails_opened (record_failure t b) ts,
  step-IsBounded b (fails t) v,
  run-fails (record_failure t b) ts,
)

run-succeeds_closed :
    (k : ℕ) (b : Breaker) → b.state ≡ closed → (run b (replicate k succeeds)).state ≡ closed
unfolding run step record_success
run-succeeds_closed zero b c = c
run-succeeds_closed (suc k) b c = ground (arith, run-succeeds_closed k (record_success b))

-- A half-open breaker that keeps the invariant `IsBounded` is closed by successful calls exactly
-- when they bring its count of successes to `half_open_max`; until then it stays half-open.
pub run-succeeds :
    (k : ℕ) (b : Breaker)
    → IsBounded b
    → b.state ≡ half_open
    → (run b (replicate k succeeds)).state
      ≡ (if leb_ℤ b.cfg.half_open_max (pos (b.successes + k)) then closed else half_open)
unfolding run step record_success
run-succeeds zero b v h = ground arith
run-succeeds (suc k) b v h = ground (
  arith,
  run-succeeds_closed k (record_success b),
  step-IsBounded b succeeds v,
  run-succeeds k (record_success b),
)
