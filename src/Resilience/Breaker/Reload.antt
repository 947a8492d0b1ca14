-- ===== src/Resilience/Breaker/Reload.antt =====
-- Every history of calls on a breaker whose configuration may change.
use llm_api_gateway.Prelude.{suc, ◌≡◌, pos, ◌≤ℤ◌, ℤ, List, [], ◌∷◌, All, arith}
use llm_api_gateway.Resilience.Breaker.{
  closed, opened, half_open, CircuitConfig, Breaker, new_breaker, allow, record_success,
  record_failure, state_of, reset, update_config,
}
use llm_api_gateway.Resilience.Breaker.Invariant.{
  Call, allows, succeeds, fails, observes, resets, step, IsPositive,
}

-- A call on the breaker, or a new configuration.
pub data Event : Type 0 where
  calls : Call → Event
  updates : CircuitConfig → Event

unfoldable pub apply : Breaker → Event → Breaker
unfolding step
apply b (calls c) = step b c
apply b (updates cfg) = update_config cfg b

unfoldable pub run : Breaker → List Event → Breaker
unfolding apply
run b [] = b
run b (e ∷ es) = run (apply b e) es

-- The thresholds of a configuration are at most `f` failures and `h` probes.
pub record IsWithin (f h : ℤ) (cfg : CircuitConfig) : Type 0 where
  pub failure_threshold : cfg.failure_threshold ≤ℤ f
  pub half_open_max : cfg.half_open_max ≤ℤ h

-- What a new configuration asks for is at most that.
abbrev pub UpdateWithin : ℤ → ℤ → Event → Type 0
UpdateWithin f h (calls c) = Unit
UpdateWithin f h (updates cfg) = IsWithin f h cfg

-- The thresholds in force are positive and at most `f` and `h`; a closed breaker is short of `f`
-- failures, a half-open one is short of `h` successes and has at most `h` probes in flight, and only
-- a half-open one counts successes.
pub record IsCapped (f h : ℤ) (b : Breaker) : Type 0 where
  pub positive : IsPositive b.cfg
  pub within : IsWithin f h b.cfg
  pub short_of_failures : b.state ≡ closed → pos (suc b.failures) ≤ℤ f
  pub short_of_successes : b.state ≡ half_open → pos (suc b.successes) ≤ℤ h
  pub probes : b.state ≡ half_open → pos b.half_open_pend ≤ℤ h
  pub counts_closed : b.state ≡ closed → b.successes ≡ 0
  pub counts_opened : b.state ≡ opened → b.successes ≡ 0

step-IsCapped : (f h : ℤ) (b : Breaker) (c : Call) → IsCapped f h b → IsCapped f h (step b c)
unfolding step allow record_success record_failure state_of reset
step-IsCapped f h b (allows now) v = ground arith
step-IsCapped f h b succeeds v = ground arith
step-IsCapped f h b (fails now) v = ground arith
step-IsCapped f h b (observes now) v = ground arith
step-IsCapped f h b resets v = ground arith

update_config-IsCapped :
    (f h : ℤ) (cfg : CircuitConfig) (b : Breaker)
    → IsWithin f h cfg
    → IsCapped f h b
    → IsCapped f h (update_config cfg b)
unfolding update_config
update_config-IsCapped f h cfg b w v = ground arith

run-IsCapped :
    (f h : ℤ) (b : Breaker) (es : List Event)
    → IsCapped f h b
    → All (UpdateWithin f h) es
    → IsCapped f h (run b es)
unfolding run apply
run-IsCapped f h b [] v w = v
run-IsCapped f h b (calls c ∷ es) v w = run-IsCapped f h (step b c) es (step-IsCapped f h b c v) w.1
run-IsCapped f h b (updates cfg ∷ es) v w =
    run-IsCapped f h (update_config cfg b) es (update_config-IsCapped f h cfg b w.0 v) w.1

new_breaker-IsCapped :
    (f h : ℤ) (cfg : CircuitConfig)
    → IsWithin f h (new_breaker cfg).cfg
    → IsCapped f h (new_breaker cfg)
unfolding new_breaker
new_breaker-IsCapped f h cfg w = ground arith

-- After every history of calls and of configurations that are put in force, with thresholds of at
-- most `f` failures and `h` probes, those at the start included, the thresholds of the breaker are
-- positive and no higher; if it is closed its failures are fewer than `f`, and if it is half-open
-- its successes are fewer than `h` and its probes in flight at most `h`.
pub run-new_breaker-IsCapped :
    (f h : ℤ) (cfg : CircuitConfig) (es : List Event)
    → IsWithin f h (new_breaker cfg).cfg
    → All (UpdateWithin f h) es
    → IsCapped f h (run (new_breaker cfg) es)
run-new_breaker-IsCapped f h cfg es w us =
    run-IsCapped f h (new_breaker cfg) es (new_breaker-IsCapped f h cfg w) us
