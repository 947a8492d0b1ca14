-- ===== src/Resilience/Breaker.antt =====
-- internal/resilience/circuit.go. A method that mutates `*Breaker` returns the new record; the
-- mutex makes each method one step. `time.Now()` is the argument `now`, in nanoseconds, and
-- `time.Since(t) >= d` is written `t + d <= now`. The counters are never negative: `failures` and
-- `successes` are only reset and incremented, and `half_open_pend--` is clamped at 0 by the code,
-- which is what `-` on ℕ does.
pub mod Invariant
pub mod Trip
pub mod Probe
pub mod Reload
use llm_api_gateway.Prelude.{
  ℕ, ◌+◌, ◌-◌, Bool, true, false, ℤ, pos, pos_part, neg_part, leb, leb_ℤ, ltb_ℤ, ◌&&◌,
  if◌then◌else◌,
}

pub data State : Type 0 where
  closed opened half_open : State

-- Fields as the configuration gives them, so possibly zero or negative.
pub record CircuitConfig : Type 0 where
  pub failure_threshold : ℤ
  pub open_timeout : ℤ
  pub half_open_max : ℤ

abbrev pub default_circuit_config : CircuitConfig
default_circuit_config = record {
  failure_threshold = pos 5;
  open_timeout = pos 30_000_000_000;
  half_open_max = pos 1;
}

pub record Breaker : Type 0 where
  pub cfg : CircuitConfig
  pub state : State
  pub failures : ℕ
  pub successes : ℕ
  pub last_opened_at : ℕ
  pub half_open_pend : ℕ

-- `if x <= 0 { x = d }`
abbrev pub or_default : ℤ → ℤ → ℤ
or_default x d = if leb_ℤ x (pos 0) then d else x

unfoldable pub new_breaker : CircuitConfig → Breaker
new_breaker cfg = record {
  cfg = record {
    failure_threshold = or_default cfg.failure_threshold (pos 5);
    open_timeout = or_default cfg.open_timeout (pos 30_000_000_000);
    half_open_max = or_default cfg.half_open_max (pos 1);
  };
  state = closed;
  failures = 0;
  successes = 0;
  last_opened_at = 0;
  half_open_pend = 0;
}

-- `time.Since(b.lastOpenedAt) >= b.cfg.OpenTimeout`
abbrev pub timeout_over : ℕ → Breaker → Bool
timeout_over now b =
    leb (b.last_opened_at + pos_part b.cfg.open_timeout) (now + neg_part b.cfg.open_timeout)

allow_in : State → ℕ → Breaker → Breaker × Bool
allow_in closed now b = (b, true)
allow_in opened now b =
    if timeout_over now b
    then (record b { state = half_open; half_open_pend = 1; successes = 0 }, true)
    else (b, false)
allow_in half_open now b =
    if leb_ℤ b.cfg.half_open_max (pos b.half_open_pend)
    then (b, false)
    else (record b { half_open_pend = b.half_open_pend + 1 }, true)

unfoldable pub allow : ℕ → Breaker → Breaker × Bool
unfolding allow_in
allow now b = allow_in b.state now b

-- `if b.successes >= b.cfg.HalfOpenMax { ... }`, after the increment
close_if_enough : Breaker → Breaker
close_if_enough b =
    if leb_ℤ b.cfg.half_open_max (pos b.successes)
    then record b { state = closed; failures = 0; successes = 0 }
    else b

record_success_in : State → Breaker → Breaker
unfolding close_if_enough
record_success_in closed b = record b { failures = 0 }
record_success_in half_open b =
    let counted = close_if_enough (record b { successes = b.successes + 1 }) in
    record counted { half_open_pend = counted.half_open_pend - 1 }
record_success_in opened b = b

unfoldable pub record_success : Breaker → Breaker
unfolding record_success_in
record_success b = record_success_in b.state b

record_failure_in : State → ℕ → Breaker → Breaker
record_failure_in closed now b =
    let counted = record b { failures = b.failures + 1 } in
    if leb_ℤ b.cfg.failure_threshold (pos counted.failures)
    then record counted { state = opened; last_opened_at = now }
    else counted
record_failure_in half_open now b = record b {
  state = opened;
  last_opened_at = now;
  half_open_pend = b.half_open_pend - 1;
  successes = 0;
}
record_failure_in opened now b = b

unfoldable pub record_failure : ℕ → Breaker → Breaker
unfolding record_failure_in
record_failure now b = record_failure_in b.state now b

abbrev is_opened : State → Bool
is_opened opened = true
is_opened _ = false

-- `State()` moves an open breaker on, without admitting anything.
unfoldable pub state_of : ℕ → Breaker → Breaker × State
state_of now b =
    let b' =
      if is_opened b.state && timeout_over now b
      then record b { state = half_open; half_open_pend = 0; successes = 0 }
      else b in
    (b', b'.state)

unfoldable pub reset : Breaker → Breaker
reset b = record b { state = closed; failures = 0; successes = 0; half_open_pend = 0 }

-- `if new > 0 { old = new }`
abbrev pub if_positive : ℤ → ℤ → ℤ
if_positive new old = if ltb_ℤ (pos 0) new then new else old

unfoldable pub update_config : CircuitConfig → Breaker → Breaker
update_config cfg b = record b {
  cfg = record {
    failure_threshold = if_positive cfg.failure_threshold b.cfg.failure_threshold;
    open_timeout = if_positive cfg.open_timeout b.cfg.open_timeout;
    half_open_max = if_positive cfg.half_open_max b.cfg.half_open_max;
  };
}
