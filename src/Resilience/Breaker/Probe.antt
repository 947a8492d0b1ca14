-- ===== src/Resilience/Breaker/Probe.antt =====
-- How many calls a breaker lets through.
use llm_api_gateway.Prelude.{
  ℕ, ◌+◌, ◌-◌, ◌≡◌, refl, min, true, false, pos, pos_part, ◌≤ℤ◌, List, [], ◌∷◌, length, arith,
  if◌then◌else◌, All,
}
use llm_api_gateway.Resilience.Breaker.{opened, half_open, Breaker, allow, state_of, timeout_over}
use llm_api_gateway.Resilience.Breaker.Invariant.{
  Call, allows, observes, succeeds, fails, resets, step, run, IsBounded, step-IsBounded,
}

-- How many of the calls of `Allow` at the times `ts` return true.
unfoldable pub admitted : Breaker → List ℕ → ℕ
admitted b [] = 0
admitted b (t ∷ ts) =
    let rest = admitted (allow t b).0 ts in if (allow t b).1 then rest + 1 else rest

-- While the open timeout runs, an open breaker lets no call through.
pub admitted-opened :
    (b : Breaker) (ts : List ℕ)
    → b.state ≡ opened
    → All (λ t. timeout_over t b ≡ false) ts
    → admitted b ts ≡ 0
unfolding admitted allow
admitted-opened b [] o h = refl
admitted-opened b (t ∷ ts) o h = ground (arith, admitted-opened b ts o h.1)

admitted-half_open :
    (b : Breaker) (ts : List ℕ)
    → IsBounded b
    → b.state ≡ half_open
    → admitted b ts ≡ min (length ts) (pos_part b.cfg.half_open_max - b.half_open_pend)
unfolding admitted allow
admitted-half_open b [] v h = omega arith
admitted-half_open b (t ∷ ts) v h =
    ground (arith, step-IsBounded b (allows t) v, admitted-half_open (allow t b).0 ts)

-- When the open timeout is over, an open breaker that keeps the invariant `IsBounded` lets through
-- the next call and the calls after it, until `half_open_max` of them are in flight, and no more.
pub admitted-timeout_over :
    (b : Breaker) (t : ℕ) (ts : List ℕ)
    → IsBounded b
    → b.state ≡ opened
    → timeout_over t b ≡ true
    → admitted b (t ∷ ts) ≡ min (length (t ∷ ts)) (pos_part b.cfg.half_open_max)
unfolding admitted allow
admitted-timeout_over b t ts v o h =
    ground (arith, step-IsBounded b (allows t) v, admitted-half_open (allow t b).0 ts)

-- The calls that report no outcome: `Allow` and `State`.
abbrev pub IsQuery : Call → Type 0
IsQuery (allows t) = Unit {0}
IsQuery (observes t) = Unit {0}
IsQuery _ = ⊥

-- A half-open breaker whose probes are all in flight stays as it is, and refuses every call, for
-- as long as only `Allow` and `State` are called: no passage of time frees a probe whose outcome is
-- lost.
pub run-queries :
    (b : Breaker) (cs : List Call) (t : ℕ)
    → b.state ≡ half_open
    → b.cfg.half_open_max ≤ℤ pos b.half_open_pend
    → All IsQuery cs
    → (run b cs ≡ b) × ((allow t (run b cs)).1 ≡ false)
unfolding run step allow state_of
run-queries b [] t h full q = ground arith
run-queries b (allows u ∷ cs) t h full q = ground (arith, run-queries b cs t h full q.1)
run-queries b (observes u ∷ cs) t h full q = ground (arith, run-queries b cs t h full q.1)
run-queries b (succeeds ∷ cs) t h full q = absurd q.0
run-queries b (fails u ∷ cs) t h full q = absurd q.0
run-queries b (resets ∷ cs) t h full q = absurd q.0
