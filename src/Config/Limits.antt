-- ===== src/Config/Limits.antt =====
-- The limits that a loaded configuration gives to a request.
use llm_api_gateway.Prelude.{
  ℕ, ◌≡◌, Bool, true, false, ℤ, pos, String, Option, none, List, [], ◌∷◌, arith, if◌then◌else◌,
}
use llm_api_gateway.Ratelimit.Bucket.{take, refill}
use llm_api_gateway.Ratelimit.Limiter.{Limiter, entry_of, allow_with_limits}
use llm_api_gateway.Ratelimit.Override.{
  RateLimitOverride, Best, applies, consider, resolve_loop, resolve, new_override_store,
}
use llm_api_gateway.Config.{Config}
use llm_api_gateway.Config.Validate.{load, loaded}
use llm_api_gateway.Config.Sections.{IsPositive}
use llm_api_gateway.Config.Sound.{IsSound, load-IsSound}

module _ (path_match : String → String → Option Bool) (tenant model : String) where
  consider-IsPositive :
      (ov : RateLimitOverride) (b : Best)
      → IsPositive b.rpm × IsPositive b.burst
      → let b' = consider path_match tenant model ov b in IsPositive b'.rpm × IsPositive b'.burst
  unfolding consider
  consider-IsPositive ov b h = (ground arith, ground arith)

  step-IsPositive :
      (ov : RateLimitOverride) (b : Best) (t : Bool)
      → IsPositive b.rpm × IsPositive b.burst
      → let b' = if t then consider path_match tenant model ov b else b in
        IsPositive b'.rpm × IsPositive b'.burst
  step-IsPositive ov b true h = consider-IsPositive ov b h
  step-IsPositive ov b false h = h

  resolve_loop-IsPositive :
      (ovs : List RateLimitOverride) (b : Best)
      → IsPositive b.rpm × IsPositive b.burst
      → let b' = resolve_loop path_match tenant model ovs b in
        IsPositive b'.rpm × IsPositive b'.burst
  unfolding resolve_loop
  resolve_loop-IsPositive [] b h = h
  resolve_loop-IsPositive (ov ∷ ovs) b h =
      resolve_loop-IsPositive ovs _ (step-IsPositive ov b (applies path_match tenant model ov) h)

  -- The limits that the overrides of a configuration give to a tenant and a model.
  abbrev pub limits_of : Config → ℤ × ℤ
  limits_of c =
      let r = c.rate_limit in
      resolve path_match tenant model (new_override_store r.requests_per_minute r.burst r.overrides)

  limits_of-IsPositive :
      (c : Config) → IsSound c → IsPositive (limits_of c).0 × IsPositive (limits_of c).1
  unfolding resolve new_override_store
  limits_of-IsPositive c h =
      resolve_loop-IsPositive c.rate_limit.overrides _
        (h.limits.requests_per_minute, h.limits.burst)

  -- Under a configuration that loads, whatever its overrides, the limits of every tenant for every
  -- model are positive, so that the first request for one token under a key is allowed.
  pub load-first_request :
      (is_zero_time : ℕ → Bool) (env : String) (c full : Config) (hash : String → ℕ) (now : ℕ)
      (key : String) (l : Limiter)
      → load is_zero_time env c ≡ loaded full
      → entry_of hash key l ≡ none
      → let (rpm, burst) = limits_of full in
        IsPositive rpm
        × IsPositive burst
        × ((allow_with_limits hash now key (pos 1) rpm burst l).1 ≡ true)
  unfolding allow_with_limits take refill
  load-first_request is_zero_time env c full hash now key l h k =
      let (rpm, burst) = limits_of-IsPositive full (load-IsSound is_zero_time env c full h) in
      (rpm, burst, ground arith)
