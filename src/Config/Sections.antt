-- ===== src/Config/Sections.antt =====
-- What holds of each section of a configuration that passes its checks.
use llm_api_gateway.Prelude.{
  ℕ, zero, suc, ◌≤◌, ◌<◌, ◌≡◌, refl, Bool, true, false, ◌⊎◌, ℤ, pos, negsuc, pos_part, ◌≤ℤ◌, String,
  Option, none, some, List, [], ◌∷◌, All, Dict, lookup, arith, All-map, is_missing, ◌≢◌, eq_iff,
}
use llm_api_gateway.Ratelimit.Override.{RateLimitOverride}
use llm_api_gateway.Config.{
  ServerConfig, ProviderConfig, RateLimitConfig, ResilienceConfig, CacheConfig, WeightedEntry,
  provider_name, AdminConfig,
}
use llm_api_gateway.Config.Defaults.{
  if_zero, server_defaults, rate_limit_defaults, retry_defaults, circuit_defaults, hedge_defaults,
  resilience_defaults, cache_defaults, admin_defaults,
}
use llm_api_gateway.Config.Checks.{ConfigError, check, and_then, check_all, is_negative, unexpanded}
use llm_api_gateway.Config.Validate.{
  validate_server, validate_override, validate_rates, is_empty, validate_provider,
  validate_fallback, validate_resilience, validate_alias, validate_cache, validate_entry, total_of,
  validate_weights, validate_admin,
}

pub check-passed :
    (t : Bool) (e : ConfigError) (rest : Option ConfigError)
    → check t e rest ≡ none
    → (t ≡ false) × (rest ≡ none)
unfolding check
check-passed true e rest h = cc
check-passed false e rest h = (refl, h)

pub and_then-passed : (a b : Option ConfigError) → and_then a b ≡ none → (a ≡ none) × (b ≡ none)
unfolding and_then
and_then-passed none b h = (refl, h)
and_then-passed (some e) b h = cc

pub check_all-passed :
    {A : Type 0} (f : A → Option ConfigError) (xs : List A)
    → check_all f xs ≡ none
    → All (λ x. f x ≡ none) xs
unfolding check_all
check_all-passed f [] h = tt
check_all-passed f (x ∷ xs) h =
    let (a, b) = and_then-passed (f x) (check_all f xs) h in (a, check_all-passed f xs b)

abbrev pub IsPositive : ℤ → Type 0
IsPositive n = 0 < pos_part n

pub if_zero-IsPositive :
    (d : ℕ) (n : ℤ) → 0 < d → is_negative (if_zero d n) ≡ false → IsPositive (if_zero d n)
unfolding if_zero
if_zero-IsPositive d (pos zero) h k = h
if_zero-IsPositive d (pos (suc n)) h k = omega arith
if_zero-IsPositive d (negsuc n) h k = ground arith

-- A number in a range of ports.
abbrev pub IsPort : ℤ → Type 0
IsPort n = (0 < pos_part n) × (pos_part n ≤ 65535)

pub record IsServed (c : ServerConfig) : Type 0 where
  pub port : IsPort c.port
  pub read_timeout : IsPositive c.read_timeout
  pub write_timeout : IsPositive c.write_timeout

pub record IsLimited (c : RateLimitConfig) : Type 0 where
  pub requests_per_minute : IsPositive c.requests_per_minute
  pub burst : IsPositive c.burst
  pub overrides : All (λ (o : RateLimitOverride). (pos 0 ≤ℤ o.rpm) × (pos 0 ≤ℤ o.burst)) c.overrides

pub record IsResilient (c : ResilienceConfig) : Type 0 where
  pub max_attempts : IsPositive c.retry.max_attempts
  pub base_delay : IsPositive c.retry.base_delay
  pub max_delay : IsPositive c.retry.max_delay
  pub failure_threshold : IsPositive c.circuit.failure_threshold
  pub open_timeout : IsPositive c.circuit.open_timeout
  pub hedge_delay : IsPositive c.hedge.delay

pub record IsCaching (c : CacheConfig) : Type 0 where
  pub ttl : IsPositive c.ttl
  pub max_size : IsPositive c.max_size
  pub threshold : IsPositive c.semantic_threshold × (pos_part c.semantic_threshold ≤ 1_000_000)
  pub top_k : IsPositive c.semantic_top_k
  pub max_entries : IsPositive c.semantic_max_entries

-- A name under which a provider is configured.
abbrev pub IsKnown : Dict ProviderConfig → String → Type 0
IsKnown ps name = is_missing (lookup name ps) ≡ false

-- The entries of one model: at least one, each of a known provider and with a positive weight.
abbrev pub IsWeighted : Dict ProviderConfig → List WeightedEntry → Type 0
IsWeighted ps entries =
    (0 < total_of entries) × All (λ e. IsKnown ps (provider_name e) × IsPositive e.weight) entries

pub server-IsServed :
    (c : ServerConfig) → validate_server (server_defaults c) ≡ none → IsServed (server_defaults c)
unfolding validate_server server_defaults check
server-IsServed c h = record {
  port = ground arith;
  read_timeout = ground arith;
  write_timeout = ground arith;
}

pub validate_override-passed :
    (o : RateLimitOverride) → validate_override o ≡ none → (pos 0 ≤ℤ o.rpm) × (pos 0 ≤ℤ o.burst)
unfolding validate_override check
validate_override-passed o h = ground arith

pub rates-IsLimited :
    (c : RateLimitConfig)
    → validate_rates (rate_limit_defaults c) ≡ none
    → IsLimited (rate_limit_defaults c)
unfolding validate_rates rate_limit_defaults check
rates-IsLimited c h = record {
  requests_per_minute = ground (arith, if_zero-IsPositive 60 c.requests_per_minute);
  burst = ground (arith, if_zero-IsPositive 10 c.burst);
  overrides =
      All-map validate_override-passed c.overrides
        (check_all-passed validate_override c.overrides (ground arith));
}

pub resilience-IsResilient :
    (c : ResilienceConfig)
    → validate_resilience (resilience_defaults c) ≡ none
    → IsResilient (resilience_defaults c)
unfolding validate_resilience resilience_defaults retry_defaults circuit_defaults hedge_defaults
    check
resilience-IsResilient c h = record {
  max_attempts = ground (arith, if_zero-IsPositive 3 c.retry.max_attempts);
  base_delay = ground (arith, if_zero-IsPositive 200_000_000 c.retry.base_delay);
  max_delay = ground (arith, if_zero-IsPositive 2_000_000_000 c.retry.max_delay);
  failure_threshold = ground (arith, if_zero-IsPositive 5 c.circuit.failure_threshold);
  open_timeout = ground (arith, if_zero-IsPositive 30_000_000_000 c.circuit.open_timeout);
  hedge_delay = ground (arith, if_zero-IsPositive 300_000_000 c.hedge.delay);
}

pub cache-IsCaching :
    (c : CacheConfig) → validate_cache (cache_defaults c) ≡ none → IsCaching (cache_defaults c)
unfolding validate_cache cache_defaults check
cache-IsCaching c h = record {
  ttl = ground (arith, if_zero-IsPositive 300_000_000_000 c.ttl);
  max_size = ground (arith, if_zero-IsPositive 1000 c.max_size);
  threshold = (ground (arith, if_zero-IsPositive 970_000 c.semantic_threshold), ground arith);
  top_k = ground (arith, if_zero-IsPositive 3 c.semantic_top_k);
  max_entries = ground (arith, if_zero-IsPositive 1000 c.semantic_max_entries);
}

pub validate_provider-passed :
    (p : String × ProviderConfig)
    → validate_provider p ≡ none
    → IsPositive p.1.timeout × ((unexpanded p.1.api_key ≡ true) ⊎ (p.1.base_url ≢ ""))
unfolding validate_provider check
validate_provider-passed (name, p) h = (ground arith, ground (arith, eq_iff p.base_url ""))

pub validate_fallback-passed :
    (ps : Dict ProviderConfig) (name : String) → validate_fallback ps name ≡ none → IsKnown ps name
unfolding validate_fallback check
validate_fallback-passed ps name h = ground arith

pub validate_alias-passed :
    (a : String × List String) → validate_alias a ≡ none → is_empty a.1 ≡ false
unfolding validate_alias check
validate_alias-passed (alias, targets) h = ground arith

pub validate_entry-passed :
    (ps : Dict ProviderConfig) (e : WeightedEntry)
    → validate_entry ps e ≡ none
    → IsKnown ps (provider_name e) × IsPositive e.weight
unfolding validate_entry check
validate_entry-passed ps e h = (ground arith, ground arith)

pub validate_weights-passed :
    (ps : Dict ProviderConfig) (w : String × List WeightedEntry)
    → validate_weights ps w ≡ none
    → IsWeighted ps w.1
unfolding validate_weights
validate_weights-passed ps (model, es) h =
    let a = check-passed _ _ _ h in
    let b = check-passed _ _ _ a.1 in
    let (c, d) = and_then-passed _ _ b.1 in
    (
      ground (arith, check-passed _ _ _ d),
      All-map (validate_entry-passed ps) es (check_all-passed (validate_entry ps) es c),
    )

pub admin-IsPort :
    (env : String) (c : AdminConfig)
    → validate_admin (admin_defaults env c) ≡ none
    → IsPort (admin_defaults env c).port
unfolding validate_admin admin_defaults check if_zero
admin-IsPort env c h = ground arith
