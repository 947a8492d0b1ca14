-- ===== src/Config/Sound.antt =====
-- What holds of a configuration that has been loaded.
use llm_api_gateway.Prelude.{
  ℕ, ◌≡◌, refl, Bool, true, false, ◌⊎◌, String, Option, none, some, All, All-map, ◌≢◌, subst,
}
use llm_api_gateway.Config.{Config}
use llm_api_gateway.Config.Defaults.{provider_defaults, set_defaults}
use llm_api_gateway.Config.Checks.{ConfigError, unexpanded}
use llm_api_gateway.Config.Validate.{
  is_empty, validate_providers, validate_fallback, validate_alias, validate_weights, validate,
  loaded, unless_rejected, load,
}
use llm_api_gateway.Config.Sections.{
  check-passed, and_then-passed, check_all-passed, IsPositive, IsServed, IsLimited, IsResilient,
  IsCaching, server-IsServed, rates-IsLimited, resilience-IsResilient, cache-IsCaching,
  validate_provider-passed, validate_fallback-passed, validate_alias-passed,
  validate_weights-passed, admin-IsPort, IsPort, IsKnown, IsWeighted,
}

pub record IsSound (c : Config) : Type 0 where
  pub server : IsServed c.server
  pub limits : IsLimited c.rate_limit
  pub some_provider : is_empty c.providers ≡ false
  pub timeouts : All (λ p. IsPositive p.1.timeout) c.providers
  pub urls : All (λ p. (unexpanded p.1.api_key ≡ true) ⊎ (p.1.base_url ≢ "")) c.providers
  pub fallbacks : All (IsKnown c.providers) c.fallback_chain
  pub resilience : IsResilient c.resilience
  pub aliases : All (λ a. is_empty a.1 ≡ false) c.model_aliases
  pub cache : IsCaching c.cache
  pub weighted : All (λ w. IsWeighted c.providers w.1) c.weighted
  pub admin : IsPort c.admin.port

validate-IsSound :
    (is_zero_time : ℕ → Bool) (env : String) (c : Config)
    → validate is_zero_time (set_defaults env c) ≡ none
    → IsSound (set_defaults env c)
unfolding validate set_defaults validate_providers
validate-IsSound is_zero_time env c h =
    let ps = provider_defaults c.providers in
    let (server, h1) = and_then-passed _ _ h in
    let (logging, h2) = and_then-passed _ _ h1 in
    let (rates, h3) = and_then-passed _ _ h2 in
    let (budget, h4) = and_then-passed _ _ h3 in
    let (providers, h5) = and_then-passed _ _ h4 in
    let (fallbacks, h6) = and_then-passed _ _ h5 in
    let (auth, h7) = and_then-passed _ _ h6 in
    let (resilience, h8) = and_then-passed _ _ h7 in
    let (aliases, h9) = and_then-passed _ _ h8 in
    let (cache, h10) = and_then-passed _ _ h9 in
    let (health, h11) = and_then-passed _ _ h10 in
    let (weighted, admin) = and_then-passed _ _ h11 in
    let (nonempty, each) = check-passed _ _ _ providers in
    let all_passed = All-map validate_provider-passed ps (check_all-passed _ ps each) in
    record {
      server = server-IsServed c.server server;
      limits = rates-IsLimited c.rate_limit rates;
      some_provider = nonempty;
      timeouts = All-map (λ p q. q.0) ps all_passed;
      urls = All-map (λ p q. q.1) ps all_passed;
      fallbacks =
          All-map (validate_fallback-passed ps) c.fallback_chain
            (check_all-passed (validate_fallback ps) c.fallback_chain fallbacks);
      resilience = resilience-IsResilient c.resilience resilience;
      aliases =
          All-map validate_alias-passed c.model_aliases
            (check_all-passed validate_alias c.model_aliases aliases);
      cache = cache-IsCaching c.cache cache;
      weighted =
          All-map (validate_weights-passed ps) c.weighted
            (check_all-passed (validate_weights ps) c.weighted weighted);
      admin = admin-IsPort env c.admin admin;
    }

pub unless_rejected-loaded :
    (c full : Config) (o : Option ConfigError)
    → unless_rejected c o ≡ loaded full
    → (o ≡ none) × (c ≡ full)
unfolding unless_rejected
unless_rejected-loaded c full none h = (refl, cc)
unless_rejected-loaded c full (some e) h = cc

-- A configuration that loads is sound: its ports are ports, its server, provider, retry, breaker, hedge and cache
-- settings are positive and its similarity threshold is at most one, both limits are positive (also when rate limiting is disabled) and no override is negative,
-- there is a provider, and every provider with a usable key has a URL; every fallback and every
-- weighted entry names a configured provider, each weight and each sum of weights is positive,
-- and no alias is without targets.
pub load-IsSound :
    (is_zero_time : ℕ → Bool) (env : String) (c full : Config)
    → load is_zero_time env c ≡ loaded full
    → IsSound full
unfolding load
load-IsSound is_zero_time env c full h =
    let (passed, same) = unless_rejected-loaded _ full _ h in
    subst IsSound same (validate-IsSound is_zero_time env c passed)
