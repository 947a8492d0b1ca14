-- ===== src/Config/Validate.antt =====
-- `Validate` and the end of `Load` of internal/config/config.go: one function per section of the
-- configuration, in the order of the code.
use llm_api_gateway.Prelude.{
  ℕ, ◌+◌, Bool, true, false, not, ◌&&◌, ◌||◌, pos, pos_part, ◌==◌, ltb_ℤ, String, str_eq, Option,
  none, some, List, [], ◌∷◌, Dict, lookup, is_missing,
}
use llm_api_gateway.Ratelimit.Override.{RateLimitOverride}
use llm_api_gateway.Pricing.{RuleConfig}
use llm_api_gateway.Auth.{ApiKeyConfig}
use llm_api_gateway.Config.{
  ServerConfig, ProviderConfig, PricingConfig, BudgetConfig, RateLimitConfig, LoggingConfig,
  AuthConfig, ResilienceConfig, CacheConfig, HealthConfig, WeightedEntry, provider_name,
  AdminConfig, Config,
}
use llm_api_gateway.Config.Checks.{
  ConfigError, check, and_then, check_all, is_negative, is_zero, not_positive, not_port, unexpanded,
  server_port, read_timeout, write_timeout, logging_level, logging_format, rate_negative,
  burst_negative, rate_missing, burst_missing, override_negative, budget_tokens, budget_usd,
  budget_cost, currency, policy, rule_incomplete, rule_negative, rule_free, providers_missing,
  base_url, provider_timeout, fallback_unknown, keys_missing, key_missing, key_expiry, max_attempts,
  retry_delay, failure_threshold, open_timeout, hedge_delay, alias_unnamed, alias_empty, cache_ttl,
  cache_size, threshold, embedding_model, top_k, max_entries, health_timeout, weighted_unnamed,
  weighted_empty, entry_unnamed, entry_unknown, entry_weight, total_weight, admin_port,
}
use llm_api_gateway.Config.Defaults.{set_defaults}

unfoldable pub validate_server : ServerConfig → Option ConfigError
validate_server c = check (not_port c.port) server_port (
    check (not_positive c.read_timeout) read_timeout
      (check (not_positive c.write_timeout) write_timeout none))

unfoldable pub is_level : String → Bool
is_level s = str_eq s "debug" || str_eq s "info" || str_eq s "warn" || str_eq s "error"

unfoldable pub validate_logging : LoggingConfig → Option ConfigError
validate_logging c = check (not (str_eq c.level "") && not (is_level c.level)) logging_level (
    check (not (str_eq c.format "") && not (str_eq c.format "json") && not (str_eq c.format "text"))
      logging_format none)

unfoldable pub validate_override : RateLimitOverride → Option ConfigError
validate_override ov = check (is_negative ov.rpm || is_negative ov.burst) override_negative none

unfoldable pub validate_rates : RateLimitConfig → Option ConfigError
validate_rates c = check (is_negative c.requests_per_minute) rate_negative (
    check (is_negative c.burst) burst_negative (
      check (c.enabled && is_zero c.requests_per_minute) rate_missing (
        check (c.enabled && is_zero c.burst) burst_missing
          (check_all validate_override c.overrides))))

unfoldable pub validate_rule : RuleConfig → Option ConfigError
validate_rule r = check (str_eq r.provider "" || str_eq r.model "") rule_incomplete (
    check
      (is_negative r.input_per_million
        || is_negative r.output_per_million
        || is_negative r.embedding_per_million)
      rule_negative
      (check
        (is_zero r.input_per_million
          && is_zero r.output_per_million
          && is_zero r.embedding_per_million)
        rule_free none))

unfoldable pub validate_pricing : PricingConfig → Option ConfigError
validate_pricing p = check (not (str_eq p.currency "") && not (str_eq p.currency "USD")) currency (
    check
      (not (str_eq p.unknown_model_policy "")
        && not (str_eq p.unknown_model_policy "fallback")
        && not (str_eq p.unknown_model_policy "reject"))
      policy (check_all validate_rule p.catalog))

unfoldable pub validate_budget : Option BudgetConfig → Option ConfigError
validate_budget none = none
validate_budget (some b) = check (b.enabled && is_negative b.monthly_tokens) budget_tokens (
    check (b.enabled && is_negative b.monthly_usd) budget_usd (
      check (b.enabled && is_negative b.cost_per_token_usd) budget_cost
        (validate_pricing b.pricing)))

unfoldable pub validate_provider : String × ProviderConfig → Option ConfigError
validate_provider (name, p) =
    check (str_eq p.base_url "" && not (unexpanded p.api_key)) base_url
      (check (not_positive p.timeout) provider_timeout none)

unfoldable pub is_empty : {A : Type 0} → List A → Bool
is_empty [] = true
is_empty (x ∷ xs) = false

unfoldable pub validate_providers : Dict ProviderConfig → Option ConfigError
validate_providers ps = check (is_empty ps) providers_missing (check_all validate_provider ps)

unfoldable pub validate_fallback : Dict ProviderConfig → String → Option ConfigError
validate_fallback ps name = check (is_missing (lookup name ps)) fallback_unknown none

-- `is_zero_time` is `IsZero` of an expiry.
unfoldable pub validate_key : (ℕ → Bool) → Bool → ApiKeyConfig → Option ConfigError
validate_key is_zero_time enabled k =
    check (unexpanded k.key && enabled) key_missing
      (check (elim k.expires_at [ none ↦ false | some t ↦ is_zero_time t ]) key_expiry none)

unfoldable pub validate_auth : (ℕ → Bool) → AuthConfig → Option ConfigError
validate_auth is_zero_time c =
    check (c.enabled && is_empty c.keys) keys_missing
      (check_all (validate_key is_zero_time c.enabled) c.keys)

unfoldable pub validate_resilience : ResilienceConfig → Option ConfigError
validate_resilience c = check (is_negative c.retry.max_attempts) max_attempts (
    check (is_negative c.retry.base_delay || is_negative c.retry.max_delay) retry_delay (
      check (is_negative c.circuit.failure_threshold) failure_threshold (
        check (is_negative c.circuit.open_timeout) open_timeout
          (check (is_negative c.hedge.delay) hedge_delay none))))

unfoldable pub validate_alias : String × List String → Option ConfigError
validate_alias (alias, targets) =
    check (str_eq alias "") alias_unnamed (check (is_empty targets) alias_empty none)

unfoldable pub validate_cache : CacheConfig → Option ConfigError
validate_cache c = check (is_negative c.ttl) cache_ttl (
    check (is_negative c.max_size) cache_size (
      check (is_negative c.semantic_threshold || ltb_ℤ (pos 1_000_000) c.semantic_threshold)
        threshold
        (check (c.semantic_enabled && str_eq c.semantic_embedding_model "") embedding_model (
          check (is_negative c.semantic_top_k) top_k
            (check (is_negative c.semantic_max_entries) max_entries none)))))

unfoldable pub validate_health : HealthConfig → Option ConfigError
validate_health c =
    check
      (is_negative c.readiness_cache_ttl
        || is_negative c.check_timeout
        || is_negative c.provider_timeout)
      health_timeout none

unfoldable pub validate_entry : Dict ProviderConfig → WeightedEntry → Option ConfigError
validate_entry ps e = check (str_eq (provider_name e) "") entry_unnamed (
    check (is_missing (lookup (provider_name e) ps)) entry_unknown
      (check (not_positive e.weight) entry_weight none))

-- `total`, of weights that are positive.
unfoldable pub total_of : List WeightedEntry → ℕ
total_of [] = 0
total_of (e ∷ es) = pos_part e.weight + total_of es

unfoldable pub validate_weights :
    Dict ProviderConfig → String × List WeightedEntry → Option ConfigError
validate_weights ps (model, entries) = check (str_eq model "") weighted_unnamed (
    check (is_empty entries) weighted_empty (
      and_then (check_all (validate_entry ps) entries)
        (check (total_of entries == 0) total_weight none)))

unfoldable pub validate_admin : AdminConfig → Option ConfigError
validate_admin c = check (not (is_zero c.port) && not_port c.port) admin_port none

unfoldable pub validate : (ℕ → Bool) → Config → Option ConfigError
validate is_zero_time c = and_then (validate_server c.server) (
    and_then (validate_logging c.logging) (
      and_then (validate_rates c.rate_limit) (
        and_then (validate_budget c.rate_limit.budget) (
          and_then (validate_providers c.providers) (
            and_then (check_all (validate_fallback c.providers) c.fallback_chain) (
              and_then (validate_auth is_zero_time c.auth) (
                and_then (validate_resilience c.resilience) (
                  and_then (check_all validate_alias c.model_aliases) (
                    and_then (validate_cache c.cache) (
                      and_then (validate_health c.health) (
                        and_then (check_all (validate_weights c.providers) c.weighted)
                          (validate_admin c.admin))))))))))))

pub data Loaded : Type 0 where
  loaded : Config → Loaded
  rejected : ConfigError → Loaded

-- `if err := cfg.Validate(); err != nil { return nil, err }`
unfoldable pub unless_rejected : Config → Option ConfigError → Loaded
unless_rejected full none = loaded full
unless_rejected full (some e) = rejected e

-- The end of `Load`, on the configuration that the file holds.
unfoldable pub load : (ℕ → Bool) → String → Config → Loaded
unfolding unless_rejected
load is_zero_time env c =
    let full = set_defaults env c in unless_rejected full (validate is_zero_time full)
