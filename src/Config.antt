-- ===== src/Config.antt =====
-- internal/config/config.go: the configuration of the gateway. A `time.Duration` is in nanoseconds;
-- amounts in USD are in units of 10^-12 USD and the threshold in millionths, where the code has
-- floats. A Go map is a dictionary in the order in which its keys are visited. Reading the file,
-- expanding its variables, YAML and `Watch` are not modelled.
pub mod Defaults
pub mod Checks
pub mod Validate
pub mod Sections
pub mod Sound
pub mod Limits
pub mod Again
use llm_api_gateway.Prelude.{ℕ, Bool, ℤ, String, str_eq, Option, List, Dict, if◌then◌else◌}
use llm_api_gateway.Ratelimit.Override.{RateLimitOverride}
use llm_api_gateway.Pricing.{RuleConfig}
use llm_api_gateway.Auth.{ApiKeyConfig}

pub record ServerConfig : Type 0 where
  pub port : ℤ
  pub read_timeout : ℤ
  pub write_timeout : ℤ

pub record ProviderConfig : Type 0 where
  pub api_key : String
  pub base_url : String
  pub timeout : ℤ
  pub models : List String

pub record PricingConfig : Type 0 where
  pub currency : String
  pub version : String
  pub unknown_model_policy : String
  pub catalog : List RuleConfig

pub record BudgetConfig : Type 0 where
  pub enabled : Bool
  pub monthly_tokens : ℤ
  pub monthly_usd : ℤ
  pub cost_per_token_usd : ℤ
  pub pricing : PricingConfig

pub record RateLimitConfig : Type 0 where
  pub enabled : Bool
  pub requests_per_minute : ℤ
  pub burst : ℤ
  pub redis_url : String
  pub token_aware : Bool
  pub overrides : List RateLimitOverride
  pub budget : Option BudgetConfig

pub record LoggingConfig : Type 0 where
  pub level : String
  pub format : String

pub record AuthConfig : Type 0 where
  pub enabled : Bool
  pub keys : List ApiKeyConfig

pub record RetryConfig : Type 0 where
  pub max_attempts : ℤ
  pub base_delay : ℤ
  pub max_delay : ℤ

pub record CircuitConfig : Type 0 where
  pub failure_threshold : ℤ
  pub open_timeout : ℤ

pub record HedgeConfig : Type 0 where
  pub enabled : Bool
  pub delay : ℤ

pub record ResilienceConfig : Type 0 where
  pub retry : RetryConfig
  pub circuit : CircuitConfig
  pub hedge : HedgeConfig

pub record CacheConfig : Type 0 where
  pub enabled : Bool
  pub ttl : ℤ
  pub max_size : ℤ
  pub semantic_enabled : Bool
  pub semantic_threshold : ℤ
  pub semantic_embedding_model : String
  pub semantic_top_k : ℤ
  pub semantic_max_entries : ℤ

pub record HealthConfig : Type 0 where
  pub readiness_cache_ttl : ℤ
  pub check_timeout : ℤ
  pub provider_timeout : ℤ
  pub skip_expensive_checks : Bool

pub record WeightedEntry : Type 0 where
  pub provider : String
  pub name : String
  pub weight : ℤ

-- `ProviderName`
unfoldable pub provider_name : WeightedEntry → String
provider_name w = if str_eq w.provider "" then w.name else w.provider

pub record AdminConfig : Type 0 where
  pub port : ℤ
  pub api_key : String

-- `RoutingConfig` has the one field `weighted`, and `CORSConfig` the one field `allowed_origins`.
pub record Config : Type 0 where
  pub server : ServerConfig
  pub providers : Dict ProviderConfig
  pub fallback_chain : List String
  pub rate_limit : RateLimitConfig
  pub logging : LoggingConfig
  pub allowed_origins : List String
  pub auth : AuthConfig
  pub resilience : ResilienceConfig
  pub model_aliases : Dict (List String)
  pub cache : CacheConfig
  pub health : HealthConfig
  pub weighted : Dict (List WeightedEntry)
  pub admin : AdminConfig
