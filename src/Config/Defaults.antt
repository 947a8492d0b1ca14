-- ===== src/Config/Defaults.antt =====
-- `setDefaults` of internal/config/config.go, one function per section of the configuration.
use llm_api_gateway.Prelude.{
  ℕ, ◌*◌, ℤ, pos, negsuc, zero, suc, String, str_eq, Option, none, some, [], ◌∷◌, Dict,
  if◌then◌else◌,
}
use llm_api_gateway.Config.{
  ServerConfig, ProviderConfig, BudgetConfig, RateLimitConfig, LoggingConfig, RetryConfig,
  CircuitConfig, HedgeConfig, ResilienceConfig, CacheConfig, HealthConfig, AdminConfig, Config,
}

-- `if x == 0 { x = d }`
unfoldable pub if_zero : ℕ → ℤ → ℤ
if_zero d (pos zero) = pos d
if_zero d (pos (suc n)) = pos (suc n)
if_zero d (negsuc n) = negsuc n

-- `if s == "" { s = d }`
unfoldable pub if_empty : String → String → String
if_empty d s = if str_eq s "" then d else s

abbrev pub millisecond : ℕ
millisecond = 1_000_000

abbrev pub second : ℕ
second = 1_000_000_000

unfoldable pub server_defaults : ServerConfig → ServerConfig
server_defaults c = record {
  port = if_zero 8080 c.port;
  read_timeout = if_zero (30 * second) c.read_timeout;
  write_timeout = if_zero (60 * second) c.write_timeout;
}

unfoldable pub provider_defaults : Dict ProviderConfig → Dict ProviderConfig
provider_defaults [] = []
provider_defaults ((name, p) ∷ rest) =
    (name, record p { timeout = if_zero (30 * second) p.timeout }) ∷ provider_defaults rest

unfoldable pub budget_defaults : Option BudgetConfig → Option BudgetConfig
budget_defaults none = none
budget_defaults (some b) =
    some (record b { cost_per_token_usd = if_zero 10_000_000 b.cost_per_token_usd })

unfoldable pub rate_limit_defaults : RateLimitConfig → RateLimitConfig
rate_limit_defaults c = record c {
  requests_per_minute = if_zero 60 c.requests_per_minute;
  burst = if_zero 10 c.burst;
  budget = budget_defaults c.budget;
}

unfoldable pub logging_defaults : LoggingConfig → LoggingConfig
logging_defaults c = record { level = if_empty "info" c.level; format = if_empty "json" c.format }

unfoldable pub retry_defaults : RetryConfig → RetryConfig
retry_defaults c = record {
  max_attempts = if_zero 3 c.max_attempts;
  base_delay = if_zero (200 * millisecond) c.base_delay;
  max_delay = if_zero (2 * second) c.max_delay;
}

unfoldable pub circuit_defaults : CircuitConfig → CircuitConfig
circuit_defaults c = record {
  failure_threshold = if_zero 5 c.failure_threshold;
  open_timeout = if_zero (30 * second) c.open_timeout;
}

unfoldable pub hedge_defaults : HedgeConfig → HedgeConfig
hedge_defaults c = record c { delay = if_zero (300 * millisecond) c.delay }

unfoldable pub resilience_defaults : ResilienceConfig → ResilienceConfig
resilience_defaults c = record {
  retry = retry_defaults c.retry;
  circuit = circuit_defaults c.circuit;
  hedge = hedge_defaults c.hedge;
}

unfoldable pub cache_defaults : CacheConfig → CacheConfig
cache_defaults c = record c {
  ttl = if_zero (300 * second) c.ttl;
  max_size = if_zero 1000 c.max_size;
  semantic_threshold = if_zero 970_000 c.semantic_threshold;
  semantic_top_k = if_zero 3 c.semantic_top_k;
  semantic_max_entries = if_zero 1000 c.semantic_max_entries;
}

unfoldable pub health_defaults : HealthConfig → HealthConfig
health_defaults c = record c {
  readiness_cache_ttl = if_zero (15 * second) c.readiness_cache_ttl;
  check_timeout = if_zero (10 * second) c.check_timeout;
  provider_timeout = if_zero (3 * second) c.provider_timeout;
}

-- `env` is the variable ADMIN_API_KEY, empty when it is not set.
unfoldable pub admin_defaults : String → AdminConfig → AdminConfig
admin_defaults env c = record { port = if_zero 8081 c.port; api_key = if_empty env c.api_key }

unfoldable pub set_defaults : String → Config → Config
set_defaults env c = record c {
  server = server_defaults c.server;
  providers = provider_defaults c.providers;
  rate_limit = rate_limit_defaults c.rate_limit;
  logging = logging_defaults c.logging;
  resilience = resilience_defaults c.resilience;
  cache = cache_defaults c.cache;
  health = health_defaults c.health;
  admin = admin_defaults env c.admin;
}
