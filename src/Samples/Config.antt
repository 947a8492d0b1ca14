-- ===== src/Samples/Config.antt =====
-- A small configuration that loads.
use llm_api_gateway.Prelude.{ℕ, ◌≡◌, refl, Bool, true, false, pos, none, [], ◌∷◌}
use llm_api_gateway.Config.{Config, ProviderConfig, provider_name}
use llm_api_gateway.Config.Checks.{check, and_then, check_all, unexpanded}
use llm_api_gateway.Config.Defaults.{
  if_zero, if_empty, server_defaults, provider_defaults, budget_defaults, rate_limit_defaults,
  logging_defaults, retry_defaults, circuit_defaults, hedge_defaults, resilience_defaults,
  cache_defaults, health_defaults, admin_defaults, set_defaults,
}
use llm_api_gateway.Config.Validate.{
  validate_server, is_level, validate_logging, validate_override, validate_rates, validate_budget,
  validate_provider, is_empty, validate_providers, validate_fallback, validate_key, validate_auth,
  validate_resilience, validate_cache, validate_health, validate_entry, total_of, validate_weights,
  validate_admin, validate, loaded, unless_rejected, load,
}
use llm_api_gateway.Config.Sound.{IsSound, load-IsSound}
use llm_api_gateway.Prelude.{lookup}

abbrev openai : ProviderConfig
openai = record {
  api_key = "sk";
  base_url = "https://api.openai.com";
  timeout = pos 0;
  models = "gpt" ∷ [];
}

-- Everything that has a default is left out; one override, one weight.
abbrev small : Config
small = record {
  server = record { port = pos 0; read_timeout = pos 0; write_timeout = pos 0 };
  providers = ("openai", openai) ∷ [];
  fallback_chain = "openai" ∷ [];
  rate_limit = record {
    enabled = true;
    requests_per_minute = pos 0;
    burst = pos 0;
    redis_url = "";
    token_aware = false;
    overrides = (record { tenant = "acme"; model_pattern = ""; rpm = pos 5; burst = pos 0 }) ∷ [];
    budget = none;
  };
  logging = record { level = ""; format = "" };
  allowed_origins = [];
  auth = record { enabled = false; keys = [] };
  resilience = record {
    retry = record { max_attempts = pos 0; base_delay = pos 0; max_delay = pos 0 };
    circuit = record { failure_threshold = pos 0; open_timeout = pos 0 };
    hedge = record { enabled = false; delay = pos 0 };
  };
  model_aliases = [];
  cache = record {
    enabled = false;
    ttl = pos 0;
    max_size = pos 0;
    semantic_enabled = false;
    semantic_threshold = pos 0;
    semantic_embedding_model = "";
    semantic_top_k = pos 0;
    semantic_max_entries = pos 0;
  };
  health = record {
    readiness_cache_ttl = pos 0;
    check_timeout = pos 0;
    provider_timeout = pos 0;
    skip_expensive_checks = false;
  };
  weighted = ("gpt", (record { provider = ""; name = "openai"; weight = pos 90 }) ∷ []) ∷ [];
  admin = record { port = pos 0; api_key = "" };
}

abbrev never : ℕ → Bool
never t = false

small-loads : load never "" small ≡ loaded (set_defaults "" small)
unfolding load unless_rejected set_defaults validate if_zero if_empty server_defaults
    provider_defaults budget_defaults rate_limit_defaults logging_defaults retry_defaults
    circuit_defaults hedge_defaults resilience_defaults cache_defaults health_defaults
    admin_defaults validate_server is_level validate_logging validate_override validate_rates
    validate_budget validate_provider is_empty validate_providers validate_fallback validate_key
    validate_auth validate_resilience validate_cache validate_health validate_entry total_of
    validate_weights validate_admin check and_then check_all unexpanded provider_name lookup
small-loads = refl

load-IsSound_example : IsSound (set_defaults "" small)
load-IsSound_example = load-IsSound never "" small (set_defaults "" small) small-loads
