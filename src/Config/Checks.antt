-- ===== src/Config/Checks.antt =====
-- The errors of `Validate` of internal/config/config.go, named for their messages, whose indices and
-- names are left out, and the tests of which it is made.
use Prim.Native.String.{len}
use llm_api_gateway.Prelude.{
  Bool, true, false, ◌&&◌, ◌||◌, ℤ, pos, ltb, ltb_ℤ, leb_ℤ, String, str_eq, starts_with, Option,
  none, some, List, [], ◌∷◌,
}

pub data ConfigError : Type 0 where
  server_port read_timeout write_timeout logging_level logging_format : ConfigError
  rate_negative burst_negative rate_missing burst_missing override_negative : ConfigError
  budget_tokens budget_usd budget_cost currency policy : ConfigError
  rule_incomplete rule_negative rule_free : ConfigError
  providers_missing base_url provider_timeout fallback_unknown : ConfigError
  keys_missing key_missing key_expiry : ConfigError
  max_attempts retry_delay failure_threshold open_timeout hedge_delay : ConfigError
  alias_unnamed alias_empty : ConfigError
  cache_ttl cache_size threshold embedding_model top_k max_entries health_timeout : ConfigError
  weighted_unnamed weighted_empty entry_unnamed entry_unknown entry_weight total_weight :
      ConfigError
  admin_port : ConfigError

-- `if test { return e }`, before the rest.
unfoldable pub check : Bool → ConfigError → Option ConfigError → Option ConfigError
check true e rest = some e
check false e rest = rest

-- One section after the other.
unfoldable pub and_then : Option ConfigError → Option ConfigError → Option ConfigError
and_then none rest = rest
and_then (some e) rest = some e

-- The loop `for _, x := range xs { ... }` around the checks of one element.
unfoldable pub check_all : {A : Type 0} → (A → Option ConfigError) → List A → Option ConfigError
check_all f [] = none
check_all f (x ∷ xs) = and_then (f x) (check_all f xs)

abbrev pub is_negative : ℤ → Bool
is_negative n = ltb_ℤ n (pos 0)

abbrev pub is_zero : ℤ → Bool
is_zero n = leb_ℤ n (pos 0) && leb_ℤ (pos 0) n

abbrev pub not_positive : ℤ → Bool
not_positive n = leb_ℤ n (pos 0)

-- `p < 1 || p > 65535`
abbrev pub not_port : ℤ → Bool
not_port p = ltb_ℤ p (pos 1) || ltb_ℤ (pos 65535) p

-- `s == "" || (len(s) > 3 && s[:2] == "${")`
unfoldable pub unexpanded : String → Bool
unexpanded s = str_eq s "" || (ltb 3 (len s) && starts_with s "${")
