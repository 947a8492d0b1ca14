-- ===== src/Config/Again.antt =====
-- A loaded configuration loads again as it is.
use llm_api_gateway.Prelude.{
  ℕ, zero, suc, ◌≡◌, refl, subst, Bool, ℤ, pos, negsuc, String, eq_iff, Option, none, some, [], ◌∷◌,
  Dict, arith,
}
use llm_api_gateway.Config.{ProviderConfig, BudgetConfig, Config}
use llm_api_gateway.Config.Defaults.{
  if_zero, if_empty, server_defaults, provider_defaults, budget_defaults, rate_limit_defaults,
  logging_defaults, retry_defaults, circuit_defaults, hedge_defaults, resilience_defaults,
  cache_defaults, health_defaults, admin_defaults, set_defaults,
}
use llm_api_gateway.Config.Validate.{load, loaded, unless_rejected}
use llm_api_gateway.Config.Sound.{unless_rejected-loaded}

if_zero-if_zero : (d : ℕ) (n : ℤ) → if_zero d (if_zero d n) ≡ if_zero d n
unfolding if_zero
if_zero-if_zero zero (pos zero) = refl
if_zero-if_zero (suc d) (pos zero) = refl
if_zero-if_zero d (pos (suc n)) = refl
if_zero-if_zero d (negsuc n) = refl

if_empty-if_empty : (d s : String) → if_empty d (if_empty d s) ≡ if_empty d s
unfolding if_empty
if_empty-if_empty d s = ground (arith, eq_iff s "", eq_iff d "")

ruleset twice = (if_zero-if_zero, if_empty-if_empty)

provider_defaults-twice :
    (ps : Dict ProviderConfig) → provider_defaults (provider_defaults ps) ≡ provider_defaults ps
unfolding provider_defaults
provider_defaults-twice [] = refl
provider_defaults-twice ((name, p) ∷ ps) = simp (twice, provider_defaults-twice ps)

budget_defaults-twice :
    (b : Option BudgetConfig) → budget_defaults (budget_defaults b) ≡ budget_defaults b
unfolding budget_defaults
budget_defaults-twice none = refl
budget_defaults-twice (some b) = simp twice

-- Setting the defaults twice is setting them once.
set_defaults-set_defaults :
    (env : String) (c : Config) → set_defaults env (set_defaults env c) ≡ set_defaults env c
unfolding set_defaults server_defaults rate_limit_defaults logging_defaults retry_defaults
    circuit_defaults hedge_defaults resilience_defaults cache_defaults health_defaults
    admin_defaults
set_defaults-set_defaults env c =
    simp (twice, provider_defaults-twice c.providers, budget_defaults-twice c.rate_limit.budget)

-- A configuration that `Load` returns is one that it would return unchanged: loaded again, under
-- the same environment, it is accepted and stays as it is.
pub load-again :
    (is_zero_time : ℕ → Bool) (env : String) (c full : Config)
    → load is_zero_time env c ≡ loaded full
    → load is_zero_time env full ≡ loaded full
unfolding load unless_rejected
load-again is_zero_time env c full h =
    let (passed, same) = unless_rejected-loaded _ full _ h in
    subst (λ d. load is_zero_time env d ≡ loaded d) same
      (rw (set_defaults-set_defaults env c, passed) refl)
