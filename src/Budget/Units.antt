-- ===== src/Budget/Units.antt =====
-- The price per token of internal/budget/budget.go against the fallback of internal/pricing/catalog.go.
use llm_api_gateway.Prelude.{ℕ, ◌*◌, ◌≡◌, false, pos, str_eq, arith}
use llm_api_gateway.Pricing.{unknown_estimate, estimate_of}
use llm_api_gateway.Budget.Manager.{Manager, cost_for_tokens}

-- If the catalog's fallback is the manager's price per token, as in the catalog that the manager makes
-- when it is given none, and unknown models are not rejected, then `CostForTokens` is a million
-- times what the catalog charges for the same number of tokens of a model without a rule.
pub cost_for_tokens-unknown_estimate :
    {S : Type 0} (m : Manager S) (tokens : ℕ)
    → m.catalog.fallback ≡ m.cost_per_token
    → str_eq m.catalog.unknown "reject" ≡ false
    → cost_for_tokens m (pos tokens)
      ≡ (estimate_of (unknown_estimate m.catalog tokens)).usd * 1_000_000
unfolding cost_for_tokens unknown_estimate
cost_for_tokens-unknown_estimate m tokens e k = ground (arith, e, k)
