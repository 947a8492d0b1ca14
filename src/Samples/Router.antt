-- ===== src/Samples/Router.antt =====
-- Registries on concrete inputs, with patterns that match no model but an equal one.
use llm_api_gateway.Prelude.{ℕ, ◌≡◌, refl, str_eq, none, some, [], ◌∷◌, arith}
use llm_api_gateway.Router.{
  Provider, Patterns, WeightedEntry, WeightedConfig, total_weight, pick_weighted, new_registry,
}
use llm_api_gateway.Router.Resolve.{resolve}
use llm_api_gateway.Router.Weights.{pick_weighted-interval}
use llm_api_gateway.Router.Route.{route}
use llm_api_gateway.Router.Route.Same.{resolve-route}

abbrev pub literal : Patterns
literal = record {
  compile = λ s. some (str_eq s);
  quote_meta = λ s. s;
  replace_all = λ s old new. s;
  path_match = λ pattern s. none;
}

abbrev pub first_draw : ℕ → ℕ
first_draw n = 0

abbrev pub openai : Provider
openai = record { name = "openai"; models = "gpt" ∷ [] }

abbrev pub anthropic : Provider
anthropic = record { name = "anthropic"; models = "claude" ∷ [] }

abbrev entry_of : Provider → ℕ → WeightedEntry
entry_of p w = record { provider = p; weight = w }

total_90 : total_weight (entry_of openai 90 ∷ entry_of anthropic 10 ∷ []) ≡ 100
unfolding total_weight
total_90 = refl

weight_before : total_weight (entry_of openai 90 ∷ []) ≡ 90
unfolding total_weight
weight_before = refl

pick_weighted-interval_example :
    pick_weighted (λ n. 95) (entry_of openai 90 ∷ entry_of anthropic 10 ∷ []) ≡ some anthropic
pick_weighted-interval_example =
    pick_weighted-interval (λ n. 95) (entry_of openai 90 ∷ []) (entry_of anthropic 10) []
      (omega (arith, weight_before)) (omega (arith, weight_before))

abbrev split_gpt : WeightedConfig
split_gpt = record { provider = "anthropic"; name = ""; weight = 10 }

resolve-route_example :
    resolve literal first_draw "gpt"
      (new_registry literal (openai ∷ anthropic ∷ []) [] (("gpt", split_gpt ∷ []) ∷ []))
    ≡ route literal "gpt" first_draw (split_gpt ∷ []) (openai ∷ anthropic ∷ [])
resolve-route_example =
    resolve-route literal "gpt" first_draw (openai ∷ anthropic ∷ []) [] (split_gpt ∷ [])
