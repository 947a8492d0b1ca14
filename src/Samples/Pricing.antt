-- ===== src/Samples/Pricing.antt =====
-- A catalog on a concrete input.
use llm_api_gateway.Prelude.{
  ◌≤◌, ◌≡◌, refl, Bool, pos, String, pick_loop, false, Option, none, some, [], ◌∷◌,
}
use llm_api_gateway.Pricing.{
  Catalog, Rule, model_matches, usable, improves, best_rule, chat, estimate_chat, estimate_of,
}
use llm_api_gateway.Pricing.Cover.{chat-le-estimate_chat}

abbrev no_globs : String → String → Option Bool
no_globs pattern value = none

abbrev cheap : Rule
cheap = record {
  provider = "a";
  model = "gpt";
  input_per_million = 2;
  output_per_million = 4;
  embedding_per_million = 0;
}

abbrev catalog : Catalog
catalog = record {
  rules = cheap ∷ (record cheap { provider = "b"; input_per_million = 3 }) ∷ [];
  fallback = 1;
  currency = "USD";
  version = "";
  unknown = "fallback";
}

best_of_a : best_rule no_globs "gpt" "a" false catalog.rules ≡ some cheap
unfolding best_rule usable improves model_matches pick_loop
best_of_a = refl

chat-le-estimate_chat_example :
    (estimate_of (chat no_globs "gpt" catalog "a" (pos 10) (pos 20))).usd
    ≤ (estimate_of (estimate_chat no_globs "gpt" catalog 10 20)).usd
chat-le-estimate_chat_example =
    chat-le-estimate_chat no_globs "gpt" 10 20 catalog "a" cheap best_of_a
