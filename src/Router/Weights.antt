-- ===== src/Router/Weights.antt =====
-- How the random draw is shared out among weighted providers.
use llm_api_gateway.Prelude.{ℕ, ◌+◌, ◌≤◌, ◌<◌, ◌≡◌, Option, none, some, List, [], ◌∷◌, ◌++◌, arith}
use llm_api_gateway.Router.{Provider, WeightedEntry, pick_from, total_weight, pick_weighted}

pick_from-interval :
    (n acc : ℕ) (last : Option Provider) (before : List WeightedEntry) (e : WeightedEntry)
    (after : List WeightedEntry)
    → acc + total_weight before ≤ n
    → n < acc + total_weight before + e.weight
    → pick_from n acc last (before ++ e ∷ after) ≡ some e.provider
unfolding pick_from total_weight
pick_from-interval n acc last [] e after h k = ground arith
pick_from-interval n acc last (b ∷ before) e after h k =
    ground (arith, pick_from-interval n (acc + b.weight) (some b.provider) before e after)

total_weight-positive :
    (before : List WeightedEntry) (e : WeightedEntry) (after : List WeightedEntry)
    → e.weight ≤ total_weight (before ++ e ∷ after)
unfolding total_weight
total_weight-positive [] e after = omega arith
total_weight-positive (b ∷ before) e after = omega (arith, total_weight-positive before e after)

-- `pickWeighted` chooses an entry whenever the draw lies in the stretch of its own length, its
-- weight, that begins at the sum of the weights before it. These stretches divide the range of the
-- draw, so each entry is chosen for as many draws as its weight says.
pub pick_weighted-interval :
    (rand : ℕ → ℕ) (before : List WeightedEntry) (e : WeightedEntry) (after : List WeightedEntry)
    → let n = rand (total_weight (before ++ e ∷ after)) in
      total_weight before ≤ n
      → n < total_weight before + e.weight
      → pick_weighted rand (before ++ e ∷ after) ≡ some e.provider
unfolding pick_weighted
pick_weighted-interval rand before e after h k = ground (
  arith,
  total_weight-positive before e after,
  pick_from-interval (rand (total_weight (before ++ e ∷ after))) 0 none before e after,
)
