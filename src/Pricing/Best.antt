-- ===== src/Pricing/Best.antt =====
-- Which rule prices a request whose provider is known.
use llm_api_gateway.Prelude.{
  ◌≤◌, ◌≡◌, ◌⊎◌, Bool, true, false, String, Option, none, some, List, arith, All, pick_loop-cases,
  IsPick,
}
use llm_api_gateway.Pricing.{Rule, rule_rank, rate_of, usable, improves, best_rule}

-- `b` is as close a match of the model's name as `r`, and as dear if it is no closer.
abbrev pub AtLeast : String → Bool → Rule → Rule → Type 0
AtLeast model embedding r b =
    (rule_rank r model ≤ rule_rank b model)
    × (rule_rank r model ≡ rule_rank b model → rate_of embedding r ≤ rate_of embedding b)

module _ (path_match : String → String → Option Bool) (model provider : String)
    (embedding : Bool) where
  AtLeast-trans :
      (x y z : Rule)
      → AtLeast model embedding x y
      → AtLeast model embedding y z
      → AtLeast model embedding x z
  AtLeast-trans x y z p q = ground arith

  improves-AtLeast :
      (x y : Rule) → improves path_match model embedding x y ≡ true → AtLeast model embedding y x
  unfolding improves
  improves-AtLeast x y h = ground arith

  not-improves-AtLeast :
      (x y : Rule) → improves path_match model embedding x y ≡ false → AtLeast model embedding x y
  unfolding improves
  not-improves-AtLeast x y h = ground arith

  -- `bestRule` finds no rule exactly when no rule is usable: for the provider and the model, with
  -- a positive rate. Otherwise it finds a usable rule, and every usable rule is a looser match of
  -- the model's name, or as close a match and no dearer.
  pub best_rule-cases :
      (rules : List Rule)
      → ((best_rule path_match model provider embedding rules ≡ none)
          × All (λ r. usable path_match model provider embedding r ≡ false) rules)
        ⊎ ((b : Rule) × (best_rule path_match model provider embedding rules ≡ some b)
            × IsPick (usable path_match model provider embedding) (AtLeast model embedding) rules b)
  unfolding best_rule
  best_rule-cases rules =
      pick_loop-cases _ _ (AtLeast model embedding) (λ x. (omega arith, λ e. omega arith))
        AtLeast-trans improves-AtLeast not-improves-AtLeast rules
