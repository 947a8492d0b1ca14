-- ===== src/Pricing/Cover.antt =====
-- Whether the estimate that is reserved covers the cost that is charged.
use mathlib.Core.List.{Memᴰ}
use llm_api_gateway.Prelude.{
  ℕ, ◌≤◌, ◌≡◌, ◌⊎◌, inl, inr, pos, Bool, true, false, String, Option, none, some, List, arith, All,
  pick_loop-cases, IsPick, All-Memᴰ,
}
use llm_api_gateway.Pricing.{
  Catalog, Rule, usable, best_rule, dearer, dearest_rule, chat, estimate_chat, estimate_of,
  chat_cost, model_matches,
}
use llm_api_gateway.Pricing.Best.{best_rule-cases}

module _ (path_match : String → String → Option Bool) (model : String) (prompt completion : ℕ) where
  abbrev pub NoDearer : Rule → Rule → Type 0
  NoDearer x y = chat_cost prompt completion x ≤ chat_cost prompt completion y

  dearer-NoDearer :
      (x y : Rule) → dearer path_match model prompt completion x y ≡ true → NoDearer y x
  unfolding dearer
  dearer-NoDearer x y h = ground arith

  not-dearer-NoDearer :
      (x y : Rule) → dearer path_match model prompt completion x y ≡ false → NoDearer x y
  unfolding dearer
  not-dearer-NoDearer x y h = ground arith

  dearest_rule-cases :
      (rules : List Rule)
      → ((dearest_rule path_match model prompt completion rules ≡ none)
          × All (λ r. model_matches path_match r.model model ≡ false) rules)
        ⊎ ((b : Rule) × (dearest_rule path_match model prompt completion rules ≡ some b)
            × IsPick (λ r. model_matches path_match r.model model) NoDearer rules b)
  unfolding dearest_rule
  dearest_rule-cases rules =
      pick_loop-cases _ _ NoDearer (λ x. omega arith) (λ x y z p q. omega arith) dearer-NoDearer
        not-dearer-NoDearer rules

  usable-matches :
      (provider : String) (r : Rule)
      → usable path_match model provider false r ≡ true
      → model_matches path_match r.model model ≡ true
  unfolding usable
  usable-matches provider r h = ground arith

  -- Some rule prices the model at the estimated cost, and no matching rule is dearer.
  estimate_chat-above :
      (c : Catalog) (r : Rule)
      → Memᴰ r c.rules
      → model_matches path_match r.model model ≡ true
      → chat_cost prompt completion r
        ≤ (estimate_of (estimate_chat path_match model c prompt completion)).usd
  unfolding estimate_chat
  estimate_chat-above c r m h = elim (dearest_rule-cases c.rules) [
    | inl (e, none_match) ↦ cc (All-Memᴰ _ r c.rules none_match m)
    | inr (b, e, p) ↦ rw (e, estimate_of) (All-Memᴰ _ r c.rules p.best m h)
  ]

  -- When the catalog has a usable rule for the provider that will serve the request, the estimate
  -- made before the provider is known is at least the cost that this provider's rule gives for the
  -- same numbers of prompt and completion tokens.
  pub chat-le-estimate_chat :
      (c : Catalog) (provider : String) (b : Rule)
      → best_rule path_match model provider false c.rules ≡ some b
      → (estimate_of (chat path_match model c provider (pos prompt) (pos completion))).usd
        ≤ (estimate_of (estimate_chat path_match model c prompt completion)).usd
  unfolding chat
  chat-le-estimate_chat c provider b e =
      elim (best_rule-cases path_match model provider false c.rules) [
        | inl (f, _) ↦ cc
        | inr (b', f, p) ↦
            rw (f, estimate_of)
              (estimate_chat-above c b' p.member (usable-matches provider b' p.passes))
      ]
