-- ===== src/Router/Route.antt =====
-- The routing of a model, described directly.
pub mod Contents
pub mod Same
use llm_api_gateway.Prelude.{
  ℕ, ◌≡◌, refl, ap, ◌∙◌, Bool, true, false, not, ◌&&◌, String, str_eq, eq_iff, eq_refl, Dict,
  lookup, insert, lookup-insert, Option, none, some, List, [], ◌∷◌, ◌++◌, get_elem?, length,
  if◌then◌else◌, arith, Bool-cases, inl, inr,
}
use llm_api_gateway.Router.{
  Provider, Patterns, PatternEntry, WeightedEntry, WeightedConfig, Registry, is_pattern,
  matches_pattern, pattern_entry, provider_name, pick_weighted, add_model, add_models, add_provider,
  add_providers, weighted_entries, put_weighted, add_weighted, new_registry,
}
use llm_api_gateway.Router.Resolve.{
  candidates, or_weighted, pick_candidate, resolve_pattern, resolve, weighted_keys, first_key,
}

-- Whether a provider lists exactly this model.
unfoldable pub lists_model : String → List String → Bool
lists_model model [] = false
lists_model model (m ∷ ms) =
    let rest = lists_model model ms in if str_eq m model then true else rest

-- The last provider that lists the model, which is no pattern, or `found`.
unfoldable pub owner : String → Option Provider → List Provider → Option Provider
unfolding lists_model
owner model found [] = found
owner model found (p ∷ ps) =
    owner model (if not (is_pattern model) && lists_model model p.models then some p else found) ps

-- The last provider with this name, or `found`.
unfoldable pub named : String → Option Provider → List Provider → Option Provider
named name found [] = found
named name found (p ∷ ps) = named name (if str_eq p.name name then some p else found) ps

-- The weights that name a provider, with it.
unfoldable pub weights_of : List Provider → List WeightedConfig → List WeightedEntry
unfolding named
weights_of ps [] = []
weights_of ps (e ∷ es) =
    let rest = weights_of ps es in
    elim (named (provider_name e) none ps) [
      | some p ↦ (record { provider = p; weight = e.weight }) ∷ rest
      | none ↦ rest
    ]

module _ (lib : Patterns) (model : String) where
  -- The provider, once for each pattern that it lists and that matches the model.
  unfoldable pub matching_in : Provider → List String → List Provider
  matching_in p [] = []
  matching_in p (m ∷ ms) =
      let rest = matching_in p ms in
      if is_pattern m && matches_pattern lib (pattern_entry lib p m) model then p ∷ rest else rest

  unfoldable pub matching : List Provider → List Provider
  unfolding matching_in
  matching [] = []
  matching (p ∷ ps) = matching_in p p.models ++ matching ps

  module _ (rand : ℕ → ℕ) where
    -- One of the providers, by a draw if there are several.
    unfoldable pub draw : List Provider → Option Provider
    draw [] = none
    draw (p ∷ []) = some p
    draw (p ∷ q ∷ ps) = get_elem? (p ∷ q ∷ ps) (rand (length (p ∷ q ∷ ps)))

    unfoldable pub owner_or : Option Provider → List Provider → Option Provider
    unfolding draw
    owner_or (some p) ps = some p
    owner_or none ps = draw ps

    unfoldable pub weighted_or : List WeightedEntry → Option Provider → Option Provider
    weighted_or [] rest = rest
    weighted_or (e ∷ es) rest = pick_weighted rand (e ∷ es)

    -- The provider of the model: by the model's weights, if one names a provider; else the last
    -- that lists the model; else one that lists a pattern which matches it.
    unfoldable pub route : List WeightedConfig → List Provider → Option Provider
    unfolding weights_of owner matching owner_or weighted_or
    route weights ps =
        weighted_or (weights_of ps weights) (owner_or (owner model none ps) (matching ps))
