-- ===== src/Router/Resolve.antt =====
-- `Resolve` of internal/proxy/router.go: which provider serves a model.
use Prim.Native.String.{len}
use llm_api_gateway.Prelude.{
  text_ltb, ℕ, Bool, not, ◌||◌, ltb, ◌==◌, String, Dict, lookup, Option, none, some, List, [], ◌∷◌,
  get_elem?, length, if◌then◌else◌,
}
use llm_api_gateway.Router.{
  Provider, Patterns, PatternEntry, WeightedEntry, Registry, is_pattern, compile_pattern,
  glob_matches, matches_pattern, pick_weighted,
}

module _ (lib : Patterns) where
  -- The order of the weighted patterns: longer ones first, then by the order of strings.
  unfoldable pub key_ltb : String → String → Bool
  key_ltb s t = if not (len s == len t) then ltb (len t) (len s) else text_ltb s t

  unfoldable pub insert_key :
      String × List WeightedEntry → Dict (List WeightedEntry) → Dict (List WeightedEntry)
  unfolding key_ltb
  insert_key k [] = k ∷ []
  insert_key k (j ∷ js) = if key_ltb j.0 k.0 then j ∷ insert_key k js else k ∷ j ∷ js

  -- The weighted entries whose key is a pattern, sorted.
  unfoldable pub weighted_keys : Dict (List WeightedEntry) → Dict (List WeightedEntry)
  unfolding insert_key
  weighted_keys [] = []
  weighted_keys (k ∷ ks) =
      let rest = weighted_keys ks in if is_pattern k.0 then insert_key k rest else rest

  -- Whether the loop over the weighted patterns takes this key.
  unfoldable pub key_matches : String → String → Bool
  key_matches key model = elim (compile_pattern lib key).0 [
    | some re ↦ re model || glob_matches lib key model
    | none ↦ glob_matches lib key model
  ]

  -- The entries of the first key that matches.
  unfoldable pub first_key : String → Dict (List WeightedEntry) → Option (List WeightedEntry)
  unfolding key_matches
  first_key model [] = none
  first_key model ((key, es) ∷ ks) = if key_matches key model then some es else first_key model ks

  unfoldable pub candidates : String → List PatternEntry → List Provider
  unfolding matches_pattern
  candidates model [] = []
  candidates model (e ∷ es) =
      let rest = candidates model es in
      if matches_pattern lib e model then e.provider ∷ rest else rest

  module _ (rand : ℕ → ℕ) where
    -- A weighted list that is not empty decides; otherwise the rest of `Resolve` does.
    unfoldable pub or_weighted : Option (List WeightedEntry) → Option Provider → Option Provider
    unfolding pick_weighted
    or_weighted (some (e ∷ es)) rest = pick_weighted rand (e ∷ es)
    or_weighted _ rest = rest

    -- The choice among the providers whose pattern matches; `none` is `ErrNoProvider`.
    unfoldable pub pick_candidate : List Provider → Option Provider
    pick_candidate [] = none
    pick_candidate (p ∷ []) = some p
    pick_candidate (p ∷ q ∷ ps) = get_elem? (p ∷ q ∷ ps) (rand (length (p ∷ q ∷ ps)))

    -- The steps 3 and 4 of `Resolve`.
    unfoldable pub resolve_pattern : String → Registry → Option Provider
    unfolding or_weighted pick_candidate
    resolve_pattern model r =
        or_weighted (first_key model (weighted_keys r.weighted))
          (pick_candidate (candidates model r.patterns))

    unfoldable pub resolve : String → Registry → Option Provider
    unfolding resolve_pattern
    resolve model r =
        or_weighted (lookup model r.weighted)
          (elim (lookup model r.by_model) [ some p ↦ some p | none ↦ resolve_pattern model r ])
