-- ===== src/Router/Route/Same.antt =====
-- `Resolve` routes a model as described.
use llm_api_gateway.Prelude.{
  ℕ, ◌≡◌, refl, ap, ◌∙◌, String, eq_refl, Dict, lookup, insert, lookup-insert, Option, none, some,
  List, [], ◌∷◌,
}
use llm_api_gateway.Router.{
  Provider, Patterns, WeightedEntry, WeightedConfig, Registry, pick_weighted, weighted_entries,
  put_weighted, add_weighted, new_registry,
}
use llm_api_gateway.Router.Resolve.{
  candidates, or_weighted, pick_candidate, resolve_pattern, resolve, weighted_keys, first_key,
}
use llm_api_gateway.Router.Route.{owner, matching, draw, owner_or, weighted_or, route}
use llm_api_gateway.Router.Route.Contents.{
  add_providers-by_model, add_providers-candidates, add_providers-by_name, add_providers-weighted,
  weighted_entries-weights_of,
}

module _ (lib : Patterns) (model : String) where
  module _ (rand : ℕ → ℕ) where
    pick_candidate-draw : (ps : List Provider) → pick_candidate lib rand ps ≡ draw lib model rand ps
    unfolding pick_candidate draw
    pick_candidate-draw [] = refl
    pick_candidate-draw (p ∷ []) = refl
    pick_candidate-draw (p ∷ q ∷ ps) = refl

    resolve_pattern-draw :
        (r : Registry) (ps : List Provider)
        → r.weighted ≡ []
        → candidates lib model r.patterns ≡ ps
        → resolve_pattern lib rand model r ≡ draw lib model rand ps
    unfolding resolve_pattern weighted_keys first_key or_weighted
    resolve_pattern-draw r ps w c = rw (w, c) (pick_candidate-draw ps)

    owner_or-exact :
        (o : Option Provider) (ps : List Provider) (rest : Option Provider)
        → rest ≡ draw lib model rand ps
        → elim o [ some p ↦ some p | none ↦ rest ] ≡ owner_or lib model rand o ps
    unfolding owner_or
    owner_or-exact none ps rest e = e
    owner_or-exact (some p) ps rest e = refl

    abbrev or_pattern : Registry → Option Provider → Option Provider
    or_pattern r o = elim o [ some p ↦ some p | none ↦ resolve_pattern lib rand model r ]

    -- Without weights.
    resolve-unweighted :
        (r : Registry) (o : Option Provider) (ps : List Provider)
        → r.weighted ≡ []
        → lookup model r.by_model ≡ o
        → candidates lib model r.patterns ≡ ps
        → resolve lib rand model r ≡ owner_or lib model rand o ps
    unfolding resolve or_weighted lookup
    resolve-unweighted r o ps w m c =
        ap (λ d. or_weighted lib rand (lookup model d) (or_pattern r (lookup model r.by_model))) w
        ∙ ap (or_pattern r) m
        ∙ owner_or-exact o ps _ (resolve_pattern-draw r ps w c)

    lookup-here :
        (es : List WeightedEntry) (d : Dict (List WeightedEntry))
        → lookup model (insert model es d) ≡ some es
    lookup-here es d = rw (lookup-insert model model es d, eq_refl model) refl

    resolve-weighted :
        (r : Registry) (e : WeightedEntry) (es : List WeightedEntry)
        → resolve lib rand model (record r { weighted = insert model (e ∷ es) r.weighted })
          ≡ pick_weighted rand (e ∷ es)
    unfolding resolve or_weighted
    resolve-weighted r e es =
        ap (λ x. or_weighted lib rand x (or_pattern r' (lookup model r.by_model)))
          (lookup-here (e ∷ es) r.weighted)
      where
        r' : Registry
        r' = record r { weighted = insert model (e ∷ es) r.weighted }

    resolve-put_weighted :
        (r : Registry) (es : List WeightedEntry) (o : Option Provider) (ps : List Provider)
        → r.weighted ≡ []
        → lookup model r.by_model ≡ o
        → candidates lib model r.patterns ≡ ps
        → resolve lib rand model (put_weighted lib model es r)
          ≡ weighted_or lib model rand es (owner_or lib model rand o ps)
    unfolding put_weighted weighted_or
    resolve-put_weighted r [] o ps w m c = resolve-unweighted r o ps w m c
    resolve-put_weighted r (e ∷ es) o ps w m c = resolve-weighted r e es

    -- A registry that is built from providers, with weights for one model (none, if the list is
    -- empty), routes this model by these weights, if one of them names a provider; else to the last
    -- provider that lists the model by its name, unless that is a pattern itself; else to one that
    -- lists a pattern which matches it, by a draw if there are several, counted once for each such
    -- pattern; and to none otherwise.
    pub resolve-route :
        (providers : List Provider) (aliases : Dict (List String)) (weights : List WeightedConfig)
        → resolve lib rand model (new_registry lib providers aliases ((model, weights) ∷ []))
          ≡ route lib model rand weights providers
    unfolding new_registry add_weighted route lookup candidates
    resolve-route providers aliases weights =
        let base = new_registry lib providers aliases [] in
        let entries = weighted_entries lib base.by_name weights in
        resolve-put_weighted base entries _ _ (add_providers-weighted lib model providers _)
          (add_providers-by_model lib model providers _)
          (add_providers-candidates lib model providers _)
        ∙ ap
            (λ es.
              weighted_or lib model rand es (
                owner_or lib model rand (owner model none providers)
                  (matching lib model providers)))
            (weighted_entries-weights_of lib model providers base.by_name weights
              (λ name. add_providers-by_name lib model name providers _))
