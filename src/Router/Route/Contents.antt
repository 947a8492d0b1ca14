-- ===== src/Router/Route/Contents.antt =====
-- What a registry that is built from providers holds for a model.
use llm_api_gateway.Prelude.{
  ◌≡◌, refl, ap, ◌∙◌, Bool, true, false, not, ◌&&◌, String, str_eq, eq_iff, Dict, lookup, insert,
  lookup-insert, Option, none, some, List, [], ◌∷◌, ◌++◌, if◌then◌else◌, arith, Bool-cases, inl,
  inr,
}
use llm_api_gateway.Router.{
  Provider, Patterns, PatternEntry, WeightedEntry, WeightedConfig, Registry, is_pattern,
  matches_pattern, pattern_entry, provider_name, add_model, add_models, add_provider, add_providers,
  weighted_entries,
}
use llm_api_gateway.Router.Resolve.{candidates}
use llm_api_gateway.Router.Route.{lists_model, owner, named, weights_of, matching_in, matching}

module _ (lib : Patterns) (model : String) where
  candidates-append :
      (xs ys : List PatternEntry)
      → candidates lib model (xs ++ ys) ≡ candidates lib model xs ++ candidates lib model ys
  unfolding candidates
  candidates-append [] ys = refl
  candidates-append (x ∷ xs) ys = elim (Bool-cases (matches_pattern lib x model)) [
    | inl q ↦ rw q (ap (λ ps. x.provider ∷ ps) (candidates-append xs ys))
    | inr q ↦ rw q (candidates-append xs ys)
  ]

  append_assoc : {A : Type 0} (xs ys zs : List A) → (xs ++ ys) ++ zs ≡ xs ++ (ys ++ zs)
  append_assoc [] ys zs = refl
  append_assoc (x ∷ xs) ys zs = ap (λ ws. x ∷ ws) (append_assoc xs ys zs)

  -- What a registry gives for the model by name and by pattern.
  add_model-by_model :
      (p : Provider) (m : String) (r : Registry)
      → lookup model (add_model lib p m r).by_model
        ≡ (if not (is_pattern model) && str_eq m model then some p else lookup model r.by_model)
  unfolding add_model
  add_model-by_model p m r = ground (arith, lookup-insert m model p r.by_model, eq_iff m model)

  add_models-by_model :
      (p : Provider) (ms : List String) (r : Registry)
      → lookup model (add_models lib p ms r).by_model ≡ (
          if not (is_pattern model) && lists_model model ms
          then some p
          else lookup model r.by_model)
  unfolding add_models lists_model
  add_models-by_model p [] r = ground arith
  add_models-by_model p (m ∷ ms) r =
      ground (arith, add_models-by_model p ms (add_model lib p m r), add_model-by_model p m r)

  candidates-one :
      (e : PatternEntry)
      → candidates lib model (e ∷ [])
        ≡ (if matches_pattern lib e model then e.provider ∷ [] else [])
  unfolding candidates
  candidates-one e = refl

  if-append :
      {A : Type 0} (t : Bool) (x : A) (xs : List A)
      → (if t then x ∷ [] else []) ++ xs ≡ (if t then x ∷ xs else xs)
  if-append true x xs = refl
  if-append false x xs = refl

  append_nil : (xs : List Provider) → xs ≡ xs ++ []
  append_nil [] = refl
  append_nil (x ∷ xs) = ap (λ ys. x ∷ ys) (append_nil xs)

  add_model-candidates :
      (p : Provider) (m : String) (r : Registry)
      → candidates lib model (add_model lib p m r).patterns
        ≡ candidates lib model r.patterns
          ++ (if is_pattern m && matches_pattern lib (pattern_entry lib p m) model
              then p ∷ []
              else [])
  unfolding add_model
  add_model-candidates p m r = by_case (is_pattern m)
    where
      by_case :
          (t : Bool)
          → candidates lib model
              (if t
                then record r { patterns = r.patterns ++ pattern_entry lib p m ∷ [] }
                else record r { by_model = insert m p r.by_model }).patterns
            ≡ candidates lib model r.patterns
              ++ (if t && matches_pattern lib (pattern_entry lib p m) model then p ∷ [] else [])
      by_case true =
          candidates-append r.patterns (pattern_entry lib p m ∷ [])
          ∙ ap (λ xs. candidates lib model r.patterns ++ xs)
              (candidates-one (pattern_entry lib p m))
      by_case false = append_nil (candidates lib model r.patterns)

  add_models-candidates :
      (p : Provider) (ms : List String) (r : Registry)
      → candidates lib model (add_models lib p ms r).patterns
        ≡ candidates lib model r.patterns ++ matching_in lib model p ms
  unfolding add_models matching_in
  add_models-candidates p [] r = append_nil (candidates lib model r.patterns)
  add_models-candidates p (m ∷ ms) r =
      add_models-candidates p ms (add_model lib p m r)
      ∙ ap (λ xs. xs ++ matching_in lib model p ms) (add_model-candidates p m r)
      ∙ append_assoc (candidates lib model r.patterns) _ (matching_in lib model p ms)
      ∙ ap (λ xs. candidates lib model r.patterns ++ xs)
          (if-append (is_pattern m && matches_pattern lib (pattern_entry lib p m) model) p
            (matching_in lib model p ms))

  add_models-same :
      (p : Provider) (ms : List String) (r : Registry)
      → ((add_models lib p ms r).by_name ≡ r.by_name)
        × ((add_models lib p ms r).weighted ≡ r.weighted)
  unfolding add_models add_model
  add_models-same p [] r = (refl, refl)
  add_models-same p (m ∷ ms) r = ground (arith, add_models-same p ms (add_model lib p m r))

  -- The registry of the providers, from one that holds others.
  pub add_providers-by_model :
      (ps : List Provider) (r : Registry)
      → lookup model (add_providers lib ps r).by_model ≡ owner model (lookup model r.by_model) ps
  unfolding add_providers add_provider owner
  add_providers-by_model [] r = refl
  add_providers-by_model (p ∷ ps) r =
      add_providers-by_model ps (add_provider lib p r)
      ∙ ap (λ o. owner model o ps) (add_models-by_model p p.models _)

  pub add_providers-candidates :
      (ps : List Provider) (r : Registry)
      → candidates lib model (add_providers lib ps r).patterns
        ≡ candidates lib model r.patterns ++ matching lib model ps
  unfolding add_providers add_provider matching
  add_providers-candidates [] r = add_models-candidates (record { name = ""; models = [] }) [] r
  add_providers-candidates (p ∷ ps) r =
      add_providers-candidates ps (add_provider lib p r)
      ∙ ap (λ xs. xs ++ matching lib model ps) (add_models-candidates p p.models _)
      ∙ append_assoc (candidates lib model r.patterns) (matching_in lib model p p.models)
          (matching lib model ps)

  pub add_providers-by_name :
      (name : String) (ps : List Provider) (r : Registry)
      → lookup name (add_providers lib ps r).by_name ≡ named name (lookup name r.by_name) ps
  unfolding add_providers add_provider named
  add_providers-by_name name [] r = refl
  add_providers-by_name name (p ∷ ps) r =
      add_providers-by_name name ps (add_provider lib p r)
      ∙ ap (λ o. named name o ps)
          (ap (lookup name) (add_models-same p p.models _).0
            ∙ lookup-insert p.name name p r.by_name)

  pub add_providers-weighted :
      (ps : List Provider) (r : Registry) → (add_providers lib ps r).weighted ≡ r.weighted
  unfolding add_providers add_provider
  add_providers-weighted [] r = refl
  add_providers-weighted (p ∷ ps) r =
      add_providers-weighted ps (add_provider lib p r) ∙ (add_models-same p p.models _).1

  abbrev with_weight : WeightedConfig → Option Provider → List WeightedEntry → List WeightedEntry
  with_weight w o rest = elim o [
    | some p ↦ (record { provider = p; weight = w.weight }) ∷ rest
    | none ↦ rest
  ]

  pub weighted_entries-weights_of :
      (ps : List Provider) (by_name : Dict Provider) (ws : List WeightedConfig)
      → ((name : String) → lookup name by_name ≡ named name none ps)
      → weighted_entries lib by_name ws ≡ weights_of ps ws
  unfolding weighted_entries weights_of
  weighted_entries-weights_of ps by_name [] h = refl
  weighted_entries-weights_of ps by_name (w ∷ ws) h =
      ap (λ o. with_weight w o (weighted_entries lib by_name ws)) (h (provider_name w))
      ∙ ap (with_weight w (named (provider_name w) none ps))
          (weighted_entries-weights_of ps by_name ws h)
