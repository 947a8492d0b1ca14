-- ===== src/Router/Built.antt =====
-- What the registry is built from is all that it holds.
use llm_api_gateway.Prelude.{
  ℕ, zero, suc, ◌+◌, String, str_eq, Dict, lookup, insert, Option, none, some, List, [], ◌∷◌, ◌++◌,
  get_elem?, arith, All, inl, inr, Bool-cases,
}
use llm_api_gateway.Router.{
  Provider, Patterns, PatternEntry, WeightedEntry, WeightedConfig, Registry, is_pattern, pick_from,
  pick_weighted, total_weight, provider_name, add_model, add_models, add_provider, add_providers,
  weighted_entries, put_weighted, add_weighted, new_registry, pattern_entry,
}

All-insert :
    {V : Type 0} (Q : String × V → Type 0) (k : String) (v : V) (d : Dict V)
    → Q (k, v)
    → All Q d
    → All Q (insert k v d)
unfolding insert
All-insert Q k v [] q h = (q, tt)
All-insert Q k v ((j, w) ∷ d) q h = elim (Bool-cases (str_eq j k)) [
  | inl e ↦ rw e (q, h.1)
  | inr e ↦ rw e (h.0, All-insert Q k v d q h.1)
]

All-append : {V : Type 0} (Q : V → Type 0) (xs ys : List V) → All Q xs → All Q ys → All Q (xs ++ ys)
All-append Q [] ys h k = k
All-append Q (x ∷ xs) ys h k = (h.0, All-append Q xs ys h.1 k)

module _ (P : Provider → Type 0) where
  -- The provider, if there is one, satisfies `P`.
  abbrev pub Ok : Option Provider → Type 0
  Ok none = Unit {0}
  Ok (some p) = P p

  abbrev pub EntriesOk : List WeightedEntry → Type 0
  EntriesOk = All (λ (e : WeightedEntry). P e.provider)

  abbrev pub ListsOk : Dict (List WeightedEntry) → Type 0
  ListsOk = All (λ (k : String × List WeightedEntry). EntriesOk k.1)

  abbrev pub DictOk : Dict Provider → Type 0
  DictOk = All (λ (k : String × Provider). P k.1)

  -- Every provider in the registry satisfies `P`.
  pub record AllOk (r : Registry) : Type 0 where
    pub names : DictOk r.by_name
    pub models : DictOk r.by_model
    pub lists : ListsOk r.weighted
    pub globs : All (λ (e : PatternEntry). P e.provider) r.patterns

  pub lookup-Ok : (k : String) (d : Dict Provider) → DictOk d → Ok (lookup k d)
  unfolding lookup
  lookup-Ok k [] h = tt
  lookup-Ok k ((j, p) ∷ d) h = elim (Bool-cases (str_eq j k)) [
    | inl q ↦ rw q h.0
    | inr q ↦ rw q (lookup-Ok k d h.1)
  ]

  pick_from-Ok :
      (n acc : ℕ) (last : Option Provider) (es : List WeightedEntry)
      → Ok last
      → EntriesOk es
      → Ok (pick_from n acc last es)
  unfolding pick_from
  pick_from-Ok n acc last [] l h = l
  pick_from-Ok n acc last (e ∷ es) l h =
      ground (arith, pick_from-Ok n (acc + e.weight) (some e.provider) es h.0 h.1)

  pub pick_weighted-Ok :
      (rand : ℕ → ℕ) (es : List WeightedEntry) → EntriesOk es → Ok (pick_weighted rand es)
  unfolding pick_weighted
  pick_weighted-Ok rand [] h = tt
  pick_weighted-Ok rand (e ∷ es) h =
      ground (arith, h.0, pick_from-Ok (rand (total_weight (e ∷ es))) 0 none (e ∷ es) tt h)

  pub get_elem?-Ok : (ps : List Provider) (i : ℕ) → All P ps → Ok (get_elem? ps i)
  get_elem?-Ok [] i h = tt
  get_elem?-Ok (p ∷ ps) zero h = h.0
  get_elem?-Ok (p ∷ ps) (suc i) h = get_elem?-Ok ps i h.1

  module _ (lib : Patterns) where
    add_model-AllOk :
        (p : Provider) (model : String) (r : Registry)
        → P p
        → AllOk r
        → AllOk (add_model lib p model r)
    unfolding add_model
    add_model-AllOk p model r q h = elim (Bool-cases (is_pattern model)) [
      | inl e ↦ rw e (record {
        names = h.names;
        models = h.models;
        lists = h.lists;
        globs = All-append _ r.patterns (pattern_entry lib p model ∷ []) h.globs (q, tt);
      })
      | inr e ↦ rw e (record {
        names = h.names;
        models = All-insert _ model p r.by_model q h.models;
        lists = h.lists;
        globs = h.globs;
      })
    ]

    add_models-AllOk :
        (p : Provider) (models : List String) (r : Registry)
        → P p
        → AllOk r
        → AllOk (add_models lib p models r)
    unfolding add_models
    add_models-AllOk p [] r q h = h
    add_models-AllOk p (model ∷ models) r q h =
        add_models-AllOk p models (add_model lib p model r) q (add_model-AllOk p model r q h)

    add_provider-AllOk :
        (p : Provider) (r : Registry) → P p → AllOk r → AllOk (add_provider lib p r)
    unfolding add_provider
    add_provider-AllOk p r q h = add_models-AllOk p p.models _ q (record {
      names = All-insert _ p.name p r.by_name q h.names;
      models = h.models;
      lists = h.lists;
      globs = h.globs;
    })

    add_providers-AllOk :
        (ps : List Provider) (r : Registry) → All P ps → AllOk r → AllOk (add_providers lib ps r)
    unfolding add_providers
    add_providers-AllOk [] r q h = h
    add_providers-AllOk (p ∷ ps) r q h =
        add_providers-AllOk ps (add_provider lib p r) q.1 (add_provider-AllOk p r q.0 h)

    weighted_entries-Ok :
        (d : Dict Provider) (es : List WeightedConfig)
        → DictOk d
        → EntriesOk (weighted_entries lib d es)
    unfolding weighted_entries
    weighted_entries-Ok d [] h = tt
    weighted_entries-Ok d (e ∷ es) h =
        entry_Ok (lookup (provider_name e) d) (lookup-Ok _ d h) (weighted_entries-Ok d es h)
      where
        entry_Ok :
            (o : Option Provider)
            → Ok o
            → EntriesOk (weighted_entries lib d es)
            → EntriesOk (elim o [
              | some p ↦ (record { provider = p; weight = e.weight }) ∷ weighted_entries lib d es
              | none ↦ weighted_entries lib d es
            ])
        entry_Ok (some p) q k = (q, k)
        entry_Ok none q k = k

    put_weighted-AllOk :
        (model : String) (es : List WeightedEntry) (r : Registry)
        → EntriesOk es
        → AllOk r
        → AllOk (put_weighted lib model es r)
    unfolding put_weighted
    put_weighted-AllOk model [] r q h = h
    put_weighted-AllOk model (e ∷ es) r q h = record {
      names = h.names;
      models = h.models;
      lists = All-insert _ model (e ∷ es) r.weighted q h.lists;
      globs = h.globs;
    }

    add_weighted-AllOk :
        (ws : Dict (List WeightedConfig)) (r : Registry) → AllOk r → AllOk (add_weighted lib ws r)
    unfolding add_weighted
    add_weighted-AllOk [] r h = h
    add_weighted-AllOk ((model, es) ∷ ws) r h =
        add_weighted-AllOk ws _
          (put_weighted-AllOk model _ r (weighted_entries-Ok r.by_name es h.names) h)

    pub new_registry-AllOk :
        (ps : List Provider) (aliases : Dict (List String)) (ws : Dict (List WeightedConfig))
        → All P ps
        → AllOk (new_registry lib ps aliases ws)
    unfolding new_registry
    new_registry-AllOk ps aliases ws h =
        add_weighted-AllOk ws _
          (add_providers-AllOk ps _ h (record { names = tt; models = tt; lists = tt; globs = tt }))
