-- ===== src/Router/Known.antt =====
-- Requests are only routed to providers that the registry was built from.
use mathlib.Core.List.{Memᴰ}
use llm_api_gateway.Prelude.{
  ℕ, ◌≡◌, refl, subst, String, str_eq, Dict, lookup, Option, none, some, List, [], ◌∷◌, All, inl,
  inr, Bool-cases,
}
use llm_api_gateway.Router.{
  Provider, Patterns, PatternEntry, WeightedEntry, WeightedConfig, Registry, is_pattern,
  matches_pattern, new_registry,
}
use llm_api_gateway.Router.Resolve.{
  key_ltb, key_matches, insert_key, weighted_keys, first_key, candidates, or_weighted,
  pick_candidate, resolve_pattern, resolve,
}
use llm_api_gateway.Router.Built.{
  Ok, EntriesOk, ListsOk, AllOk, lookup-Ok, pick_weighted-Ok, get_elem?-Ok, new_registry-AllOk,
}

module _ (P : Provider → Type 0) where
  module _ (lib : Patterns) where
    insert_key-Ok :
        (k : String × List WeightedEntry) (ks : Dict (List WeightedEntry))
        → EntriesOk P k.1
        → ListsOk P ks
        → ListsOk P (insert_key lib k ks)
    unfolding insert_key
    insert_key-Ok k [] q h = (q, tt)
    insert_key-Ok k (j ∷ js) q h = elim (Bool-cases (key_ltb lib j.0 k.0)) [
      | inl e ↦ rw e (h.0, insert_key-Ok k js q h.1)
      | inr e ↦ rw e (q, h)
    ]

    weighted_keys-Ok :
        (ks : Dict (List WeightedEntry)) → ListsOk P ks → ListsOk P (weighted_keys lib ks)
    unfolding weighted_keys
    weighted_keys-Ok [] h = tt
    weighted_keys-Ok (k ∷ ks) h = elim (Bool-cases (is_pattern k.0)) [
      | inl e ↦ rw e (insert_key-Ok k (weighted_keys lib ks) h.0 (weighted_keys-Ok ks h.1))
      | inr e ↦ rw e (weighted_keys-Ok ks h.1)
    ]

    abbrev ChosenOk : Option (List WeightedEntry) → Type 0
    ChosenOk none = Unit {0}
    ChosenOk (some es) = EntriesOk P es

    lookup-ChosenOk :
        (k : String) (d : Dict (List WeightedEntry)) → ListsOk P d → ChosenOk (lookup k d)
    unfolding lookup
    lookup-ChosenOk k [] h = tt
    lookup-ChosenOk k ((j, es) ∷ d) h = elim (Bool-cases (str_eq j k)) [
      | inl q ↦ rw q h.0
      | inr q ↦ rw q (lookup-ChosenOk k d h.1)
    ]

    first_key-ChosenOk :
        (model : String) (ks : Dict (List WeightedEntry))
        → ListsOk P ks
        → ChosenOk (first_key lib model ks)
    unfolding first_key
    first_key-ChosenOk model [] h = tt
    first_key-ChosenOk model ((key, es) ∷ ks) h = elim (Bool-cases (key_matches lib key model)) [
      | inl q ↦ rw q h.0
      | inr q ↦ rw q (first_key-ChosenOk model ks h.1)
    ]

    candidates-Ok :
        (model : String) (es : List PatternEntry)
        → All (λ (e : PatternEntry). P e.provider) es
        → All P (candidates lib model es)
    unfolding candidates
    candidates-Ok model [] h = tt
    candidates-Ok model (e ∷ es) h = elim (Bool-cases (matches_pattern lib e model)) [
      | inl q ↦ rw q (h.0, candidates-Ok model es h.1)
      | inr q ↦ rw q (candidates-Ok model es h.1)
    ]

    module _ (rand : ℕ → ℕ) where
      or_weighted-Ok :
          (o : Option (List WeightedEntry)) (rest : Option Provider)
          → ChosenOk o
          → Ok P rest
          → Ok P (or_weighted lib rand o rest)
      unfolding or_weighted
      or_weighted-Ok none rest h k = k
      or_weighted-Ok (some []) rest h k = k
      or_weighted-Ok (some (e ∷ es)) rest h k = pick_weighted-Ok P rand (e ∷ es) h

      pick_candidate-Ok : (ps : List Provider) → All P ps → Ok P (pick_candidate lib rand ps)
      unfolding pick_candidate
      pick_candidate-Ok [] h = tt
      pick_candidate-Ok (p ∷ []) h = h.0
      pick_candidate-Ok (p ∷ q ∷ ps) h = get_elem?-Ok P (p ∷ q ∷ ps) _ h

      resolve-Ok : (model : String) (r : Registry) → AllOk P r → Ok P (resolve lib rand model r)
      unfolding resolve resolve_pattern
      resolve-Ok model r h =
          or_weighted-Ok (lookup model r.weighted) _ (lookup-ChosenOk model r.weighted h.lists)
            (exact (lookup model r.by_model) (lookup-Ok P model r.by_model h.models))
        where
          globs_Ok : Ok P (resolve_pattern lib rand model r)
          globs_Ok =
              or_weighted-Ok (first_key lib model (weighted_keys lib r.weighted)) _
                (first_key-ChosenOk model _ (weighted_keys-Ok r.weighted h.lists))
                (pick_candidate-Ok (candidates lib model r.patterns)
                  (candidates-Ok model r.patterns h.globs))

          exact :
              (o : Option Provider)
              → Ok P o
              → Ok P (elim o [ some p ↦ some p | none ↦ resolve_pattern lib rand model r ])
          exact (some p) q = q
          exact none q = globs_Ok

All-tail :
    (P Q : Provider → Type 0) (ps : List Provider)
    → ((p : Provider) → P p → Q p)
    → All P ps
    → All Q ps
All-tail P Q [] f h = tt
All-tail P Q (p ∷ ps) f h = (f p h.0, All-tail P Q ps f h.1)

All-members : (ps : List Provider) → All (λ p. Memᴰ p ps) ps
All-members [] = tt
All-members (p ∷ ps) = (Memᴰ.head refl, All-tail _ _ ps (λ q m. Memᴰ.tail m) (All-members ps))

-- Whatever the configuration and the draw, a registry resolves a model only to one of the
-- providers that it was built from.
pub resolve-member :
    (lib : Patterns) (rand : ℕ → ℕ) (providers : List Provider) (aliases : Dict (List String))
    (weighted : Dict (List WeightedConfig)) (model : String) (p : Provider)
    → resolve lib rand model (new_registry lib providers aliases weighted) ≡ some p
    → Memᴰ p providers
resolve-member lib rand providers aliases weighted model p e =
    subst (Ok (λ q. Memᴰ q providers)) e (
      resolve-Ok (λ q. Memᴰ q providers) lib rand model _
        (new_registry-AllOk (λ q. Memᴰ q providers) lib providers aliases weighted
          (All-members providers)))
