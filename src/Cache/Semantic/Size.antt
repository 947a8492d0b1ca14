-- ===== src/Cache/Semantic/Size.antt =====
-- The semantic index never outgrows its capacity.
use llm_api_gateway.Prelude.{
  ℕ, zero, suc, ◌+◌, ◌-◌, ◌≤◌, ◌<◌, ◌≡◌, refl, ltb, ℤ, String, Option, none, some, List, [], ◌∷◌,
  length, if◌then◌else◌, arith,
}
use llm_api_gateway.Cache.Semantic.{
  Semantic, SemanticEntry, oldest_from, remove_at, remove_oldest, evict, add_vector, set_semantic,
  vector_of,
}

module _ {F : Type 0} where
  oldest_from-bound :
      (i o u : ℕ) (es : List (SemanticEntry F)) → o < i → oldest_from i o u es < i + length es
  unfolding oldest_from
  oldest_from-bound i o u [] h = omega arith
  oldest_from-bound i o u (e ∷ es) h = ground (
    arith,
    oldest_from-bound (suc i) (if ltb e.last_used u then i else o)
        (if ltb e.last_used u then e.last_used else u) es,
  )

  length-remove_at :
      (i : ℕ) (es : List (SemanticEntry F))
      → i < length es
      → suc (length (remove_at i es)) ≡ length es
  unfolding remove_at
  length-remove_at i [] h = absurd (omega arith)
  length-remove_at zero (e ∷ es) h = refl
  length-remove_at (suc i) (e ∷ es) h = omega (arith, length-remove_at i es)

  length-remove_oldest : (es : List (SemanticEntry F)) → length (remove_oldest es) ≡ length es - 1
  unfolding remove_oldest
  length-remove_oldest [] = refl
  length-remove_oldest (e ∷ es) = omega (
    arith,
    oldest_from-bound 1 0 e.last_used es,
    length-remove_at (oldest_from 1 0 e.last_used es) (e ∷ es),
  )

  length-evict : (n : ℕ) (es : List (SemanticEntry F)) → length (evict n es) ≡ length es - n
  unfolding evict
  length-evict zero es = omega arith
  length-evict (suc n) es =
      omega (arith, length-remove_oldest es, length-evict n (remove_oldest es))

  module _ {X : Type 0} (embed : Option (String → Option (List F)))
      (cosine : List F → List F → ℤ) where
    add_vector-fits :
        (now : ℕ) (namespace key : String) (ttl : ℕ) (o : Option (List F)) (s : Semantic F X)
        → length s.entries ≤ s.max_entries
        → length (add_vector embed cosine now namespace key ttl o s).entries ≤ s.max_entries
    unfolding add_vector
    add_vector-fits now namespace key ttl none s h = h
    add_vector-fits now namespace key ttl (some v) s h = rw (length-evict _ _) (omega arith)

    -- `SetSemantic` leaves at most as many entries in the index as its capacity, if there were no
    -- more before, whatever the embedding gives.
    pub set_semantic-fits :
        (put : X → X) (now : ℕ) (namespace query key : String) (ttl : ℕ) (s : Semantic F X)
        → length s.entries ≤ s.max_entries
        → length (set_semantic embed cosine put now namespace query key ttl s).entries
          ≤ s.max_entries
    unfolding set_semantic
    set_semantic-fits put now namespace query key ttl s h =
        add_vector-fits now namespace key ttl (vector_of embed cosine s.enabled query)
          (record s { exact = put s.exact }) h
