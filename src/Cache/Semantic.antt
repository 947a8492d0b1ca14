-- ===== src/Cache/Semantic.antt =====
-- internal/cache/semantic.go. The exact cache, the embedding function and the cosine of two vectors
-- (computed in float64) are parameters: `get x` and `put x` are the calls of the cache in the state
-- `x`, the embedding is `none` if it fails, and a score is an integer of some small unit. The mutex
-- makes each method one step, and `now` is `time.Now()`.
pub mod Lookup
pub mod Size
use llm_api_gateway.Prelude.{
  ℕ, zero, suc, ◌+◌, ◌-◌, Bool, true, false, not, ◌&&◌, ◌||◌, ltb, leb, ◌==◌, leb_ℤ, ltb_ℤ, ℤ, pos,
  pos_part, String, str_eq, Option, none, some, List, [], ◌∷◌, ◌++◌, length, if◌then◌else◌,
}

pub record SemanticEntry (F : Type 0) : Type 0 where
  pub namespace : String
  pub key : String
  pub vector : List F
  pub expires_at : ℕ
  pub last_used : ℕ

pub record Semantic (F X : Type 0) : Type 0 where
  pub exact : X
  pub enabled : Bool
  pub threshold : ℤ
  pub top_k : ℕ
  pub max_entries : ℕ
  pub entries : List (SemanticEntry F)
  pub clock : ℕ

pub record SemanticCandidate (F : Type 0) : Type 0 where
  pub entry : SemanticEntry F
  pub score : ℤ

module _ {F : Type 0} where
  -- `NewSemanticWithEmbedder`; `usual` is the default threshold, 0.97.
  unfoldable pub new_semantic : {X : Type 0} → ℤ → X → Bool → ℤ → ℤ → ℤ → Semantic F X
  new_semantic usual exact enabled threshold top_k max_entries = record {
    exact = exact;
    enabled = enabled;
    threshold = if leb_ℤ threshold (pos 0) then usual else threshold;
    top_k = if leb_ℤ top_k (pos 0) then 3 else pos_part top_k;
    max_entries = if leb_ℤ max_entries (pos 0) then 1_000 else pos_part max_entries;
    entries = [];
    clock = 0;
  }

  -- The loops that filter the entries.
  unfoldable pub keep_entries :
      (SemanticEntry F → Bool) → List (SemanticEntry F) → List (SemanticEntry F)
  keep_entries p [] = []
  keep_entries p (e ∷ es) = let rest = keep_entries p es in if p e then e ∷ rest else rest

  -- `Delete` of the index, after that of the exact cache
  unfoldable pub delete : {X : Type 0} → (X → X) → String → Semantic F X → Semantic F X
  unfolding keep_entries
  delete drop key s = record s {
    exact = drop s.exact;
    entries = keep_entries (λ e. not (str_eq e.key key)) s.entries;
  }

  unfoldable pub touch : String → String → ℕ → List (SemanticEntry F) → List (SemanticEntry F)
  touch key namespace clock [] = []
  touch key namespace clock (e ∷ es) =
      if str_eq e.key key && str_eq e.namespace namespace
      then (record e { last_used = clock }) ∷ es
      else e ∷ touch key namespace clock es

  -- The stable sort by falling scores.
  unfoldable pub insert_candidate :
      SemanticCandidate F → List (SemanticCandidate F) → List (SemanticCandidate F)
  insert_candidate c [] = c ∷ []
  insert_candidate c (d ∷ ds) =
      if ltb_ℤ c.score d.score then d ∷ insert_candidate c ds else c ∷ d ∷ ds

  unfoldable pub sort_candidates : List (SemanticCandidate F) → List (SemanticCandidate F)
  unfolding insert_candidate
  sort_candidates [] = []
  sort_candidates (c ∷ cs) = insert_candidate c (sort_candidates cs)

  -- `candidates[:n]`, if there are more
  unfoldable pub first_n : ℕ → List (SemanticCandidate F) → List (SemanticCandidate F)
  first_n zero cs = []
  first_n (suc n) [] = []
  first_n (suc n) (c ∷ cs) = c ∷ first_n n cs

  -- The index of the entry used longest ago: `o` is the one so far, used at `u`.
  unfoldable pub oldest_from : ℕ → ℕ → ℕ → List (SemanticEntry F) → ℕ
  oldest_from i o u [] = o
  oldest_from i o u (e ∷ es) =
      oldest_from (suc i) (if ltb e.last_used u then i else o)
        (if ltb e.last_used u then e.last_used else u) es

  unfoldable pub remove_at : ℕ → List (SemanticEntry F) → List (SemanticEntry F)
  remove_at i [] = []
  remove_at zero (e ∷ es) = es
  remove_at (suc i) (e ∷ es) = e ∷ remove_at i es

  unfoldable pub remove_oldest : List (SemanticEntry F) → List (SemanticEntry F)
  unfolding oldest_from remove_at
  remove_oldest [] = []
  remove_oldest (e ∷ es) = remove_at (oldest_from 1 0 e.last_used es) (e ∷ es)

  -- The loop that evicts: it runs once for each entry too many, as each run removes one.
  unfoldable pub evict : ℕ → List (SemanticEntry F) → List (SemanticEntry F)
  unfolding remove_oldest
  evict zero es = es
  evict (suc n) es = evict n (remove_oldest es)

  -- What the exact cache gave for a candidate; `next` is the rest of the loop.
  unfoldable pub answer_or :
      {X V : Type 0}
      → String
      → SemanticCandidate F
      → Semantic F X
      → X × Option V
      → (X → Semantic F X × Option V)
      → Semantic F X × Option V
  answer_or namespace c s (x, none) next = next x
  answer_or namespace c s (x, some value) next = (
    record s {
      exact = x;
      entries = touch c.entry.key namespace (s.clock + 1) s.entries;
      clock = s.clock + 1;
    },
    some value,
  )

  module _ (embed : Option (String → Option (List F))) (cosine : List F → List F → ℤ) where
    -- `s.embed` and its two checks; `none` ends the call early.
    unfoldable pub vector_of : Bool → String → Option (List F)
    vector_of enabled query = elim embed [
      | none ↦ none
      | some f ↦
          if not enabled || str_eq query ""
          then none
          else elim (f query) [ none ↦ none | some [] ↦ none | some (x ∷ xs) ↦ some (x ∷ xs) ]
    ]

    -- Whether `Lookup` takes an entry that has not expired as a candidate.
    unfoldable pub is_candidate : String → List F → ℤ → SemanticEntry F → Bool
    is_candidate namespace vector threshold e =
        (str_eq e.namespace namespace && length e.vector == length vector)
        && leb_ℤ threshold (cosine vector e.vector)

    unfoldable pub candidates :
        ℕ → String → List F → ℤ → List (SemanticEntry F) → List (SemanticCandidate F)
    candidates now namespace vector threshold [] = []
    candidates now namespace vector threshold (e ∷ es) =
        let rest = candidates now namespace vector threshold es in
        if not (ltb e.expires_at now) && is_candidate namespace vector threshold e
        then (record { entry = e; score = cosine vector e.vector }) ∷ rest
        else rest

    module _ {X V : Type 0} (get : String → X → X × Option V) where
      -- The loop over the best candidates: the first that the exact cache still holds is the answer.
      unfoldable pub try_candidates :
          String → List (SemanticCandidate F) → Semantic F X → Semantic F X × Option V
      try_candidates namespace [] s = (s, none)
      try_candidates namespace (c ∷ cs) s =
          let next = try_candidates namespace cs in
          answer_or namespace c s (get c.entry.key s.exact) (λ x. next (record s { exact = x }))

      unfoldable pub lookup_vector :
          ℕ → String → Option (List F) → Semantic F X → Semantic F X × Option V
      unfolding try_candidates
      lookup_vector now namespace none s = (s, none)
      lookup_vector now namespace (some vector) s =
          let kept = keep_entries (λ e. not (ltb e.expires_at now)) s.entries in
          try_candidates namespace
            (first_n s.top_k
              (sort_candidates (candidates now namespace vector s.threshold s.entries)))
            (record s { entries = kept })

      -- `Lookup`
      unfoldable pub lookup : ℕ → String → String → Semantic F X → Semantic F X × Option V
      unfolding lookup_vector
      lookup now namespace query s = lookup_vector now namespace (vector_of s.enabled query) s

    -- `SetSemantic` below the embedding
    unfoldable pub add_vector :
        {X : Type 0} → ℕ → String → String → ℕ → Option (List F) → Semantic F X → Semantic F X
    unfolding evict
    add_vector now namespace key ttl none s = s
    add_vector now namespace key ttl (some vector) s =
        let kept =
          keep_entries
            (λ e. not (ltb e.expires_at now || (str_eq e.namespace namespace && str_eq e.key key)))
            s.entries in
        let entry : SemanticEntry F = record {
          namespace = namespace;
          key = key;
          vector = vector;
          expires_at = now + ttl;
          last_used = s.clock + 1;
        } in
        let all = kept ++ entry ∷ [] in
        record s { entries = evict (length all - s.max_entries) all; clock = s.clock + 1 }

    unfoldable pub set_semantic :
        {X : Type 0} → (X → X) → ℕ → String → String → String → ℕ → Semantic F X → Semantic F X
    unfolding add_vector
    set_semantic put now namespace query key ttl s =
        add_vector now namespace key ttl (vector_of s.enabled query)
          (record s { exact = put s.exact })
