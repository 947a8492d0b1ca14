-- ===== src/Cache/Semantic/Lookup.antt =====
-- What a semantic lookup may answer.
use mathlib.Core.List.{Memᴰ}
use llm_api_gateway.Prelude.{
  ℕ, zero, suc, ◌≡◌, refl, ap, sym, subst, ◌∙◌, length, ◌≤ℤ◌, eq_iff, Bool-cases, false, not, ◌&&◌,
  ltb, ltb_ℤ, ℤ, String, Option, none, some, List, [], ◌∷◌, arith, All, inl, inr,
}
use llm_api_gateway.Cache.Semantic.{
  Semantic, SemanticEntry, SemanticCandidate, insert_candidate, sort_candidates, first_n,
  is_candidate, candidates, vector_of, answer_or, try_candidates, lookup_vector, lookup,
}

module _ {F : Type 0} (P : SemanticCandidate F → Type 0) where
  insert_candidate-All :
      (c : SemanticCandidate F) (cs : List (SemanticCandidate F))
      → P c
      → All P cs
      → All P (insert_candidate c cs)
  unfolding insert_candidate
  insert_candidate-All c [] p h = (p, tt)
  insert_candidate-All c (d ∷ ds) p h = elim (Bool-cases (ltb_ℤ c.score d.score)) [
    | inl q ↦ rw q (h.0, insert_candidate-All c ds p h.1)
    | inr q ↦ rw q (p, h)
  ]

  sort_candidates-All : (cs : List (SemanticCandidate F)) → All P cs → All P (sort_candidates cs)
  unfolding sort_candidates
  sort_candidates-All [] h = tt
  sort_candidates-All (c ∷ cs) h =
      insert_candidate-All c (sort_candidates cs) h.0 (sort_candidates-All cs h.1)

  first_n-All : (n : ℕ) (cs : List (SemanticCandidate F)) → All P cs → All P (first_n n cs)
  unfolding first_n
  first_n-All zero cs h = tt
  first_n-All (suc n) [] h = tt
  first_n-All (suc n) (c ∷ cs) h = (h.0, first_n-All n cs h.1)

module _ {F X V : Type 0} (embed : Option (String → Option (List F))) (cosine : List F → List F → ℤ)
    (get : String → X → X × Option V) where
  -- An entry that a lookup may answer with: it is in the index and has not expired, its namespace is
  -- the one asked for, and its vector is as long as that of the query and similar enough.
  pub record IsMatch (now : ℕ) (namespace : String) (vector : List F) (threshold : ℤ)
      (es : List (SemanticEntry F)) (e : SemanticEntry F) : Type 0 where
    pub indexed : Memᴰ e es
    pub in_time : ltb e.expires_at now ≡ false
    pub same_namespace : e.namespace ≡ namespace
    pub same_length : length e.vector ≡ length vector
    pub similar : threshold ≤ℤ cosine vector e.vector

  IsMatch-later :
      (now : ℕ) (namespace : String) (vector : List F) (threshold : ℤ) (es : List (SemanticEntry F))
      (f e : SemanticEntry F)
      → IsMatch now namespace vector threshold es e
      → IsMatch now namespace vector threshold (f ∷ es) e
  IsMatch-later now namespace vector threshold es f e h = record {
    indexed = Memᴰ.tail h.indexed;
    in_time = h.in_time;
    same_namespace = h.same_namespace;
    same_length = h.same_length;
    similar = h.similar;
  }

  All-later :
      (P Q : SemanticCandidate F → Type 0) (cs : List (SemanticCandidate F))
      → ((c : SemanticCandidate F) → P c → Q c)
      → All P cs
      → All Q cs
  All-later P Q [] f h = tt
  All-later P Q (c ∷ cs) f h = (f c h.0, All-later P Q cs f h.1)

  candidates-IsMatch :
      (now : ℕ) (namespace : String) (vector : List F) (threshold : ℤ) (es : List (SemanticEntry F))
      → All
          (λ (c : SemanticCandidate F). IsMatch now namespace vector threshold es c.entry)
          (candidates embed cosine now namespace vector threshold es)
  unfolding candidates is_candidate
  candidates-IsMatch now namespace vector threshold [] = tt
  candidates-IsMatch now namespace vector threshold (e ∷ es) =
      let rest =
        All-later _ _ _ (λ c. IsMatch-later now namespace vector threshold es e c.entry)
          (candidates-IsMatch now namespace vector threshold es) in
      elim (Bool-cases
        (not (ltb e.expires_at now) && is_candidate embed cosine namespace vector threshold e)) [
          | inl q ↦ rw q (
            record {
              indexed = Memᴰ.head refl;
              in_time = ground (arith, q);
              same_namespace = ground (arith, q, eq_iff e.namespace namespace);
              same_length = ground (arith, q);
              similar = ground (arith, q);
            },
            rest,
          )
          | inr q ↦ rw q rest
        ]

  -- The exact cache after reads under the keys of entries.
  unfoldable pub read_all : List (SemanticEntry F) → X → X
  read_all [] x = x
  read_all (e ∷ es) x = read_all es (get e.key x).0

  -- Each of these reads finds nothing.
  abbrev pub AllMissing : List (SemanticEntry F) → X → Type 0
  AllMissing [] x = Unit
  AllMissing (e ∷ es) x = ((get e.key x).1 ≡ none) × AllMissing es (get e.key x).0

  -- Reads of the cache `x` under the keys of entries with `P` find nothing, and the next one, under the
  -- key of such an entry, finds the value.
  abbrev pub FromCache : (SemanticEntry F → Type 0) → X → V → Type 0
  FromCache P x value =
      (tried : List (SemanticEntry F)) × All P tried
      × AllMissing tried x
      × ((e : SemanticEntry F) × P e × ((get e.key (read_all tried x)).1 ≡ some value))

  FromCache-later :
      (P : SemanticEntry F → Type 0) (e : SemanticEntry F) (x : X) (value : V)
      → P e
      → (get e.key x).1 ≡ none
      → FromCache P (get e.key x).0 value
      → FromCache P x value
  unfolding read_all
  FromCache-later P e x value p n (tried, ps, miss, found) = (e ∷ tried, (p, ps), (n, miss), found)

  try_candidates-FromCache :
      (P : SemanticEntry F → Type 0) (namespace : String) (cs : List (SemanticCandidate F))
      (s : Semantic F X) (value : V)
      → All (λ (c : SemanticCandidate F). P c.entry) cs
      → (try_candidates embed cosine get namespace cs s).1 ≡ some value
      → FromCache P s.exact value
  unfolding try_candidates answer_or read_all
  try_candidates-FromCache P namespace [] s value h e = cc
  try_candidates-FromCache P namespace (c ∷ cs) s value h e =
      answered (get c.entry.key s.exact) refl
        (λ x. try_candidates-FromCache P namespace cs (record s { exact = x }) value h.1) e
    where
      answered :
          (r : X × Option V)
          → get c.entry.key s.exact ≡ r
          → ((x : X)
              → (try_candidates embed cosine get namespace cs (record s { exact = x })).1
                ≡ some value
              → FromCache P x value)
          → (answer_or namespace c s r
              (λ x. try_candidates embed cosine get namespace cs (record s { exact = x }))).1
            ≡ some value
          → FromCache P s.exact value
      answered (x, none) g rest f =
          FromCache-later P c.entry s.exact value h.0 (ap (λ (r : X × Option V). r.1) g)
            (subst (λ (r : X × Option V). FromCache P r.0 value) (sym g) (rest x f))
      answered (x, some v) g rest f =
          ([], tt, tt, (c.entry, h.0, ap (λ (r : X × Option V). r.1) g ∙ f))

  -- If `Lookup` answers, then the query has a vector, and the answer is what the exact cache returns
  -- under the key of an entry that was in the index, had not expired, belongs to the namespace asked
  -- for, and whose vector is as long as the query's and similar to it up to the threshold, after
  -- reads, which found nothing, under the keys of such entries alone.
  pub lookup-FromCache :
      (now : ℕ) (namespace query : String) (s : Semantic F X) (value : V)
      → (lookup embed cosine get now namespace query s).1 ≡ some value
      → (vector : List F) × (vector_of embed cosine s.enabled query ≡ some vector)
        × FromCache (IsMatch now namespace vector s.threshold s.entries) s.exact value
  unfolding lookup lookup_vector
  lookup-FromCache now namespace query s value e =
      found (vector_of embed cosine s.enabled query) refl e
    where
      found :
          (o : Option (List F))
          → vector_of embed cosine s.enabled query ≡ o
          → (lookup_vector embed cosine get now namespace o s).1 ≡ some value
          → (vector : List F) × (vector_of embed cosine s.enabled query ≡ some vector)
            × FromCache (IsMatch now namespace vector s.threshold s.entries) s.exact value
      found none v f = cc
      found (some vector) v f = (
        vector,
        v,
        try_candidates-FromCache (IsMatch now namespace vector s.threshold s.entries) namespace _ _
            value
            (first_n-All _ s.top_k _ (
              sort_candidates-All _ _
                (candidates-IsMatch now namespace vector s.threshold s.entries)))
            f,
      )
