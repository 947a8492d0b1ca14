-- ===== src/Samples/Cache.antt =====
-- Small caches on concrete inputs.
use llm_api_gateway.Prelude.{ℕ, ◌≡◌, refl, true, ℤ, pos, String, Option, some, List, [], ◌∷◌, arith}
use llm_api_gateway.Cache.Memory.{Memory, new_memory, get, set}
use llm_api_gateway.Cache.Memory.Capacity.{
  Call, sets, gets, deletes, run, IsWf, run-new_memory-IsWf,
}
use llm_api_gateway.Cache.Memory.Recall.{stored, key_of, get-run}
use llm_api_gateway.Cache.Semantic as Semantic
use llm_api_gateway.Cache.Semantic.Lookup.{FromCache, IsMatch, lookup-FromCache}

abbrev calls : List (Call ℕ)
calls = sets 1 "a" 10 5 ∷ sets 2 "b" 20 5 ∷ gets 3 "a" ∷ deletes "b" ∷ []

run-new_memory-IsWf_example : IsWf (run (new_memory (pos 1)) calls)
run-new_memory-IsWf_example = run-new_memory-IsWf (pos 1) calls

abbrev three_places : Memory ℕ
three_places = record { max_size = 3; entries = []; hits = 0; misses = 0 }

get-run_example :
    (get 6 "a" (run (set 1 "a" 10 5 three_places) (sets 2 "b" 20 5 ∷ gets 3 "b" ∷ []))).1 ≡ some 10
unfolding key_of
get-run_example =
    get-run 6 "a" (sets 2 "b" 20 5 ∷ gets 3 "b" ∷ []) three_places (set 1 "a" 10 5 three_places)
      (record { key = "a"; value = 10; expires_at = 6 }) (stored 1 10 5 refl refl)
      (refl, (refl, tt)) (omega arith) (omega arith)

-- Every text has the same vector, and all vectors are alike.
abbrev embed : Option (String → Option (List ℕ))
embed = some (λ s. some (1 ∷ []))

abbrev alike : List ℕ → List ℕ → ℤ
alike a b = pos 100

-- An exact cache of one value under every key.
abbrev get_seven : String → ℕ → ℕ × Option ℕ
get_seven key x = (x, some 7)

abbrev entry : Semantic.SemanticEntry ℕ
entry = record { namespace = "n"; key = "k"; vector = 1 ∷ []; expires_at = 9; last_used = 1 }

abbrev index : Semantic.Semantic ℕ ℕ
index = record {
  exact = 0;
  enabled = true;
  threshold = pos 97;
  top_k = 3;
  max_entries = 1;
  entries = entry ∷ [];
  clock = 1;
}

looked_up : (Semantic.lookup embed alike get_seven 5 "n" "hello" index).1 ≡ some 7
unfolding Semantic.lookup Semantic.vector_of Semantic.is_candidate Semantic.candidates
    Semantic.sort_candidates Semantic.first_n Semantic.try_candidates Semantic.answer_or
looked_up = refl

lookup-FromCache_example :
    (vector : List ℕ) × (Semantic.vector_of embed alike true "hello" ≡ some vector)
    × FromCache embed alike get_seven
        (IsMatch embed alike get_seven 5 "n" vector (pos 97) (entry ∷ []))
        0
        7
lookup-FromCache_example = lookup-FromCache embed alike get_seven 5 "n" "hello" index 7 looked_up
