-- ===== src/Cache/Memory/Capacity.antt =====
-- The cache never outgrows its capacity, and holds a key once.
use llm_api_gateway.Prelude.{
  ℕ, suc, ◌≤◌, ◌≡◌, refl, ltb, leb, Bool-cases, ℤ, String, str_eq, eq_iff, Option, none, some, List,
  [], ◌∷◌, length, arith, inl, inr,
}
use llm_api_gateway.Cache.Memory.{
  Entry, Memory, new_memory, find, remove, drop_back, get_element, get, room_for, set, delete,
}

-- One call of the cache.
pub data Call (V : Type 0) : Type 0 where
  gets : ℕ → String → Call V
  sets : ℕ → String → V → ℕ → Call V
  deletes : String → Call V

module _ {V : Type 0} where
  unfoldable pub step : Memory V → Call V → Memory V
  step m (gets now key) = (get now key m).0
  step m (sets now key value ttl) = set now key value ttl m
  step m (deletes key) = delete key m

  unfoldable pub run : Memory V → List (Call V) → Memory V
  run m [] = m
  run m (c ∷ cs) = run (step m c) cs

  -- No two entries have the same key.
  abbrev pub Unique : List (Entry V) → Type 0
  Unique [] = Unit {0}
  Unique (e ∷ es) = (find e.key es ≡ none) × Unique es

  pub record IsWf (m : Memory V) : Type 0 where
    pub has_room : 1 ≤ m.max_size
    pub fits : length m.entries ≤ m.max_size
    pub unique : Unique m.entries

  length-remove : (key : String) (es : List (Entry V)) → length (remove key es) ≤ length es
  unfolding remove
  length-remove key [] = omega arith
  length-remove key (e ∷ es) = ground (arith, length-remove key es)

  length-remove_found :
      (key : String) (es : List (Entry V)) (x : Entry V)
      → find key es ≡ some x
      → suc (length (remove key es)) ≡ length es
  unfolding remove find
  length-remove_found key [] x h = cc
  length-remove_found key (e ∷ es) x h = ground (arith, length-remove_found key es x)

  find-key : (key : String) (es : List (Entry V)) (x : Entry V) → find key es ≡ some x → x.key ≡ key
  unfolding find
  find-key key [] x h = cc
  find-key key (e ∷ es) x h = ground (arith, find-key key es x, eq_iff e.key key)

  find-remove_missing :
      (key other : String) (es : List (Entry V))
      → find other es ≡ none
      → find other (remove key es) ≡ none
  unfolding remove find
  find-remove_missing key other [] h = refl
  find-remove_missing key other (e ∷ es) h = ground (arith, find-remove_missing key other es)

  find-remove : (key : String) (es : List (Entry V)) → Unique es → find key (remove key es) ≡ none
  unfolding remove find
  find-remove key [] u = refl
  find-remove key (e ∷ es) u = ground (arith, find-remove key es, eq_iff e.key key)

  remove-Unique : (key : String) (es : List (Entry V)) → Unique es → Unique (remove key es)
  unfolding remove
  remove-Unique key [] u = tt
  remove-Unique key (e ∷ es) u = elim (Bool-cases (str_eq e.key key)) [
    | inl q ↦ rw q u.1
    | inr q ↦ rw q (find-remove_missing key e.key es u.0, remove-Unique key es u.1)
  ]

  find-drop_back :
      (key : String) (es : List (Entry V)) → find key es ≡ none → find key (drop_back es) ≡ none
  unfolding drop_back find
  find-drop_back key [] h = refl
  find-drop_back key (e ∷ []) h = refl
  find-drop_back key (e ∷ f ∷ es) h = ground (arith, find-drop_back key (f ∷ es))

  drop_back-Unique : (es : List (Entry V)) → Unique es → Unique (drop_back es)
  unfolding drop_back
  drop_back-Unique [] u = tt
  drop_back-Unique (e ∷ []) u = tt
  drop_back-Unique (e ∷ f ∷ es) u =
      (find-drop_back e.key (f ∷ es) u.0, drop_back-Unique (f ∷ es) u.1)

  length-drop_back : (e : Entry V) (es : List (Entry V)) → length (drop_back (e ∷ es)) ≡ length es
  unfolding drop_back
  length-drop_back e [] = refl
  length-drop_back e (f ∷ es) = ground (arith, length-drop_back f es)

  new_memory-IsWf : (n : ℤ) → IsWf (new_memory {V = V} n)
  unfolding new_memory
  new_memory-IsWf n = record { has_room = ground arith; fits = omega arith; unique = tt }

  drop_back-fits :
      (n : ℕ) (es : List (Entry V)) → length es ≤ n → 1 ≤ n → suc (length (drop_back es)) ≤ n
  unfolding drop_back
  drop_back-fits n [] h k = k
  drop_back-fits n (e ∷ es) h k = omega (arith, length-drop_back e es)

  room_for-fits :
      (key : String) (o : Option (Entry V)) (m : Memory V)
      → find key m.entries ≡ o
      → IsWf m
      → (suc (length (room_for key o m)) ≤ m.max_size)
        × (find key (room_for key o m) ≡ none)
        × Unique (room_for key o m)
  unfolding room_for
  room_for-fits key (some x) m e w = (
    omega (arith, w.fits, length-remove_found key m.entries x e),
    find-remove key m.entries w.unique,
    remove-Unique key m.entries w.unique,
  )
  room_for-fits key none m e w = elim (Bool-cases (leb m.max_size (length m.entries))) [
    | inl full ↦ rw full (
      drop_back-fits m.max_size m.entries w.fits w.has_room,
      find-drop_back key m.entries e,
      drop_back-Unique m.entries w.unique,
    )
    | inr free ↦ rw free (ground arith, e, w.unique)
  ]

  set-IsWf :
      (now : ℕ) (key : String) (value : V) (ttl : ℕ) (m : Memory V)
      → IsWf m
      → IsWf (set now key value ttl m)
  unfolding set
  set-IsWf now key value ttl m w =
      let (fits, fresh, unique) = room_for-fits key (find key m.entries) m refl w in
      record { has_room = w.has_room; fits = fits; unique = (fresh, unique) }

  get-IsWf : (now : ℕ) (key : String) (m : Memory V) → IsWf m → IsWf (get now key m).0
  unfolding get get_element
  get-IsWf now key m w = element (find key m.entries) refl
    where
      element : (o : Option (Entry V)) → find key m.entries ≡ o → IsWf (get_element now key o m).0
      element none e = record { has_room = w.has_room; fits = w.fits; unique = w.unique }
      element (some x) e = elim (Bool-cases (ltb x.expires_at now)) [
        | inl q ↦ rw q (record {
          has_room = w.has_room;
          fits = omega (arith, w.fits, length-remove key m.entries);
          unique = remove-Unique key m.entries w.unique;
        })
        | inr q ↦ rw q (record {
          has_room = w.has_room;
          fits = omega (arith, w.fits, length-remove_found key m.entries x e);
          unique = (
            rw (find-key key m.entries x e) (find-remove key m.entries w.unique),
            remove-Unique key m.entries w.unique,
          );
        })
      ]

  step-IsWf : (m : Memory V) (c : Call V) → IsWf m → IsWf (step m c)
  unfolding step delete
  step-IsWf m (gets now key) w = get-IsWf now key m w
  step-IsWf m (sets now key value ttl) w = set-IsWf now key value ttl m w
  step-IsWf m (deletes key) w = record {
    has_room = w.has_room;
    fits = omega (arith, w.fits, length-remove key m.entries);
    unique = remove-Unique key m.entries w.unique;
  }

  run-IsWf : (m : Memory V) (cs : List (Call V)) → IsWf m → IsWf (run m cs)
  unfolding run
  run-IsWf m [] w = w
  run-IsWf m (c ∷ cs) w = run-IsWf (step m c) cs (step-IsWf m c w)

  -- After every history of calls on a new cache, it holds at most as many entries as its capacity,
  -- which is positive, and no two entries have the same key.
  pub run-new_memory-IsWf : (n : ℤ) (cs : List (Call V)) → IsWf (run (new_memory n) cs)
  run-new_memory-IsWf n cs = run-IsWf (new_memory n) cs (new_memory-IsWf n)
