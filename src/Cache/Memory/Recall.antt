-- ===== src/Cache/Memory/Recall.antt =====
-- What was stored or read is found again: the entry that is evicted is the one least recently used.
use llm_api_gateway.Prelude.{
  ℕ, suc, ◌+◌, ◌≤◌, ◌<◌, ◌≡◌, refl, subst, ◌∙◌, Bool, true, false, String, str_eq, eq_iff, eq_refl,
  All, Option, none, some, List, [], ◌∷◌, length, if◌then◌else◌, arith,
}
use llm_api_gateway.Cache.Memory.Capacity.{Call, sets, gets, deletes, step, run}
use llm_api_gateway.Cache.Memory.{
  Entry, Memory, find, remove, drop_back, get_element, get, room_for, set, delete,
}

module _ {V : Type 0} where
  unfoldable pub key_of : Call V → String
  key_of (sets now key value ttl) = key
  key_of (gets now key) = key
  key_of (deletes key) = key

  -- How many entries stand before that of the key.
  unfoldable pub depth : String → List (Entry V) → ℕ
  depth key [] = 0
  depth key (e ∷ es) = let rest = depth key es in if str_eq e.key key then 0 else suc rest

  remove-other :
      (key other : String) (es : List (Entry V))
      → str_eq other key ≡ false
      → (find key (remove other es) ≡ find key es) × (depth key (remove other es) ≤ depth key es)
  unfolding remove find depth
  remove-other key other [] n = (refl, omega arith)
  remove-other key other (e ∷ es) n =
      ground
        (arith, remove-other key other es, eq_iff e.key key, eq_iff e.key other, eq_iff other key)

  drop_back-early :
      (key : String) (es : List (Entry V))
      → suc (depth key es) < length es
      → (find key (drop_back es) ≡ find key es) × (depth key (drop_back es) ≤ depth key es)
  unfolding drop_back find depth
  drop_back-early key [] h = absurd (omega arith)
  drop_back-early key (e ∷ []) h = absurd (omega arith)
  drop_back-early key (e ∷ f ∷ es) h = ground (arith, drop_back-early key (f ∷ es))

  room_for-other :
      (key other : String) (o : Option (Entry V)) (m : Memory V)
      → str_eq other key ≡ false
      → suc (depth key m.entries) < m.max_size
      → (find key (room_for other o m) ≡ find key m.entries)
        × (depth key (room_for other o m) ≤ depth key m.entries)
  unfolding room_for
  room_for-other key other (some x) m n h = remove-other key other m.entries n
  room_for-other key other none m n h = ground (arith, drop_back-early key m.entries)

  some_inj : {x y : Entry V} → some x ≡ some y → x ≡ y
  some_inj e = cc

  find-key :
      (key : String) (es : List (Entry V)) (e : Entry V)
      → find key es ≡ some e
      → str_eq e.key key ≡ true
  unfolding find
  find-key key [] e h = cc
  find-key key (f ∷ es) e h = from_first (str_eq f.key key) (find-key key es e) refl h
    where
      from_first :
          (t : Bool)
          → (find key es ≡ some e → str_eq e.key key ≡ true)
          → str_eq f.key key ≡ t
          → (if t then some f else find key es) ≡ some e
          → str_eq e.key key ≡ true
      from_first true rest q g = subst (λ (x : Entry V). str_eq x.key key ≡ true) (some_inj g) q
      from_first false rest q g = rest g

  -- A call for another key leaves the entry of the key, puts at most one entry before it, and keeps
  -- the capacity.
  abbrev Keeps : String → Memory V → Memory V → Type 0
  Keeps key m m' =
      (find key m'.entries ≡ find key m.entries)
      × (depth key m'.entries ≤ suc (depth key m.entries))
      × (m'.max_size ≡ m.max_size)

  get_element-other :
      (key other : String) (now : ℕ) (o : Option (Entry V)) (m : Memory V)
      → find other m.entries ≡ o
      → str_eq other key ≡ false
      → Keeps key m (get_element now other o m).0
  unfolding get_element find depth
  get_element-other key other now none m f n = (refl, omega arith, refl)
  get_element-other key other now (some e) m f n =
      let (same, d) = remove-other key other m.entries n in
      let k = find-key other m.entries e f in
      ground (arith, same, d, k, eq_iff e.key other, eq_iff e.key key, eq_iff other key)

  step-other :
      (key : String) (u : Call V) (m : Memory V)
      → str_eq (key_of u) key ≡ false
      → suc (depth key m.entries) < m.max_size
      → Keeps key m (step m u)
  unfolding step key_of set get delete find depth
  step-other key (sets now other value ttl) m n h =
      let (f, d) = room_for-other key other (find other m.entries) m n h in
      (rw n f, rw n (omega (arith, d)), refl)
  step-other key (gets now other) m n h =
      get_element-other key other now (find other m.entries) m refl n
  step-other key (deletes other) m n h =
      let (f, d) = remove-other key other m.entries n in (f, omega (arith, d), refl)

  run-other :
      (key : String) (us : List (Call V)) (m : Memory V)
      → All (λ (u : Call V). str_eq (key_of u) key ≡ false) us
      → depth key m.entries + length us < m.max_size
      → find key (run m us).entries ≡ find key m.entries
  unfolding run
  run-other key [] m n h = refl
  run-other key (u ∷ us) m n h =
      let (f, d, size) = step-other key u m n.0 (omega arith) in
      run-other key us (step m u) n.1 (omega (arith, d, size)) ∙ f

  get-find :
      (later : ℕ) (key : String) (m : Memory V) (e : Entry V)
      → find key m.entries ≡ some e
      → later ≤ e.expires_at
      → (get later key m).1 ≡ some e.value
  unfolding get get_element
  get-find later key m e f k = rw f (ground arith)

  -- The entry of the key is the first.
  pub record IsFirst (key : String) (e : Entry V) (m : Memory V) : Type 0 where
    pub at_key : find key m.entries ≡ some e
    pub foremost : depth key m.entries ≡ 0

  get-IsFirst :
      (now : ℕ) (key : String) (m : Memory V) (e : Entry V)
      → find key m.entries ≡ some e
      → now ≤ e.expires_at
      → IsFirst key e (get now key m).0 × ((get now key m).0.max_size ≡ m.max_size)
  unfolding get get_element find depth
  get-IsFirst now key m e f k =
      let q = find-key key m.entries e f in
      rw f (record { at_key = ground (arith, q); foremost = ground (arith, q) }, ground arith)

  set-IsFirst :
      (now ttl : ℕ) (key : String) (value : V) (m : Memory V)
      → IsFirst key
          (record { key = key; value = value; expires_at = now + ttl })
          (set now key value ttl m)
  unfolding set find depth
  set-IsFirst now ttl key value m = record {
    at_key = rw (eq_refl key) refl;
    foremost = rw (eq_refl key) refl;
  }

  first-kept :
      (later : ℕ) (key : String) (us : List (Call V)) (m : Memory V) (e : Entry V)
      → IsFirst key e m
      → All (λ (u : Call V). str_eq (key_of u) key ≡ false) us
      → length us < m.max_size
      → later ≤ e.expires_at
      → (get later key (run m us)).1 ≡ some e.value
  first-kept later key us m e v n h k =
      get-find later key (run m us) e (run-other key us m n (omega (arith, v.foremost)) ∙ v.at_key)
        k

  -- The entry of the key has just been used: `Set` has stored it, or `Get` has found it in `m` before
  -- its lifetime was over.
  pub data Used (key : String) (m : Memory V) (e : Entry V) (m' : Memory V) : Type 0 where
    stored :
        (now : ℕ) (value : V) (ttl : ℕ)
        → e ≡ record { key = key; value = value; expires_at = now + ttl }
        → m' ≡ set now key value ttl m
        → Used key m e m'
    found :
        (now : ℕ)
        → find key m.entries ≡ some e
        → now ≤ e.expires_at
        → m' ≡ (get now key m).0
        → Used key m e m'

  Used-IsFirst :
      (key : String) (m : Memory V) (e : Entry V) (m' : Memory V)
      → Used key m e m'
      → IsFirst key e m' × (m'.max_size ≡ m.max_size)
  unfolding set
  Used-IsFirst key m e m' (stored now value ttl f g) =
      rw (f, g) (set-IsFirst now ttl key value m, refl)
  Used-IsFirst key m e m' (found now f live g) = rw g (get-IsFirst now key m e f live)

  -- An entry that is stored, or that `Get` finds, is found again until its lifetime is over, whatever
  -- the cache held before, if fewer calls than the capacity come in between, each of them a `Set`,
  -- `Get` or `Delete` of another key.
  pub get-run :
      (later : ℕ) (key : String) (us : List (Call V)) (m m' : Memory V) (e : Entry V)
      → Used key m e m'
      → All (λ (u : Call V). str_eq (key_of u) key ≡ false) us
      → length us < m.max_size
      → later ≤ e.expires_at
      → (get later key (run m' us)).1 ≡ some e.value
  get-run later key us m m' e u n h k =
      let (v, size) = Used-IsFirst key m e m' u in
      first-kept later key us m' e v n (omega (arith, h, size)) k
