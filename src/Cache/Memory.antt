-- ===== src/Cache/Memory.antt =====
-- internal/cache/memory.go. The list `ll` is a list of entries, the front first; `items` finds the
-- element of a key in it, so it is a search of the list. The mutex makes each method one step, `now`
-- is `time.Now()` and lifetimes are not negative. Copies of the value keep callers from changing
-- it, so a value is what it was when it was stored.
pub mod Capacity
pub mod Recall
use llm_api_gateway.Prelude.{
  ℕ, ◌+◌, Bool, ltb, leb, leb_ℤ, ℤ, pos, pos_part, String, str_eq, Option, none, some, List, [],
  ◌∷◌, length, if◌then◌else◌,
}

pub record Entry (V : Type 0) : Type 0 where
  pub key : String
  pub value : V
  pub expires_at : ℕ

pub record Memory (V : Type 0) : Type 0 where
  pub max_size : ℕ
  pub entries : List (Entry V)
  pub hits : ℕ
  pub misses : ℕ

pub record Stats : Type 0 where
  pub hits : ℕ
  pub misses : ℕ
  pub size : ℕ

module _ {V : Type 0} where
  unfoldable pub new_memory : ℤ → Memory V
  new_memory max_size = record {
    max_size = if leb_ℤ max_size (pos 0) then 1_000 else pos_part max_size;
    entries = [];
    hits = 0;
    misses = 0;
  }

  -- `m.items[key]`
  unfoldable pub find : String → List (Entry V) → Option (Entry V)
  find key [] = none
  find key (e ∷ es) = if str_eq e.key key then some e else find key es

  -- `m.ll.Remove(el)` and `delete(m.items, key)`, for the element of the key
  unfoldable pub remove : String → List (Entry V) → List (Entry V)
  remove key [] = []
  remove key (e ∷ es) = if str_eq e.key key then es else e ∷ remove key es

  -- Without the last element, which is `m.ll.Back()`.
  unfoldable pub drop_back : List (Entry V) → List (Entry V)
  drop_back [] = []
  drop_back (e ∷ []) = []
  drop_back (e ∷ f ∷ es) = e ∷ drop_back (f ∷ es)

  -- `Get` on the element of the key
  unfoldable pub get_element : ℕ → String → Option (Entry V) → Memory V → Memory V × Option V
  get_element now key none m = (record m { misses = m.misses + 1 }, none)
  get_element now key (some e) m =
      if ltb e.expires_at now
      then (record m { entries = remove key m.entries; misses = m.misses + 1 }, none)
      else (record m { entries = e ∷ remove key m.entries; hits = m.hits + 1 }, some e.value)

  unfoldable pub get : ℕ → String → Memory V → Memory V × Option V
  unfolding get_element
  get now key m = get_element now key (find key m.entries) m

  -- The list on which `Set` puts an entry, with room for it; the element of the key is the second
  -- argument.
  unfoldable pub room_for : String → Option (Entry V) → Memory V → List (Entry V)
  room_for key (some e) m = remove key m.entries
  room_for key none m = if leb m.max_size (length m.entries) then drop_back m.entries else m.entries

  unfoldable pub set : ℕ → String → V → ℕ → Memory V → Memory V
  unfolding room_for
  set now key value ttl m = record m {
    entries =
        (record { key = key; value = value; expires_at = now + ttl })
        ∷ room_for key (find key m.entries) m;
  }

  unfoldable pub delete : String → Memory V → Memory V
  delete key m = record m { entries = remove key m.entries }

  unfoldable pub stats : Memory V → Stats
  stats m = record { hits = m.hits; misses = m.misses; size = length m.entries }
