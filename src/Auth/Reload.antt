-- ===== src/Auth/Reload.antt =====
-- Which configured key a raw key stands for.
use mathlib.Core.List.{Memᴰ}
use llm_api_gateway.Prelude.{
  ℕ, ◌≡◌, refl, Option-cases, inl, inr, true, not, ◌&&◌, String, str_eq, eq_iff, eq_refl, Dict,
  lookup, insert, lookup-insert, Option-cases, inl, inr, Option, none, some, List, [], ◌∷◌,
  if◌then◌else◌, arith,
}
use llm_api_gateway.Auth.{
  ApiKeyConfig, Key, is_over, skipped, key_of, reload_loop, reload, check_key, authenticate,
}

some_inj : {A : Type 0} {x y : A} → some x ≡ some y → x ≡ y
some_inj e = cc

module _ (hash_key : String → String) where
  -- The last entry of the configuration that is not skipped and has the hash.
  unfoldable pub last_entry : String → List ApiKeyConfig → Option ApiKeyConfig
  last_entry h [] = none
  last_entry h (k ∷ ks) =
      let rest = last_entry h ks in
      elim rest [
        | some c ↦ some c
        | none ↦ if not (skipped hash_key k) && str_eq (hash_key k.key) h then some k else none
      ]

  -- The answer for that entry.
  abbrev pub valid_key : ℕ → Option ApiKeyConfig → Option Key
  valid_key now none = none
  valid_key now (some c) = if is_over now c.expires_at then none else some (key_of hash_key c)

  abbrev or_entry : Option Key → Option ApiKeyConfig → Option Key
  or_entry o none = o
  or_entry o (some c) = some (key_of hash_key c)

  reload_loop-last_entry :
      (h : String) (m : Dict Key) (ks : List ApiKeyConfig)
      → lookup h (reload_loop hash_key m ks) ≡ or_entry (lookup h m) (last_entry h ks)
  unfolding reload_loop last_entry
  reload_loop-last_entry h m [] = refl
  reload_loop-last_entry h m (k ∷ ks) = ground (
    arith,
    reload_loop-last_entry h m ks,
    reload_loop-last_entry h (insert (hash_key k.key) (key_of hash_key k) m) ks,
    lookup-insert (hash_key k.key) h (key_of hash_key k) m,
  )

  last_entry-hash :
      (h : String) (ks : List ApiKeyConfig) (c : ApiKeyConfig)
      → last_entry h ks ≡ some c
      → str_eq h (hash_key c.key) ≡ true
  unfolding last_entry
  last_entry-hash h [] c e = cc
  last_entry-hash h (k ∷ ks) c e =
      ground (arith, last_entry-hash h ks c, eq_iff (hash_key k.key) h, eq_refl h)

  pub last_entry-Memᴰ :
      (h : String) (ks : List ApiKeyConfig) (c : ApiKeyConfig)
      → last_entry h ks ≡ some c
      → Memᴰ c ks
  unfolding last_entry
  last_entry-Memᴰ h [] c e = cc
  last_entry-Memᴰ h (k ∷ ks) c e = elim (Option-cases (last_entry h ks)) [
    | inr (d, f) ↦ Memᴰ.tail (last_entry-Memᴰ h ks c (ground (arith, f)))
    | inl f ↦ Memᴰ.head (some_inj (ground (arith, f)))
  ]

  -- After a reload, a raw key is answered by the last configured entry with its hash, among those
  -- that are neither empty nor unexpanded: with that entry's key, unless it has expired.
  pub authenticate-reload :
      (now : ℕ) (ks : List ApiKeyConfig) (raw : String)
      → authenticate hash_key now (reload hash_key ks) raw
        ≡ valid_key now (last_entry (hash_key raw) ks)
  unfolding authenticate check_key reload lookup
  authenticate-reload now ks raw =
      rw (reload_loop-last_entry (hash_key raw) [] ks)
        (answer (last_entry (hash_key raw) ks) (last_entry-hash (hash_key raw) ks))
    where
      answer :
          (o : Option ApiKeyConfig)
          → ((c : ApiKeyConfig) → o ≡ some c → str_eq (hash_key raw) (hash_key c.key) ≡ true)
          → check_key hash_key now (hash_key raw) (or_entry none o) ≡ valid_key now o
      answer none f = refl
      answer (some c) f = ground (arith, f c refl)
