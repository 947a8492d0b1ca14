-- ===== src/Auth.antt =====
-- internal/auth/store.go and middleware.go: the store of API keys and the handler that asks it. The
-- hash (`crypto/sha256`) and the calls of the Go library on the
-- `Authorization` header are parameters. `now` is `time.Now()`; a key without expiry has `none`.
pub mod Reload
pub mod Middleware
use Prim.Native.String.{len}
use llm_api_gateway.Prelude.{
  ℕ, Bool, true, false, not, ◌&&◌, ◌||◌, ltb, String, str_eq, starts_with, Dict, lookup, insert,
  Option, none, some, List, [], ◌∷◌, if◌then◌else◌,
}

-- `config.APIKeyConfig`
pub record ApiKeyConfig : Type 0 where
  pub key : String
  pub tenant : String
  pub scopes : List String
  pub expires_at : Option ℕ

pub record Key : Type 0 where
  pub tenant : String
  pub scopes : List String
  pub expires_at : Option ℕ
  pub hash : String

-- `k.ExpiresAt != nil && time.Now().After(*k.ExpiresAt)`
abbrev pub is_over : ℕ → Option ℕ → Bool
is_over now none = false
is_over now (some t) = ltb t now

module _ (hash_key : String → String) where
  -- An empty key, or an environment variable that was not expanded.
  unfoldable pub skipped : ApiKeyConfig → Bool
  skipped k = str_eq k.key "" || (ltb 3 (len k.key) && starts_with k.key "${")

  abbrev pub key_of : ApiKeyConfig → Key
  key_of k = record {
    tenant = k.tenant;
    scopes = k.scopes;
    expires_at = k.expires_at;
    hash = hash_key k.key;
  }

  unfoldable pub reload_loop : Dict Key → List ApiKeyConfig → Dict Key
  reload_loop m [] = m
  reload_loop m (k ∷ ks) =
      reload_loop (if skipped k then m else insert (hash_key k.key) (key_of k) m) ks

  -- `Reload`, and `New`, which calls it.
  unfoldable pub reload : List ApiKeyConfig → Dict Key
  unfolding reload_loop
  reload keys = reload_loop [] keys

  -- The checks of `Authenticate` on the key that the map holds.
  unfoldable pub check_key : ℕ → String → Option Key → Option Key
  check_key now h none = none
  check_key now h (some k) =
      if is_over now k.expires_at then none else if not (str_eq h k.hash) then none else some k

  unfoldable pub authenticate : ℕ → Dict Key → String → Option Key
  unfolding check_key
  authenticate now keys raw = check_key now (hash_key raw) (lookup (hash_key raw) keys)

unfoldable pub any_scope : String → List String → Bool
any_scope scope [] = false
any_scope scope (s ∷ ss) = (str_eq s scope || str_eq s "*") || any_scope scope ss

-- `HasScope`: a key without scopes has them all.
unfoldable pub has_scope : String → List String → Bool
unfolding any_scope
has_scope scope [] = true
has_scope scope (s ∷ ss) = any_scope scope (s ∷ ss)
