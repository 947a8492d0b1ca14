-- ===== src/Auth/Middleware.antt =====
-- internal/auth/middleware.go: which requests reach the handlers below, and as which tenant.
use mathlib.Core.List.{Memᴰ}
use llm_api_gateway.Prelude.{
  ℕ, ◌≡◌, refl, sym, ap, ◌∙◌, Bool-cases, inl, inr, Bool, true, false, not, ◌&&◌, ◌||◌, String,
  str_eq, starts_with, Dict, Option, none, some, List, if◌then◌else◌, arith,
}
use llm_api_gateway.Auth.{ApiKeyConfig, Key, key_of, is_over, reload, authenticate, has_scope}
use llm_api_gateway.Auth.Reload.{last_entry, valid_key, authenticate-reload, last_entry-Memᴰ}

-- What the handler reads of an `http.Request`, and the header that it writes.
pub record Request : Type 0 where
  pub method : String
  pub path : String
  pub authorization : String
  pub tenant_header : String

-- The tenant and the scopes that it stores in the context.
pub record Identity : Type 0 where
  pub tenant : String
  pub scopes : List String

-- The call of the next handler, with the identity in its context; or an error reply.
pub data Handled : Type 0 where
  passed : Request → Option Identity → Handled
  unauthorized : String → Handled
  forbidden : String → Handled

-- `strings.SplitN(_, " ", 2)` (`none` unless it gives two parts), `strings.EqualFold` and
-- `strings.TrimSpace`.
pub record Strings : Type 0 where
  pub split_space : String → Option (String × String)
  pub equal_fold : String → String → Bool
  pub trim_space : String → String

-- `requiredScope`; the empty string where none is required.
unfoldable pub required_scope : String → String → String
required_scope method path =
    if str_eq method "GET" && str_eq path "/v1/models"
    then "models:read"
    else if str_eq method "POST" && str_eq path "/v1/chat/completions"
    then "chat:write"
    else if str_eq method "POST" && str_eq path "/v1/embeddings"
    then "embeddings:write"
    else ""

-- The two early calls of the next handler do not apply.
unfoldable pub is_protected : String → Bool
is_protected path =
    not (starts_with path "/health" || str_eq path "/metrics") && starts_with path "/v1/"

-- The part of the handler after `Authenticate`.
unfoldable pub after_key : Request → Option Key → Handled
after_key r none = unauthorized "invalid or expired API key"
after_key r (some k) =
    let scope = required_scope r.method r.path in
    if not (str_eq scope "") && not (has_scope scope k.scopes)
    then forbidden scope
    else passed (record r { tenant_header = k.tenant })
        (some (record { tenant = k.tenant; scopes = k.scopes }))

module _ (lib : Strings) (hash_key : String → String) where
  open lib use {split_space, equal_fold, trim_space}

  -- The part of the handler after `SplitN`.
  unfoldable pub after_split : ℕ → Dict Key → Request → Option (String × String) → Handled
  unfolding after_key
  after_split now keys r none = unauthorized "Authorization must be Bearer <token>"
  after_split now keys r (some (kind, rest)) =
      if not (equal_fold kind "Bearer")
      then unauthorized "Authorization must be Bearer <token>"
      else after_key r (authenticate hash_key now keys (trim_space rest))

  -- `Middleware`
  unfoldable pub handle : ℕ → Dict Key → Request → Handled
  unfolding after_split is_protected
  handle now keys r =
      if not (is_protected r.path)
      then passed r none
      else if str_eq r.authorization ""
      then unauthorized "missing Authorization header"
      else after_split now keys r (split_space r.authorization)

  -- A configured key that lets the request through, as the tenant of that key.
  pub record Admitted (now : ℕ) (ks : List ApiKeyConfig) (r r' : Request) (id : Option Identity)
      : Type 0 where
    pub entry : ApiKeyConfig
    pub configured : Memᴰ entry ks
    pub kind : String
    pub token : String
    pub header : split_space r.authorization ≡ some (kind, token)
    pub bearer : equal_fold kind "Bearer" ≡ true
    pub chosen : last_entry hash_key (hash_key (trim_space token)) ks ≡ some entry
    pub in_time : is_over now entry.expires_at ≡ false
    pub scope :
        (str_eq (required_scope r.method r.path) ""
          || has_scope (required_scope r.method r.path) entry.scopes)
        ≡ true
    pub tenant_header_eq : r' ≡ record r { tenant_header = entry.tenant }
    pub identity_eq : id ≡ some (record { tenant = entry.tenant; scopes = entry.scopes })

  after_key-cases :
      (r r' : Request) (k : Key) (id : Option Identity)
      → after_key r (some k) ≡ passed r' id
      → ((str_eq (required_scope r.method r.path) ""
            || has_scope (required_scope r.method r.path) k.scopes)
          ≡ true)
        × (r' ≡ record r { tenant_header = k.tenant })
        × (id ≡ some (record { tenant = k.tenant; scopes = k.scopes }))
  unfolding after_key
  after_key-cases r r' k id e = ground arith

  valid_key-cases :
      (now : ℕ) (o : Option ApiKeyConfig) (r r' : Request) (id : Option Identity)
      → after_key r (valid_key hash_key now o) ≡ passed r' id
      → (c : ApiKeyConfig) × (o ≡ some c)
        × (is_over now c.expires_at ≡ false)
        × (after_key r (some (key_of hash_key c)) ≡ passed r' id)
  unfolding after_key
  valid_key-cases now none r r' id e = cc
  valid_key-cases now (some c) r r' id e = (c, refl, ground arith, ground arith)

  after_split-bearer :
      (now : ℕ) (keys : Dict Key) (r : Request) (kind token : String)
      → equal_fold kind "Bearer" ≡ true
      → after_split now keys r (some (kind, token))
        ≡ after_key r (authenticate hash_key now keys (trim_space token))
  unfolding after_split
  after_split-bearer now keys r kind token q = rw q

  after_split-Admitted :
      (now : ℕ) (ks : List ApiKeyConfig) (r r' : Request) (id : Option Identity)
      (parts : Option (String × String))
      → split_space r.authorization ≡ parts
      → after_split now (reload hash_key ks) r parts ≡ passed r' id
      → Admitted now ks r r' id
  unfolding after_split
  after_split-Admitted now ks r r' id none s e = cc
  after_split-Admitted now ks r r' id (some (kind, token)) s e =
      elim (Bool-cases (equal_fold kind "Bearer")) [
        | inr q ↦ absurd (ground (arith, q))
        | inl q ↦
            let got =
              sym (ap (after_key r) (authenticate-reload hash_key now ks (trim_space token)))
              ∙ sym (after_split-bearer now (reload hash_key ks) r kind token q)
              ∙ e in
            let (c, chosen, in_time, k) =
              valid_key-cases now (last_entry hash_key (hash_key (trim_space token)) ks) r r' id
                got in
            let (scope, header, identity) = after_key-cases r r' (key_of hash_key c) id k in
            record {
              entry = c;
              configured = last_entry-Memᴰ hash_key _ ks c chosen;
              kind = kind;
              token = token;
              header = s;
              bearer = q;
              chosen = chosen;
              in_time = in_time;
              scope = scope;
              tenant_header_eq = header;
              identity_eq = identity;
            }
      ]

  -- A request to a path under `/v1/` reaches the next handler only if its `Authorization` header is
  -- a bearer token whose hash is that of a configured key; the last configured key with this hash
  -- has not expired and has the scope that the request needs; and then the request's tenant header
  -- and the identity in its context are those of this key, whatever the client sent.
  pub handle-Admitted :
      (now : ℕ) (ks : List ApiKeyConfig) (r r' : Request) (id : Option Identity)
      → is_protected r.path ≡ true
      → handle now (reload hash_key ks) r ≡ passed r' id
      → Admitted now ks r r' id
  unfolding handle
  handle-Admitted now ks r r' id p e =
      after_split-Admitted now ks r r' id (split_space r.authorization) refl (ground (arith, p))
