-- ===== src/Http/Front.antt =====
-- The handlers in the order in which cmd/gateway/main.go puts them around the API: request ids, then
-- security headers, CORS, authentication, and the rate limit. Logging, tracing and metrics are left
-- out of the chain, as they pass every request on.
use Prim.Native.String.{◌++◌ as append}
use llm_api_gateway.Prelude.{
  str_eq, ℕ, ◌≡◌, refl, sym, subst, Bool-cases, ◌⊎◌, inl, inr, Bool, true, false, String,
  starts_with, Option, none, some, List, [], ◌∷◌, Dict, arith,
}
use llm_api_gateway.Auth.{ApiKeyConfig, Key, reload}
use llm_api_gateway.Auth.Middleware as Auth
use llm_api_gateway.Auth.Middleware.{
  Identity, Strings, Handled, passed, unauthorized, forbidden, handle, is_protected, Admitted,
  handle-Admitted,
}
use llm_api_gateway.Ratelimit.Override.{OverrideStore}
use llm_api_gateway.Ratelimit.Backend.{Backend}
use llm_api_gateway.Http.Middleware.{
  Request, Headers, request_id, security_headers, cors, identity_of, client_rate_limit_key, ask,
  limits_for, rate_limit,
}

-- What becomes of a request: it reaches the API, or it is answered with a status (and the seconds
-- of `Retry-After` under 429).
pub data Outcome : Type 0 where
  reached : Request → Option Identity → Outcome
  replied : ℕ → Outcome
  limited : ℕ → Outcome

pub record Setup : Type 0 where
  pub origins : List String
  -- the keys, if authentication is enabled
  pub keys : Option (Dict Key)
  pub rate_limited : Bool
  pub overrides : Option OverrideStore

-- Authentication, where it is installed.
unfoldable pub authenticated :
    Strings → (String → String) → ℕ → Option (Dict Key) → Auth.Request → Handled
authenticated lib hash_key now none r = passed r none
authenticated lib hash_key now (some keys) r = handle lib hash_key now keys r

module _ (b : Backend) (path_match : String → String → Option Bool) (sha256_hex : String → String)
    (lib : Strings) (hash_key : String → String) (setup : Setup) (now : ℕ) where
  unfoldable pub after_limit : Request → Option Identity → b.State × Option ℕ → b.State × Outcome
  after_limit r id (s, none) = (s, reached r id)
  after_limit r id (s, some seconds) = (s, limited seconds)

  unfoldable pub after_auth : Request → b.State → Handled → b.State × Outcome
  after_auth r s (unauthorized message) = (s, replied 401)
  after_auth r s (forbidden scope) = (s, replied 403)
  after_auth r s (passed inner id) =
      let r' : Request = record r { inner = inner } in
      after_limit r' id
        (rate_limit b path_match sha256_hex now setup.rate_limited setup.overrides r' s)

  unfoldable pub after_cors : Request → b.State → Option ℕ → b.State × Outcome
  after_cors r s (some status) = (s, replied status)
  after_cors r s none = after_auth r s (authenticated lib hash_key now setup.keys r.inner)

  -- The whole chain, with the headers of the response that it has set.
  unfoldable pub front : String → Request → b.State → Headers × (b.State × Outcome)
  front generated r s =
      let (r', h) = request_id generated r [] in
      let (h', status) = cors setup.origins r' (security_headers h) in (h', after_cors r' s status)

  -- The name under which a client is counted: its tenant; without a tenant, the `Authorization` header;
  -- and without both, the address.
  abbrev pub IsCountedAs : Request → String → Type 0
  IsCountedAs r name =
      ((str_eq r.inner.tenant_header "" ≡ false) × (name ≡ r.inner.tenant_header))
      ⊎ ((str_eq r.inner.tenant_header "" ≡ true)
          × (str_eq r.inner.authorization "" ≡ false)
          × (name ≡ r.inner.authorization))
      ⊎ ((str_eq r.inner.tenant_header "" ≡ true)
          × (str_eq r.inner.authorization "" ≡ true)
          × (name ≡ r.remote_addr))

  -- What the limiter gives for a request, under the hash of a name.
  abbrev pub answer : String → Request → b.State → b.State × (Bool × ℕ)
  answer name r s =
      ask b now (append "client:" (sha256_hex name))
        (limits_for b path_match sha256_hex setup.overrides r) s

  -- The limiter, asked under the name of the request's client, gives this state and this verdict.
  abbrev pub IsAsked : Request → b.State → b.State → Bool → Type 0
  IsAsked r s s' allowed =
      (name : String) × IsCountedAs r name
      × ((answer name r s).0 ≡ s')
      × ((answer name r s).1.0 ≡ allowed)

  module _ (ks : List ApiKeyConfig) (r : Request) (s : b.State) where
    -- Why a request to the API has the outcome that it has: it got through as the tenant of a
    -- configured key and the limiter allowed it under the name of that client; it was answered
    -- before the limiter, which has not changed; or it was let through and the limiter refused it.
    abbrev pub Explained : b.State × Outcome → Type 0
    Explained (s', reached r' id) =
        Admitted lib hash_key now ks r.inner r'.inner id × IsAsked r' s s' true
    Explained (s', replied status) = s' ≡ s
    Explained (s', limited seconds) =
        (r' : Request) × (id : Option Identity) × Admitted lib hash_key now ks r.inner r'.inner id
        × IsAsked r' s s' false

  counted_as : (r : Request) → (name : String) × IsCountedAs r name × (name ≡ identity_of r)
  unfolding identity_of
  counted_as r = elim (Bool-cases (str_eq r.inner.tenant_header "")) [
    | inr q ↦ (r.inner.tenant_header, inl (q, refl), rw (q, q) refl)
    | inl q ↦ elim (Bool-cases (str_eq r.inner.authorization "")) [
      | inr t ↦ (r.inner.authorization, inr (inl (q, t, refl)), rw (q, t) refl)
      | inl t ↦ (r.remote_addr, inr (inr (q, t, refl)), rw (q, t) refl)
    ]
  ]

  asked :
      (r : Request) (s : b.State) (allowed : Bool)
      → (ask b now
          (client_rate_limit_key sha256_hex r)
          (limits_for b path_match sha256_hex setup.overrides r)
          s).1.0
        ≡ allowed
      → IsAsked r s
          (ask b now
            (client_rate_limit_key sha256_hex r)
            (limits_for b path_match sha256_hex setup.overrides r)
            s).0
          allowed
  unfolding client_rate_limit_key
  asked r s allowed q = let (name, c, e) = counted_as r in (name, c, rw e refl, rw e q)

  after_limit-Explained :
      (ks : List ApiKeyConfig) (r r' : Request) (s : b.State) (id : Option Identity)
      → setup.rate_limited ≡ true
      → starts_with r'.inner.path "/v1/" ≡ true
      → Admitted lib hash_key now ks r.inner r'.inner id
      → Explained ks r s (
          after_limit r' id
            (rate_limit b path_match sha256_hex now setup.rate_limited setup.overrides r' s))
  unfolding after_limit rate_limit
  after_limit-Explained ks r r' s id e p a =
      let got =
        ask b now (client_rate_limit_key sha256_hex r')
          (limits_for b path_match sha256_hex setup.overrides r') s in
      elim (Bool-cases got.1.0) [
        | inl q ↦ rw (e, p, q) (a, asked r' s true q)
        | inr q ↦ rw (e, p, q) (r', id, a, asked r' s false q)
      ]

  Admitted-path :
      (ks : List ApiKeyConfig) (q q' : Auth.Request) (id : Option Identity)
      → is_protected q.path ≡ true
      → Admitted lib hash_key now ks q q' id
      → starts_with q'.path "/v1/" ≡ true
  unfolding is_protected
  Admitted-path ks q q' id p a =
      subst (λ x. starts_with x.path "/v1/" ≡ true) (sym a.tenant_header_eq) (ground arith)

  after_auth-Explained :
      (ks : List ApiKeyConfig) (r r0 : Request) (s : b.State) (h : Handled)
      → setup.rate_limited ≡ true
      → is_protected r.inner.path ≡ true
      → handle lib hash_key now (reload hash_key ks) r.inner ≡ h
      → Explained ks r s (after_auth r0 s h)
  unfolding after_auth
  after_auth-Explained ks r r0 s (unauthorized message) e p q = refl
  after_auth-Explained ks r r0 s (forbidden scope) e p q = refl
  after_auth-Explained ks r r0 s (passed inner id) e p q =
      let a = handle-Admitted lib hash_key now ks r.inner inner id p q in
      after_limit-Explained ks r (record r0 { inner = inner }) s id e
        (Admitted-path ks r.inner inner id p a) a

  after_cors-Explained :
      (ks : List ApiKeyConfig) (r r0 : Request) (s : b.State) (status : Option ℕ)
      → setup.keys ≡ some (reload hash_key ks)
      → setup.rate_limited ≡ true
      → is_protected r.inner.path ≡ true
      → r0.inner ≡ r.inner
      → Explained ks r s (after_cors r0 s status)
  unfolding after_cors authenticated
  after_cors-Explained ks r r0 s (some status) k e p same = refl
  after_cors-Explained ks r r0 s none k e p same =
      after_auth-Explained ks r r0 s (authenticated lib hash_key now setup.keys r0.inner) e p
        (rw (k, same) refl)

  -- Where authentication and the rate limit are on, every request to a path under `/v1/` that
  -- reaches the API comes with a valid configured key, has the tenant of that key, and has been
  -- allowed by the limiter, asked under the hash of that tenant, or of the `Authorization` header if
  -- the key's tenant is empty (of the address, if that is empty too); a request that CORS or
  -- authentication answers leaves the limiter unchanged; and a request is limited only after it was
  -- let through by authentication and refused by the limiter, asked in the same way.
  pub front-Explained :
      (generated : String) (ks : List ApiKeyConfig) (r : Request) (s : b.State)
      → setup.keys ≡ some (reload hash_key ks)
      → setup.rate_limited ≡ true
      → is_protected r.inner.path ≡ true
      → Explained ks r s (front generated r s).1
  unfolding front request_id
  front-Explained generated ks r s k e p = after_cors-Explained ks r _ s _ k e p refl

  -- Answered by CORS, or passed on, without an identity.
  abbrev pub IsFree : Outcome → Type 0
  IsFree (reached r id) = id ≡ none
  IsFree (replied status) = (status ≡ 204) ⊎ (status ≡ 403)
  IsFree (limited seconds) = ⊥

  cors-status :
      (os : List String) (r : Request) (h : Headers)
      → ((cors os r h).1 ≡ none) ⊎ ((cors os r h).1 ≡ some 204) ⊎ ((cors os r h).1 ≡ some 403)
  unfolding cors
  cors-status [] r h = inl refl
  cors-status (o ∷ os) r h = ground arith

  handle-unprotected :
      (keys : Dict Key) (r : Auth.Request)
      → starts_with r.path "/v1/" ≡ false
      → handle lib hash_key now keys r ≡ passed r none
  unfolding handle is_protected
  handle-unprotected keys r p = ground arith

  authenticated-unprotected :
      (keys : Option (Dict Key)) (r : Auth.Request)
      → starts_with r.path "/v1/" ≡ false
      → authenticated lib hash_key now keys r ≡ passed r none
  unfolding authenticated
  authenticated-unprotected none r p = refl
  authenticated-unprotected (some keys) r p = handle-unprotected keys r p

  after_limit-IsFree :
      (r : Request) (s : b.State)
      → starts_with r.inner.path "/v1/" ≡ false
      → after_limit r none
          (rate_limit b path_match sha256_hex now setup.rate_limited setup.overrides r s)
        ≡ (s, reached r none)
  unfolding after_limit rate_limit
  after_limit-IsFree r s p = ground arith

  after_cors-IsFree :
      (r : Request) (s : b.State) (status : Option ℕ)
      → starts_with r.inner.path "/v1/" ≡ false
      → (status ≡ none) ⊎ (status ≡ some 204) ⊎ (status ≡ some 403)
      → let got = after_cors r s status in (got.0 ≡ s) × IsFree got.1
  unfolding after_cors after_auth
  after_cors-IsFree r s none p c =
      rw (authenticated-unprotected setup.keys r.inner p, after_limit-IsFree r s p) (refl, refl)
  after_cors-IsFree r s (some status) p c = (refl, ground arith)

  -- A request to a path that is not under `/v1/`, such as a health check or the metrics, changes
  -- no bucket and is never limited or asked for a key, whatever the configuration: CORS answers it
  -- with 204 or 403, or it is passed on, without an identity.
  pub front-IsFree :
      (generated : String) (r : Request) (s : b.State)
      → starts_with r.inner.path "/v1/" ≡ false
      → let got = (front generated r s).1 in (got.0 ≡ s) × IsFree got.1
  unfolding front request_id
  front-IsFree generated r s p = after_cors-IsFree _ s _ p (cors-status setup.origins _ _)
