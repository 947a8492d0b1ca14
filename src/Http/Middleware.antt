-- ===== src/Http/Middleware.antt =====
-- internal/proxy/middleware.go: request ids, security headers, CORS and the rate limit. Logging,
-- metrics and tracing only report. A response is the headers that have been set; `Add` of "Vary" sets it, as no handler has set it before.
use Prim.Native.String.{◌++◌ as append}
use llm_api_gateway.Prelude.{
  ℕ, Bool, true, false, not, ◌&&◌, ◌||◌, ℤ, pos, ltb_ℤ, String, str_eq, starts_with, Option, none,
  some, List, [], ◌∷◌, Dict, insert, if◌then◌else◌,
}
use llm_api_gateway.Auth.Middleware as Auth
use llm_api_gateway.Ratelimit.Backend.{Backend}
use llm_api_gateway.Ratelimit.Bucket.{header_seconds}
use llm_api_gateway.Ratelimit.Override.{OverrideStore, resolve}

-- What the handlers read of an `http.Request`. `body_model` is the field "model" of the first
-- `maxBodySize + 1` bytes of its body, if they can be read and decoded.
pub record Request : Type 0 where
  pub inner : Auth.Request
  pub origin : String
  pub remote_addr : String
  pub request_id : String
  pub body_model : Option String

abbrev pub Headers : Type 0
Headers = Dict String

-- `RequestID`: the request and the headers of the response that the next handler gets.
-- `generated` is what `generateRequestID` gives.
unfoldable pub request_id : String → Request → Headers → Request × Headers
request_id generated r h =
    let id = if str_eq r.request_id "" then generated else r.request_id in
    (record r { request_id = id }, insert "X-Request-ID" id h)

-- `SecurityHeaders`
unfoldable pub security_headers : Headers → Headers
security_headers h =
    insert "Referrer-Policy" "no-referrer"
      (insert "X-Frame-Options" "DENY" (insert "X-Content-Type-Options" "nosniff" h))

-- `allowed[o]`
unfoldable pub is_allowed : List String → String → Bool
is_allowed [] o = false
is_allowed (x ∷ xs) o = let rest = is_allowed xs o in if str_eq x o then true else rest

unfoldable pub cors_headers : List String → String → Headers → Headers
unfolding is_allowed
cors_headers allowed origin h =
    if is_allowed allowed "*" || is_allowed allowed origin
    then insert "Access-Control-Allow-Headers" "Content-Type, Authorization, X-Request-ID" (
        insert "Access-Control-Allow-Methods" "GET, POST, OPTIONS" (
          insert "Access-Control-Allow-Origin"
            (if str_eq origin "" && is_allowed allowed "*" then "*" else origin)
            (insert "Vary" "Origin" h)))
    else h

-- `CORS`: the headers, and the status with which it answers itself (`none`: it calls the next
-- handler).
unfoldable pub cors : List String → Request → Headers → Headers × Option ℕ
unfolding cors_headers is_allowed
cors [] r h = (h, none)
cors (o ∷ os) r h =
    let allowed = o ∷ os in
    let headers = cors_headers allowed r.origin h in
    if str_eq r.inner.method "OPTIONS"
    then (if not (str_eq r.origin "")
          && not (is_allowed allowed "*")
          && not (is_allowed allowed r.origin)
        then (headers, some 403)
        else (headers, some 204))
    else (headers, none)

unfoldable pub metric_path : String → String
metric_path path =
    if str_eq path "/v1/chat/completions"
      || str_eq path "/v1/embeddings"
      || str_eq path "/v1/models"
      || str_eq path "/health"
      || str_eq path "/health/providers"
      || str_eq path "/livez"
      || str_eq path "/readyz"
      || str_eq path "/metrics"
    then path
    else "/other"

-- The tenant header, else the `Authorization` header, else the address.
unfoldable pub identity_of : Request → String
identity_of r =
    let identity =
      if str_eq r.inner.tenant_header "" then r.inner.authorization else r.inner.tenant_header in
    if str_eq identity "" then r.remote_addr else identity

-- `sha256_hex` stands for the two library calls.
unfoldable pub client_rate_limit_key : (String → String) → Request → String
unfolding identity_of
client_rate_limit_key sha256_hex r = append "client:" (sha256_hex (identity_of r))

module _ (b : Backend) where
  open b use {State, allow_one, allow_with_limits, retry_after, retry_after_with_limits}

  -- The two calls of the limiter under a key.
  unfoldable pub ask : ℕ → String → ℤ × ℤ → State → State × (Bool × ℕ)
  ask now key (rpm, burst) s =
      let first =
        if ltb_ℤ (pos 0) rpm && ltb_ℤ (pos 0) burst
        then allow_with_limits now key (pos 1) rpm burst s
        else allow_one now key s in
      let second =
        if ltb_ℤ (pos 0) rpm && ltb_ℤ (pos 0) burst
        then retry_after_with_limits now key rpm burst first.0
        else retry_after now key first.0 in
      (second.0, (first.1, second.1))

  module _ (path_match : String → String → Option Bool) (sha256_hex : String → String) where
    unfoldable pub limits_for_model : OverrideStore → String → Option String → ℤ × ℤ
    limits_for_model o tenant none = (pos 0, pos 0)
    limits_for_model o tenant (some model) =
        if str_eq model "" then (pos 0, pos 0) else resolve path_match tenant model o

    -- `rpm` and `burst`; 0 for both stands for the limiter's own limits.
    unfoldable pub limits_for : Option OverrideStore → Request → ℤ × ℤ
    unfolding limits_for_model
    limits_for none r = (pos 0, pos 0)
    limits_for (some o) r =
        if str_eq r.inner.method "POST"
          && (str_eq r.inner.path "/v1/chat/completions" || str_eq r.inner.path "/v1/embeddings")
        then limits_for_model o r.inner.tenant_header r.body_model
        else (pos 0, pos 0)

    -- `RateLimitWithEnabled`: `none` where it calls the next handler, else the seconds of the
    -- `Retry-After` header beside the status 429. `enabled` is true also for a nil flag.
    unfoldable pub rate_limit : ℕ → Bool → Option OverrideStore → Request → State → State × Option ℕ
    unfolding limits_for client_rate_limit_key ask
    rate_limit now enabled overrides r s =
        let asked = ask now (client_rate_limit_key sha256_hex r) (limits_for overrides r) s in
        if not enabled || not (starts_with r.inner.path "/v1/")
        then (s, none)
        else if asked.1.0
        then (asked.0, none)
        else (asked.0, some (header_seconds asked.1.1))
