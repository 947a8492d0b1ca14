-- ===== src/Embeddings/Serve.antt =====
-- `EmbeddingsHandler.ServeHTTP` of internal/proxy/embeddings.go, over the state of the gateway. The
-- key of a request, its JSON and the answer of `dispatch` are parameters, and so is `name_for`, the name
-- of the provider that `Resolve` gives, or "" for its error. Logs, metrics and spans are left out.
use Prim.Native.String.{◌++◌ as append}
use llm_api_gateway.Prelude.{
  ℕ, Bool, true, false, not, pos, String, str_eq, Option, none, some, [], if◌then◌else◌,
}
use llm_api_gateway.Provider.{Failure, propagate_retry_after}
use llm_api_gateway.Ratelimit.Backend.{Backend}
use llm_api_gateway.Ratelimit.Bucket.{header_seconds}
use llm_api_gateway.Ratelimit.Limiter.{estimate_tokens}
use llm_api_gateway.Ratelimit.Override.{OverrideStore, resolve}
use llm_api_gateway.Http.Middleware.{Request, client_rate_limit_key}
use llm_api_gateway.Pricing.{embedding_cost}
use llm_api_gateway.Budget.Account.{BudgetError, unavailable}
use llm_api_gateway.Budget.Script.{Commands}
use llm_api_gateway.Budget.Manager.{Reservation, Link, World, cost_for_tokens}
use llm_api_gateway.Dispatch.{Circuits, Reply, ok, failed, no_provider, all_failed}
use llm_api_gateway.Chat.{
  Caches, Handler, Claimed, claimed, unpriced, rejected, commit_if, cancel_if, usd_or,
  reserve_priced, ttl_for,
}
use llm_api_gateway.Embeddings.{
  Input, nil, text, texts, items, EmbeddingRequest, EmbeddingResponse, EmbedError, unsupported,
  sent, embedding_input_chars,
}

-- What reading and decoding the body gives.
pub data Body : Type 0 where
  too_large unreadable undecodable : Body
  decoded : EmbeddingRequest → Body

-- The headers of a request, beside those of `Http`: `cache_ttl` is the header X-Cache-TTL, if it is
-- a positive duration.
pub record Call : Type 0 where
  pub http : Request
  pub body : Body
  pub cache_skip : Bool
  pub cache_ttl : Option ℕ

pub data Answer (X D : Type 0) : Type 0 where
  -- the status and the type of an error, and the `Retry-After` header
  error : ℕ → String → Option ℕ → Answer X D
  hit : D → Answer X D
  -- the response of a provider, by its name, and whether the header X-Cache says MISS
  answered : EmbeddingResponse X → String → Bool → Answer X D

-- The check of the input: it must not be an empty string or array, and not be missing.
unfoldable pub is_empty_input : Input → Bool
is_empty_input nil = true
is_empty_input (text s) = str_eq s ""
is_empty_input (texts []) = true
is_empty_input (items []) = true
is_empty_input _ = false

unfoldable pub input_tokens : EmbeddingRequest → ℕ
input_tokens req = estimate_tokens (pos (embedding_input_chars req.input))

-- `writeBudgetError`
unfoldable pub budget_error : {X D : Type 0} → BudgetError → Answer X D
budget_error unavailable = error 503 "budget_unavailable" none
budget_error e = error 429 "insufficient_quota" none

-- The error of a dispatch other than that of an unknown model.
unfoldable pub dispatch_error : {X D : Type 0} → EmbedError Failure → Answer X D
dispatch_error unsupported = error 502 "provider_error" none
dispatch_error (sent f) = error 502 "provider_error" (propagate_retry_after f)

module _ {X D : Type 0} (r : Commands) (sha256_hex : String → String)
    (path_match : String → String → Option Bool) (b : Backend) (c : Caches D)
    (key_for : EmbeddingRequest → String → String) (encode : EmbeddingResponse X → Option D)
    (name_for : String → String)
    (dispatched : EmbeddingRequest
      → Circuits
      → Circuits × Reply (EmbedError Failure) (EmbeddingResponse X)) where
  -- What the handler shares with other requests; its breakers are its own.
  pub record Gateway : Type 0 where
    pub limiter : b.State
    pub cache : c.State
    pub budget : World r sha256_hex
    pub circuits : Circuits

  -- The token limit, in nanoseconds `now`: the seconds of a refusal.
  unfoldable pub limit_tokens :
      ℕ → Bool → Option OverrideStore → Request → EmbeddingRequest → b.State → b.State × Option ℕ
  limit_tokens now token_aware none q req s = (s, none)
  limit_tokens now token_aware (some o) q req s =
      let (rpm, burst) = resolve path_match q.inner.tenant_header req.model o in
      let key = append (client_rate_limit_key sha256_hex q) ":tokens" in
      let first = b.allow_with_limits now key (pos (input_tokens req)) rpm burst s in
      let second = b.retry_after_with_limits now key rpm burst first.0 in
      if not token_aware
      then (s, none)
      else if first.1
      then (first.0, none)
      else (second.0, some (header_seconds second.1))

  -- The lookup in the cache: the key and lifetime under which the answer will be stored, and the
  -- entry that was found.
  unfoldable pub look_up :
      ℕ → Option ℕ → Call → EmbeddingRequest → c.State → c.State × (Option (String × ℕ) × Option D)
  look_up now none q req s = (s, (none, none))
  look_up now (some ttl) q req s =
      let key = key_for req q.http.inner.authorization in
      let got = c.get now key s in
      if q.cache_skip
      then (s, (none, none))
      else (got.0, (some (key, ttl_for q.cache_ttl ttl), got.1))

  -- `data, marshalErr := json.Marshal(resp)` and the store: whether the header X-Cache says MISS.
  unfoldable pub store_answer : ℕ → String × ℕ → Option D → c.State → c.State × Bool
  store_answer now (key, ttl) none s = (s, false)
  store_answer now (key, ttl) (some d) s = (c.set now key d ttl s, true)

  unfoldable pub store_in : ℕ → Option (String × ℕ) → EmbeddingResponse X → c.State → c.State × Bool
  unfolding store_answer
  store_in now none resp s = (s, false)
  store_in now (some slot) resp s =
      if str_eq slot.0 "" then (s, false) else store_answer now slot (encode resp) s

  -- The cost of an answer: `estimate.USD` as the handler commits it.
  unfoldable pub actual_usd : Link → World r sha256_hex → String → String → EmbeddingResponse X → ℕ
  actual_usd link m provider model resp =
      usd_or r sha256_hex path_match link (cost_for_tokens m resp.usage.total_tokens)
        (embedding_cost path_match model m.catalog provider resp.usage.total_tokens)

  unfoldable pub settle_answer :
      Link
      → Bool
      → Option Reservation
      → EmbeddingRequest
      → EmbeddingResponse X
      → String
      → World r sha256_hex
      → World r sha256_hex
  unfolding actual_usd
  settle_answer link budgeted res req resp name m =
      if budgeted
      then commit_if r sha256_hex path_match link res resp.usage.total_tokens
          (pos (actual_usd link m name req.model resp)) m
      else cancel_if r sha256_hex path_match link res m

  -- The reservation of a request.
  unfoldable pub reserve_embedding :
      Bool
      → Link
      → Link
      → String
      → String
      → EmbeddingRequest
      → World r sha256_hex
      → World r sha256_hex × Claimed
  reserve_embedding budgeted link settle_link tenant month req m =
      if budgeted
      then reserve_priced r sha256_hex path_match settle_link link tenant month (input_tokens req)
          (embedding_cost path_match req.model m.catalog (name_for req.model)
            (pos (input_tokens req)))
          m
      else (m, claimed none 0)

  module _ (now : ℕ) (link settle_link : Link) (month : String) (h : Handler) (q : Call)
      (req : EmbeddingRequest) where
    -- A dispatch without an answer: the deferred call cancels the reservation.
    unfoldable pub give_up :
        Option Reservation → Gateway → Circuits → Answer X D → Gateway × Answer X D
    give_up res g cs a = (
      record g {
        circuits = cs;
        budget = cancel_if r sha256_hex path_match settle_link res g.budget;
      },
      a,
    )

    unfoldable pub after_dispatch :
        Option Reservation
        → Option (String × ℕ)
        → Gateway
        → Circuits × Reply (EmbedError Failure) (EmbeddingResponse X)
        → Gateway × Answer X D
    unfolding give_up settle_answer store_in
    after_dispatch res slot g (cs, ok resp name) =
        let stored = store_in now slot resp g.cache in
        (
          record g {
            circuits = cs;
            budget = settle_answer settle_link h.budgeted res req resp name g.budget;
            cache = stored.0;
          },
          answered resp name stored.1,
        )
    after_dispatch res slot g (cs, failed e) = give_up res g cs (dispatch_error e)
    after_dispatch res slot g (cs, no_provider) =
        give_up res g cs (error 404 "model_not_found" none)
    after_dispatch res slot g (cs, all_failed) = give_up res g cs (error 502 "provider_error" none)

    unfoldable pub after_claim : Option (String × ℕ) → Gateway → Claimed → Gateway × Answer X D
    unfolding after_dispatch
    after_claim slot g unpriced = (g, error 503 "pricing_unavailable" none)
    after_claim slot g (rejected e) = (g, budget_error e)
    after_claim slot g (claimed res usd) = after_dispatch res slot g (dispatched req g.circuits)

    -- After the token limit.
    unfoldable pub after_limit : Option (String × ℕ) → Gateway → Option ℕ → Gateway × Answer X D
    unfolding reserve_embedding after_claim
    after_limit slot g (some seconds) = (g, error 429 "rate_limit_exceeded" (some seconds))
    after_limit slot g none =
        let got =
          reserve_embedding h.budgeted link settle_link q.http.inner.tenant_header month req
            g.budget in
        after_claim slot (record g { budget = got.0 }) got.1

    -- After the lookup in the cache.
    unfoldable pub after_look : Gateway → Option (String × ℕ) → Option D → Gateway × Answer X D
    unfolding after_limit limit_tokens
    after_look g slot (some d) = (g, hit d)
    after_look g slot none =
        let limited = limit_tokens now h.token_aware h.overrides q.http req g.limiter in
        after_limit slot (record g { limiter = limited.0 }) limited.1

    -- The handler, for a body that was decoded.
    unfoldable pub serve_decoded : Gateway → Gateway × Answer X D
    unfolding look_up after_look
    serve_decoded g =
        let looked = look_up now h.cache_ttl q req g.cache in
        if str_eq req.model ""
        then (g, error 400 "invalid_request_error" none)
        else if is_empty_input req.input
        then (g, error 400 "invalid_request_error" none)
        else after_look (record g { cache = looked.0 }) looked.1.0 looked.1.1

  unfoldable pub serve :
      ℕ → Link → Link → String → Handler → Call → Body → Gateway → Gateway × Answer X D
  unfolding serve_decoded
  serve now link settle_link month h q too_large g = (g, error 413 "invalid_request_error" none)
  serve now link settle_link month h q unreadable g = (g, error 400 "invalid_request_error" none)
  serve now link settle_link month h q undecodable g = (g, error 400 "invalid_request_error" none)
  serve now link settle_link month h q (decoded req) g =
      serve_decoded now link settle_link month h q req g

  -- `ServeHTTP`
  unfoldable pub serve_http :
      ℕ → Link → Link → String → Handler → Call → Gateway → Gateway × Answer X D
  unfolding serve
  serve_http now link settle_link month h q g =
      if str_eq q.http.inner.method "POST"
      then serve now link settle_link month h q q.body g
      else (g, error 405 "invalid_request_error" none)
