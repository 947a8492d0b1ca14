-- ===== src/Chat/Serve.antt =====
-- The handler of chat requests as a whole, over the state of the gateway. The metrics read the breaker
-- of the provider that answered: it has just recorded a success, so it is not open, and the read leaves
-- it as it is.
use Prim.Native.String.{◌++◌ as append}
use llm_api_gateway.Prelude.{
  ℕ, Bool, true, false, not, ◌||◌, pos, String, str_eq, Option, none, some, List, [], ◌∷◌,
  if◌then◌else◌,
}
use llm_api_gateway.Types.{ChatRequest, ChatResponse}
use llm_api_gateway.Provider.{Failure}
use llm_api_gateway.Ratelimit.Backend.{Backend}
use llm_api_gateway.Http.Middleware.{Request, client_rate_limit_key}
use llm_api_gateway.Ratelimit.Bucket.{header_seconds}
use llm_api_gateway.Ratelimit.Override.{OverrideStore, resolve}
use llm_api_gateway.Budget.Script.{Commands}
use llm_api_gateway.Budget.Manager.{Reservation, Link, World}
use llm_api_gateway.Dispatch.{Circuits, Reply, ok, failed, no_provider, all_failed}
use llm_api_gateway.Chat.{
  Body, too_large, unreadable, undecodable, decoded, Call, Caches, Handler, Answer, error, hit,
  semantic_hit, answered, streamed, chat_prompt_tokens, budget_error, dispatch_error, stream_error,
  ttl_for, Claimed, claimed, unpriced, rejected, commit_if, cancel_if, actual_usd, estimated_tokens,
  reserve_chat_budget,
}

unfoldable pub is_nil : {A : Type 0} → List A → Bool
is_nil [] = true
is_nil (x ∷ xs) = false

-- The keys of the caches, for a request and its `Authorization` header.
pub record Keys (F V : Type 0) : Type 0 where
  pub key_for : ChatRequest F V → String → String
  pub namespace_for : ChatRequest F V → String → String
  pub query_of : ChatRequest F V → String

module _ {F V D : Type 0} (r : Commands) (sha256_hex : String → String)
    (path_match : String → String → Option Bool) (b : Backend) (c : Caches D) (keys : Keys F V)
    (encode : ChatResponse → D)
    (dispatched : ChatRequest F V → Circuits → Circuits × Reply Failure ChatResponse)
    (opened : ChatRequest F V → Circuits → Circuits × Reply Failure Unit)
    (is_known : ChatRequest F V → Bool) where
  -- What the handler shares with other requests.
  pub record Gateway : Type 0 where
    pub limiter : b.State
    pub cache : c.State
    pub budget : World r sha256_hex
    pub circuits : Circuits

  -- The token limit, in nanoseconds `now`: the seconds of a refusal.
  unfoldable pub limit_tokens :
      ℕ → Bool → Option OverrideStore → Request → ChatRequest F V → b.State → b.State × Option ℕ
  limit_tokens now token_aware none q req s = (s, none)
  limit_tokens now token_aware (some o) q req s =
      let (rpm, burst) = resolve path_match q.inner.tenant_header req.model o in
      let key = append (client_rate_limit_key sha256_hex q) ":tokens" in
      let first = b.allow_with_limits now key (pos (chat_prompt_tokens req)) rpm burst s in
      let second = b.retry_after_with_limits now key rpm burst first.0 in
      if not token_aware
      then (s, none)
      else if first.1
      then (first.0, none)
      else (second.0, some (header_seconds second.1))

  -- The part of the handler for which a cached answer is looked up: the key and lifetime under which
  -- the answer will be stored, and the answer if there is one.
  pub record Looked : Type 0 where
    pub state : c.State
    pub slot : Option (String × ℕ)
    pub found : Option (Answer D)

  unfoldable pub found_semantic : String × ℕ → c.State × Option D → Looked
  found_semantic slot (s, some d) = record {
    state = s;
    slot = some slot;
    found = some (semantic_hit d);
  }
  found_semantic slot (s, none) = record { state = s; slot = some slot; found = none }

  unfoldable pub found_exact : ℕ → String × ℕ → String → String → c.State × Option D → Looked
  unfolding found_semantic
  found_exact now slot namespace query (s, some d) = record {
    state = s;
    slot = some slot;
    found = some (hit d);
  }
  found_exact now slot namespace query (s, none) =
      let semantic = found_semantic slot (c.lookup now namespace query s) in
      if c.is_semantic then semantic else record { state = s; slot = some slot; found = none }

  unfoldable pub look_up : ℕ → Option ℕ → Call F V → ChatRequest F V → c.State → Looked
  unfolding found_exact
  look_up now none q req s = record { state = s; slot = none; found = none }
  look_up now (some ttl) q req s =
      let authorization = q.http.inner.authorization in
      let key = keys.key_for req authorization in
      let looked =
        found_exact now (key, ttl_for q.cache_ttl ttl) (keys.namespace_for req authorization)
          (keys.query_of req) (c.get now key s) in
      if req.stream || q.cache_skip then record { state = s; slot = none; found = none } else looked

  -- The store of an answer, and the header X-Cache; `cached` is whether there is a cache.
  unfoldable pub store_answer :
      ℕ → Bool → Option (String × ℕ) → String → ChatRequest F V → ChatResponse → c.State → c.State
  store_answer now cached none authorization req resp s = s
  store_answer now cached (some (key, ttl)) authorization req resp s =
      if not cached || str_eq key ""
      then s
      else if c.is_semantic
      then c.set_semantic now (keys.namespace_for req authorization) (keys.query_of req) key
          (encode resp) ttl s
      else c.set now key (encode resp) ttl s

  unfoldable pub has_cache : Option ℕ → Bool
  has_cache none = false
  has_cache (some ttl) = true

  -- The price of an answer, and the settling of its reservation.
  unfoldable pub settle_answer :
      Link
      → Bool
      → Option Reservation
      → ChatRequest F V
      → ChatResponse
      → String
      → World r sha256_hex
      → World r sha256_hex
  settle_answer link budgeted res req resp name m =
      let usd = pos (actual_usd r sha256_hex path_match link m name req.model resp) in
      if budgeted
      then commit_if r sha256_hex path_match link res resp.usage.total_tokens usd m
      else cancel_if r sha256_hex path_match link res m

  module _ (now : ℕ) (link settle_link : Link) (month : String) (h : Handler) (q : Call F V)
      (req : ChatRequest F V) where
    -- After `dispatch`.
    unfoldable pub after_dispatch :
        Option Reservation
        → Option (String × ℕ)
        → Gateway
        → Circuits × Reply Failure ChatResponse
        → Gateway × Answer D
    unfolding settle_answer store_answer has_cache
    after_dispatch res slot g (cs, ok resp name) = (
      record g {
        circuits = cs;
        budget = settle_answer settle_link h.budgeted res req resp name g.budget;
        cache =
            store_answer now (has_cache h.cache_ttl) slot q.http.inner.authorization req resp
              g.cache;
      },
      answered resp name (has_cache h.cache_ttl),
    )
    after_dispatch res slot g (cs, failed e) = (
      record g {
        circuits = cs;
        budget = cancel_if r sha256_hex path_match settle_link res g.budget;
      },
      dispatch_error e,
    )
    after_dispatch res slot g (cs, no_provider) = (
      record g {
        circuits = cs;
        budget = cancel_if r sha256_hex path_match settle_link res g.budget;
      },
      error 404 "model_not_found" none,
    )
    after_dispatch res slot g (cs, all_failed) = (
      record g {
        circuits = cs;
        budget = cancel_if r sha256_hex path_match settle_link res g.budget;
      },
      error 502 "provider_error" none,
    )

    -- `handleStream`, up to the events of the stream, and what becomes of the reservation.
    unfoldable pub after_open :
        Option Reservation → ℕ → Gateway → Circuits × Reply Failure Unit → Gateway × Answer D
    after_open res usd g (cs, ok chunk name) = (
      record g {
        circuits = cs;
        budget =
            commit_if r sha256_hex path_match settle_link res
              (pos (estimated_tokens r sha256_hex path_match settle_link req)) (pos usd) g.budget;
      },
      streamed name,
    )
    after_open res usd g (cs, failed e) = (
      record g {
        circuits = cs;
        budget = cancel_if r sha256_hex path_match settle_link res g.budget;
      },
      stream_error e,
    )
    after_open res usd g (cs, no_provider) = (
      record g {
        circuits = cs;
        budget = cancel_if r sha256_hex path_match settle_link res g.budget;
      },
      error 404 "model_not_found" none,
    )
    after_open res usd g (cs, all_failed) = (
      record g {
        circuits = cs;
        budget = cancel_if r sha256_hex path_match settle_link res g.budget;
      },
      error 502 "provider_error" none,
    )

    -- A stream that is not opened: the reservation is cancelled.
    unfoldable pub not_opened : Option Reservation → Gateway → Answer D → Gateway × Answer D
    not_opened res g a =
        (record g { budget = cancel_if r sha256_hex path_match settle_link res g.budget }, a)

    -- `is_known` is whether `Resolve` finds a provider.
    unfoldable pub serve_stream : Option Reservation → ℕ → Gateway → Gateway × Answer D
    unfolding not_opened after_open
    serve_stream res usd g =
        if not (is_known req)
        then not_opened res g (error 404 "model_not_found" none)
        else if not q.can_flush
        then not_opened res g (error 500 "server_error" none)
        else after_open res usd g (opened req g.circuits)

    -- After `reserveChatBudget`.
    unfoldable pub after_claim : Option (String × ℕ) → Gateway → Claimed → Gateway × Answer D
    unfolding serve_stream after_dispatch
    after_claim slot g unpriced = (g, error 503 "pricing_unavailable" none)
    after_claim slot g (rejected e) = (g, budget_error e)
    after_claim slot g (claimed res usd) =
        if req.stream
        then serve_stream res usd g
        else after_dispatch res slot g (dispatched req g.circuits)

    -- After the lookup in the caches.
    unfoldable pub after_look :
        Gateway → Option (String × ℕ) → Option (Answer D) → Gateway × Answer D
    unfolding after_claim
    after_look g slot (some a) = (g, a)
    after_look g slot none =
        let got =
          reserve_chat_budget r sha256_hex path_match settle_link h.budgeted link
            q.http.inner.tenant_header month req g.budget in
        after_claim slot (record g { budget = got.0 }) got.1

    -- After the token limit.
    unfoldable pub after_limit : Gateway → Option ℕ → Gateway × Answer D
    unfolding look_up after_look
    after_limit g (some seconds) = (g, error 429 "rate_limit_exceeded" (some seconds))
    after_limit g none =
        let looked = look_up now h.cache_ttl q req g.cache in
        after_look (record g { cache = looked.state }) looked.slot looked.found

    -- The handler, for a body that was decoded.
    unfoldable pub serve_decoded : Gateway → Gateway × Answer D
    unfolding limit_tokens after_limit
    serve_decoded g =
        let limited = limit_tokens now h.token_aware h.overrides q.http req g.limiter in
        if str_eq req.model ""
        then (g, error 400 "invalid_request_error" none)
        else if is_nil req.messages
        then (g, error 400 "invalid_request_error" none)
        else after_limit (record g { limiter = limited.0 }) limited.1

  unfoldable pub serve :
      ℕ → Link → Link → String → Handler → Call F V → Body F V → Gateway → Gateway × Answer D
  unfolding serve_decoded
  serve now link settle_link month h q too_large g = (g, error 413 "invalid_request_error" none)
  serve now link settle_link month h q unreadable g = (g, error 400 "invalid_request_error" none)
  serve now link settle_link month h q undecodable g = (g, error 400 "invalid_request_error" none)
  serve now link settle_link month h q (decoded req) g =
      serve_decoded now link settle_link month h q req g

  -- `ServeHTTP`
  unfoldable pub serve_http :
      ℕ → Link → Link → String → Handler → Call F V → Gateway → Gateway × Answer D
  unfolding serve
  serve_http now link settle_link month h q g = serve now link settle_link month h q q.body g
