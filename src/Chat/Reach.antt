-- ===== src/Chat/Reach.antt =====
-- Which requests the token limit never lets through.
use Prim.Native.String.{◌++◌ as append}
use llm_api_gateway.Prelude.{
  ℕ, ◌<◌, ◌≡◌, refl, sym, subst, Bool, true, false, pos, String, str_eq, Option, none, some, arith,
  if◌then◌else◌,
}
use llm_api_gateway.Ratelimit.Bucket.{Bucket, take, refill}
use llm_api_gateway.Ratelimit.Limiter.{Limiter, entry_of, estimate_tokens, allow_with_limits}
use llm_api_gateway.Ratelimit.Override.{OverrideStore, resolve}
use llm_api_gateway.Ratelimit.Backend.{local_backend}
use llm_api_gateway.Types.{ChatRequest, ChatResponse}
use llm_api_gateway.Provider.{Failure}
use llm_api_gateway.Http.Middleware.{client_rate_limit_key}
use llm_api_gateway.Budget.Script.{Commands}
use llm_api_gateway.Budget.Manager.{Link}
use llm_api_gateway.Dispatch.{Circuits, Reply}
use llm_api_gateway.Chat.{Call, Caches, Handler, Answer, error, decoded, chat_prompt_tokens}
use llm_api_gateway.Chat.Serve.{
  Keys, Gateway, is_nil, limit_tokens, after_limit, serve_decoded, serve, serve_http,
}

take_more :
    (rpm burst now n : ℕ) (entry : Option Bucket)
    → burst < n
    → (take rpm burst now n entry).1 ≡ false
unfolding take refill
take_more rpm burst now n none h = ground arith
take_more rpm burst now n (some b) h = ground arith

-- A request for more tokens than the burst is refused at any time, whatever the bucket holds.
allow-more :
    (hash : String → ℕ) (now : ℕ) (key : String) (n rpm burst : ℕ) (l : Limiter)
    → 0 < n
    → burst < n
    → (allow_with_limits hash now key (pos n) (pos rpm) (pos burst) l).1 ≡ false
unfolding allow_with_limits
allow-more hash now key n rpm burst l p h =
    ground (arith, take_more rpm burst now n (entry_of hash key l))

chat_prompt_tokens-pos : {F V : Type 0} (r : ChatRequest F V) → 0 < chat_prompt_tokens r
unfolding chat_prompt_tokens estimate_tokens
chat_prompt_tokens-pos r = ground arith

module _ {F V D : Type 0} (r : Commands) (sha256_hex : String → String)
    (path_match : String → String → Option Bool) (hash : String → ℕ) (c : Caches D)
    (keys : Keys F V) (encode : ChatResponse → D)
    (dispatched : ChatRequest F V → Circuits → Circuits × Reply Failure ChatResponse)
    (opened : ChatRequest F V → Circuits → Circuits × Reply Failure Unit)
    (is_known : ChatRequest F V → Bool) (now : ℕ) (link settle_link : Link) (month : String)
    (h : Handler) (q : Call F V) (req : ChatRequest F V) where
  abbrev State : Type 0
  State =
      Gateway r sha256_hex path_match (local_backend hash) c keys encode dispatched opened is_known

  -- The answer is the refusal of the token limit, with some `Retry-After`.
  abbrev pub IsLimited : Answer D → Type 0
  IsLimited a = (seconds : ℕ) × (a ≡ error 429 "rate_limit_exceeded" (some seconds))

  limit_tokens-refused :
      (o : OverrideStore) (rpm burst : ℕ) (s : Limiter)
      → resolve path_match q.http.inner.tenant_header req.model o ≡ (pos rpm, pos burst)
      → burst < chat_prompt_tokens req
      → (seconds : ℕ) × ((limit_tokens r sha256_hex path_match
            (local_backend hash)
            c
            keys
            encode
            dispatched
            opened
            is_known
            now
            true
            (some o)
            q.http
            req
            s).1
          ≡ some seconds)
  unfolding limit_tokens
  limit_tokens-refused o rpm burst s e k =
      let key = append (client_rate_limit_key sha256_hex q.http) ":tokens" in
      rw
        (
          e,
          allow-more hash now key (chat_prompt_tokens req) rpm burst s (chat_prompt_tokens-pos req)
              k,
        )
        (_, refl)

  handler_limit-refused :
      (o : OverrideStore) (rpm burst : ℕ) (s : Limiter)
      → h.token_aware ≡ true
      → h.overrides ≡ some o
      → resolve path_match q.http.inner.tenant_header req.model o ≡ (pos rpm, pos burst)
      → burst < chat_prompt_tokens req
      → (seconds : ℕ) × ((limit_tokens r sha256_hex path_match
            (local_backend hash)
            c
            keys
            encode
            dispatched
            opened
            is_known
            now
            h.token_aware
            h.overrides
            q.http
            req
            s).1
          ≡ some seconds)
  handler_limit-refused o rpm burst s aware over e k =
      rw (aware, over) (limit_tokens-refused o rpm burst s e k)

  skip-IsLimited :
      (t u : Bool) (x y z : State × Answer D)
      → t ≡ false
      → u ≡ false
      → IsLimited z.1
      → IsLimited (if t then x else if u then y else z).1
  skip-IsLimited true u x y z e f l = cc
  skip-IsLimited false true x y z e f l = cc
  skip-IsLimited false false x y z e f l = l

  after_limit-IsLimited :
      (g : State) (refusal : Option ℕ)
      → (seconds : ℕ) × (refusal ≡ some seconds)
      → IsLimited
          (after_limit r sha256_hex path_match
            (local_backend hash)
            c
            keys
            encode
            dispatched
            opened
            is_known
            now
            link
            settle_link
            month
            h
            q
            req
            g
            refusal).1
  unfolding after_limit
  after_limit-IsLimited g (some seconds) e = (seconds, refl)
  after_limit-IsLimited g none e = cc e.1

  -- With the token limit on and the local limiter, a request whose prompt is estimated at more
  -- tokens than the burst that the overrides give its tenant and model is refused with 429, and told to
  -- retry later, whenever it comes and whatever the buckets hold: it can never be served.
  pub serve_http-IsLimited :
      (o : OverrideStore) (rpm burst : ℕ) (g : State)
      → q.body ≡ decoded req
      → str_eq req.model "" ≡ false
      → is_nil req.messages ≡ false
      → h.token_aware ≡ true
      → h.overrides ≡ some o
      → resolve path_match q.http.inner.tenant_header req.model o ≡ (pos rpm, pos burst)
      → burst < chat_prompt_tokens req
      → IsLimited
          (serve_http r sha256_hex path_match
            (local_backend hash)
            c
            keys
            encode
            dispatched
            opened
            is_known
            now
            link
            settle_link
            month
            h
            q
            g).1
  unfolding serve_http serve serve_decoded
  serve_http-IsLimited o rpm burst g body model messages aware over e k =
      subst
        (λ x.
          IsLimited
            (serve r sha256_hex path_match (local_backend hash) c keys encode dispatched opened
              is_known now link settle_link month h q x g).1)
        (sym body)
        (skip-IsLimited _ _ _ _ _ model messages
          (after_limit-IsLimited _ _ (handler_limit-refused o rpm burst g.limiter aware over e k)))
