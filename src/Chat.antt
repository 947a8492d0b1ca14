-- ===== src/Chat.antt =====
-- `Handler.ServeHTTP` of internal/proxy/handler.go: a chat request from its body to its answer, through
-- the token limit, the caches, the budget and the dispatch. `dispatched` and `opened` are what
-- `dispatch` and `openStream` of `Dispatch` give for a request, over its breakers. What an
-- answer is encoded to in JSON, hashes and keys are parameters; metrics, logs and spans are left out.
pub mod Serve
pub mod Stream
pub mod Charge
pub mod Reach
pub mod Upstream
use Prim.Native.String.{◌++◌ as append, len}
use llm_api_gateway.Prelude.{
  ℕ, ◌+◌, Bool, true, false, not, ◌&&◌, ◌||◌, ℤ, pos, pos_part, ltb_ℤ, ltb, String, str_eq, Option,
  none, some, List, [], ◌∷◌, if◌then◌else◌, ◌==◌,
}
use llm_api_gateway.Types.{ChatMessage, ChatRequest, ChatResponse, text_of, effective_max_tokens}
use llm_api_gateway.Provider.{Failure, deadline_exceeded, propagate_retry_after}
use llm_api_gateway.Ratelimit.Backend.{Backend}
use llm_api_gateway.Http.Middleware.{Request, client_rate_limit_key}
use llm_api_gateway.Ratelimit.Bucket.{header_seconds}
use llm_api_gateway.Ratelimit.Limiter.{estimate_tokens}
use llm_api_gateway.Ratelimit.Override.{OverrideStore, resolve}
use llm_api_gateway.Pricing.{Priced, priced, unknown_price, chat, estimate_chat}
use llm_api_gateway.Budget.Account.{BudgetError, unavailable}
use llm_api_gateway.Budget.Script.{Commands}
use llm_api_gateway.Budget.Manager.{
  Manager, Reservation, Reserved, not_enforced, reserved, refused, Link, World, reserve, commit,
  cancel, cost_for_tokens,
}
use llm_api_gateway.Dispatch.{Circuits, Reply, ok, failed, no_provider, all_failed}

-- What reading and decoding the body gives.
pub data Body (F V : Type 0) : Type 0 where
  too_large unreadable undecodable : Body F V
  decoded : ChatRequest F V → Body F V

-- The headers of a request, beside those of `Http`: `cache_ttl` is the header X-Cache-TTL, if it is
-- a positive duration.
pub record Call (F V : Type 0) : Type 0 where
  pub http : Request
  pub body : Body F V
  pub cache_skip : Bool
  pub cache_ttl : Option ℕ
  pub can_flush : Bool

-- `cache.Cache`, and `cache.SemanticLookup` if it is one.
pub record Caches (D : Type 0) : Type 1 where
  pub State : Type 0
  pub is_semantic : Bool
  pub get : ℕ → String → State → State × Option D
  pub set : ℕ → String → D → ℕ → State → State
  pub lookup : ℕ → String → String → State → State × Option D
  pub set_semantic : ℕ → String → String → String → D → ℕ → State → State

-- The fields of the handler that are set when it is built or reloaded.
pub record Handler : Type 0 where
  -- the overrides, where there are overrides and a limiter
  pub overrides : Option OverrideStore
  pub token_aware : Bool
  -- the lifetime of entries, where there is a cache
  pub cache_ttl : Option ℕ
  -- whether there is a budget manager
  pub budgeted : Bool

pub data Answer (D : Type 0) : Type 0 where
  -- the status and the type of an error, and the `Retry-After` header
  error : ℕ → String → Option ℕ → Answer D
  hit semantic_hit : D → Answer D
  -- the response of a provider, by its name, and whether the header X-Cache says MISS
  answered : ChatResponse → String → Bool → Answer D
  streamed : String → Answer D

-- The characters of all messages.
unfoldable pub chars_of : List ChatMessage → ℕ
chars_of [] = 0
chars_of (m ∷ ms) = len (text_of m) + chars_of ms

unfoldable pub chat_prompt_tokens : {F V : Type 0} → ChatRequest F V → ℕ
unfolding chars_of
chat_prompt_tokens r = estimate_tokens (pos (chars_of r.messages))

-- `completionTokens`
unfoldable pub completion_tokens : {F V : Type 0} → ChatRequest F V → ℕ
completion_tokens r = elim (effective_max_tokens r) [
  | none ↦ 0
  | some max ↦ if ltb_ℤ (pos 0) max then pos_part max else 0
]

-- `writeBudgetError`
unfoldable pub budget_error : {D : Type 0} → BudgetError → Answer D
budget_error unavailable = error 503 "budget_unavailable" none
budget_error e = error 429 "insufficient_quota" none

-- The error of a dispatch, or of a stream that could not be opened.
unfoldable pub dispatch_error : {D : Type 0} → Failure → Answer D
dispatch_error deadline_exceeded = error 504 "provider_error" none
dispatch_error f = error 502 "provider_error" (propagate_retry_after f)

unfoldable pub stream_error : {D : Type 0} → Failure → Answer D
stream_error f = error 502 "provider_error" (propagate_retry_after f)

unfoldable pub or_five_minutes : ℕ → ℕ
or_five_minutes ttl = if ttl == 0 then 300_000_000_000 else ttl

-- `cacheTTL`
unfoldable pub ttl_for : Option ℕ → ℕ → ℕ
unfolding or_five_minutes
ttl_for none ttl = or_five_minutes ttl
ttl_for (some d) ttl = if d == 0 then or_five_minutes ttl else d

-- What `reserveChatBudget` returns: the reservation or nil and the estimated cost, or the error.
pub data Claimed : Type 0 where
  claimed : Option Reservation → ℕ → Claimed
  unpriced : Claimed
  rejected : BudgetError → Claimed

unfoldable pub claim_of : ℕ → Reserved → Claimed
claim_of usd (reserved res) = claimed (some res) usd
claim_of usd not_enforced = claimed none usd
claim_of usd (refused e) = rejected e

-- The budget calls of a request, in a month: what may happen to the Redis calls, and the prices.
module _ (r : Commands) (sha256_hex : String → String) (path_match : String → String → Option Bool)
    (settle_link : Link) where
  -- `budgetReservation.Commit`, if there is a reservation
  unfoldable pub commit_if : Option Reservation → ℤ → ℤ → World r sha256_hex → World r sha256_hex
  commit_if none tokens usd m = m
  commit_if (some res) tokens usd m = (commit r sha256_hex settle_link tokens usd res m).0

  unfoldable pub cancel_if : Option Reservation → World r sha256_hex → World r sha256_hex
  cancel_if none m = m
  cancel_if (some res) m = (cancel r sha256_hex settle_link res m).0

  unfoldable pub usd_or : ℕ → Priced → ℕ
  usd_or fallback (priced e) = e.usd
  usd_or fallback (unknown_price e) = fallback

  -- `actualUSD`
  unfoldable pub actual_usd : World r sha256_hex → String → String → ChatResponse → ℕ
  unfolding usd_or
  actual_usd m provider model resp = usd_or (cost_for_tokens m resp.usage.total_tokens) (
      chat path_match model m.catalog provider resp.usage.prompt_tokens
        resp.usage.completion_tokens)

  -- `EstimateChat`, for the model and the tokens of a request
  unfoldable pub estimate_for : {F V : Type 0} → ChatRequest F V → World r sha256_hex → Priced
  estimate_for q m =
      estimate_chat path_match q.model m.catalog (chat_prompt_tokens q) (completion_tokens q)

  -- The tokens that `reserveChatBudget` reserves.
  unfoldable pub estimated_tokens : {F V : Type 0} → ChatRequest F V → ℕ
  estimated_tokens q = chat_prompt_tokens q + completion_tokens q

  unfoldable pub reserve_priced :
      Link → String → String → ℕ → Priced → World r sha256_hex → World r sha256_hex × Claimed
  unfolding claim_of
  reserve_priced link tenant month tokens (unknown_price e) m = (m, unpriced)
  reserve_priced link tenant month tokens (priced e) m =
      let got = reserve r sha256_hex link tenant month (pos tokens) (pos e.usd) m in
      (got.0, claim_of e.usd got.1)

  unfoldable pub reserve_chat_budget :
      {F V : Type 0}
      → Bool
      → Link
      → String
      → String
      → ChatRequest F V
      → World r sha256_hex
      → World r sha256_hex × Claimed
  unfolding reserve_priced estimate_for estimated_tokens
  reserve_chat_budget budgeted link tenant month q m =
      if budgeted
      then reserve_priced link tenant month (estimated_tokens q) (estimate_for q m) m
      else (m, claimed none 0)
