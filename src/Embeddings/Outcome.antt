-- ===== src/Embeddings/Outcome.antt =====
-- The charge for an embedding request, after it has claimed its share of the budget.
use llm_api_gateway.Prelude.{
  ℕ, ◌≡◌, refl, subst, Bool, true, false, pos, pos_part, String, Option, none, some, if◌then◌else◌,
}
use llm_api_gateway.Provider.{Failure}
use llm_api_gateway.Pricing.{estimate_of, embedding_cost}
use llm_api_gateway.Ratelimit.Backend.{Backend}
use llm_api_gateway.Budget.Account.{
  BudgetError, unavailable, tokens_exceeded, usd_exceeded, denied, exceeded_after_adjustment,
}
use llm_api_gateway.Budget.Script.{Commands}
use llm_api_gateway.Budget.Manager.{Reservation, answers, World, cost_for_tokens}
use llm_api_gateway.Dispatch.{Circuits, Reply, ok, failed, no_provider, all_failed}
use llm_api_gateway.Chat.{
  Caches, Handler, Claimed, claimed, unpriced, rejected, commit_if, cancel_if,
}
use llm_api_gateway.Chat.Charge.{
  IsKept, Holds, Claims, is_enforced, charged, commit_if-Holds, cancel_if-Holds, same-Holds,
}
use llm_api_gateway.Embeddings.{EmbeddingRequest, EmbeddingResponse, EmbedError, unsupported, sent}
use llm_api_gateway.Embeddings.Serve.{
  Call, Answer, error, hit, answered, budget_error, dispatch_error, input_tokens, Gateway,
  actual_usd, settle_answer, give_up, after_dispatch, after_claim,
}

module _ {X D : Type 0} (r : Commands) (sha256_hex : String → String)
    (path_match : String → String → Option Bool) (b : Backend) (c : Caches D)
    (key_for : EmbeddingRequest → String → String) (encode : EmbeddingResponse X → Option D)
    (name_for : String → String)
    (dispatched : EmbeddingRequest
      → Circuits
      → Circuits × Reply (EmbedError Failure) (EmbeddingResponse X))
    (now : ℕ) (month : String) (h : Handler) (q : Call) where
  abbrev pub State : Type 0
  State = Gateway r sha256_hex path_match b c key_for encode name_for dispatched

  abbrev pub tenant : String
  tenant = q.http.inner.tenant_header

  abbrev pub enforced : World r sha256_hex → Bool
  enforced m = is_enforced r sha256_hex path_match tenant month h.budgeted m

  abbrev usd_of : World r sha256_hex → String → String → EmbeddingResponse X → ℕ
  usd_of m name model resp =
      actual_usd r sha256_hex path_match b c key_for encode name_for dispatched answers m name model
        resp

  -- The tokens and the cost charged for an answer, where the account was in `m`.
  unfoldable pub charge : String → World r sha256_hex → Answer X D → ℕ × ℕ
  charge model m (answered resp name miss) = (
    charged r sha256_hex path_match tenant month (enforced m) (pos_part resp.usage.total_tokens),
    charged r sha256_hex path_match tenant month (enforced m) (usd_of m name model resp),
  )
  charge model m (hit d) = (0, 0)
  charge model m (error status kind wait) = (0, 0)

  -- After the request, in whose course the account changes from `m`, it holds the charge for the answer.
  abbrev pub IsCharged : String → World r sha256_hex → State × Answer X D → Type 0
  IsCharged model m (g, a) =
      Holds r sha256_hex path_match tenant month m (charge model m a).0 (charge model m a).1
        g.budget

  -- An answer that is not charged.
  abbrev IsFree : Answer X D → Type 0
  IsFree (answered resp name miss) = ⊥
  IsFree a = Unit

  free-IsCharged :
      (model : String) (m : World r sha256_hex) (g : State) (a : Answer X D)
      → IsFree a
      → Holds r sha256_hex path_match tenant month m 0 0 g.budget
      → IsCharged model m (g, a)
  unfolding charge
  free-IsCharged model m g (error status kind wait) f k = k
  free-IsCharged model m g (hit d) f k = k
  free-IsCharged model m g (answered resp name miss) f k = absurd f

  pub if-IsCharged :
      (model : String) (m : World r sha256_hex) (t : Bool) (x y : State × Answer X D)
      → IsCharged model m x
      → IsCharged model m y
      → IsCharged model m (if t then x else y)
  if-IsCharged model m true x y j k = j
  if-IsCharged model m false x y j k = k

  budget_error-IsFree : (e : BudgetError) → IsFree (budget_error e)
  unfolding budget_error
  budget_error-IsFree unavailable = tt
  budget_error-IsFree tokens_exceeded = tt
  budget_error-IsFree usd_exceeded = tt
  budget_error-IsFree denied = tt
  budget_error-IsFree exceeded_after_adjustment = tt

  dispatch_error-IsFree : (e : EmbedError Failure) → IsFree (dispatch_error e)
  unfolding dispatch_error
  dispatch_error-IsFree unsupported = tt
  dispatch_error-IsFree (sent f) = tt

  pub same-account : (m : World r sha256_hex) → Holds r sha256_hex path_match tenant month m 0 0 m
  same-account m = same-Holds r sha256_hex path_match tenant month m m refl

  usd_of-IsKept :
      (m0 m : World r sha256_hex) (name model : String) (resp : EmbeddingResponse X)
      → IsKept r sha256_hex path_match tenant month m0 m
      → usd_of m name model resp ≡ usd_of m0 name model resp
  unfolding actual_usd cost_for_tokens
  usd_of-IsKept m0 m name model resp k = rw (k.catalog, k.cost) refl

  module _ (req : EmbeddingRequest) (m0 : World r sha256_hex) where
    abbrev pub estimate : ℕ
    estimate =
        (estimate_of (
          embedding_cost path_match req.model m0.catalog (name_for req.model)
            (pos (input_tokens req)))).usd

    abbrev pub IsClaimed : Bool → World r sha256_hex → Claimed → Type 0
    IsClaimed budgeted m x =
        Claims r sha256_hex path_match tenant month m0 estimate
          (is_enforced r sha256_hex path_match tenant month budgeted m0) m x

    claimed-IsKept :
        (budgeted : Bool) (m : World r sha256_hex) (res : Option Reservation) (usd : ℕ)
        → IsClaimed budgeted m (claimed res usd)
        → IsKept r sha256_hex path_match tenant month m0 m
    claimed-IsKept budgeted m none usd k = k.0
    claimed-IsKept budgeted m (some res) usd k = k.0

    settle_answer-Holds :
        (budgeted : Bool) (m : World r sha256_hex) (res : Option Reservation) (usd : ℕ)
        (resp : EmbeddingResponse X) (name : String)
        → let e = is_enforced r sha256_hex path_match tenant month budgeted m0 in
          IsClaimed budgeted m (claimed res usd)
          → Holds r sha256_hex path_match tenant month m0
              (charged r sha256_hex path_match tenant month e (pos_part resp.usage.total_tokens))
              (charged r sha256_hex path_match tenant month e (usd_of m0 name req.model resp))
              (settle_answer r sha256_hex path_match b c key_for encode name_for dispatched answers
                budgeted res req resp name m)
    unfolding settle_answer
    settle_answer-Holds false m res usd resp name k =
        cancel_if-Holds r sha256_hex path_match tenant month m0 m false res _ usd k
    settle_answer-Holds true m res usd resp name k =
        let e = is_enforced r sha256_hex path_match tenant month true m0 in
        let actual = usd_of m name req.model resp in
        subst
          (λ u.
            Holds r sha256_hex path_match tenant month m0
              (charged r sha256_hex path_match tenant month e (pos_part resp.usage.total_tokens))
              (charged r sha256_hex path_match tenant month e u)
              (commit_if r sha256_hex path_match answers res resp.usage.total_tokens (pos actual)
                m))
          (usd_of-IsKept m0 m name req.model resp (claimed-IsKept true m res usd k))
          (commit_if-Holds r sha256_hex path_match tenant month m0 m e res _ usd
            resp.usage.total_tokens (pos actual) k)

    give_up-IsCharged :
        (g : State) (res : Option Reservation) (usd : ℕ) (cs : Circuits) (a : Answer X D)
        → IsFree a
        → IsClaimed h.budgeted g.budget (claimed res usd)
        → IsCharged req.model m0 (
            give_up r sha256_hex path_match b c key_for encode name_for dispatched now answers
              answers month h q req res g cs a)
    unfolding give_up
    give_up-IsCharged g res usd cs a f k =
        free-IsCharged req.model m0
          (record g {
            circuits = cs;
            budget = cancel_if r sha256_hex path_match answers res g.budget;
          })
          a f (cancel_if-Holds r sha256_hex path_match tenant month m0 g.budget _ res _ usd k)

    after_dispatch-IsCharged :
        (g : State) (res : Option Reservation) (usd : ℕ) (slot : Option (String × ℕ))
        (done : Circuits × Reply (EmbedError Failure) (EmbeddingResponse X))
        → IsClaimed h.budgeted g.budget (claimed res usd)
        → IsCharged req.model m0 (
            after_dispatch r sha256_hex path_match b c key_for encode name_for dispatched now
              answers answers month h q req res slot g done)
    unfolding after_dispatch charge
    after_dispatch-IsCharged g res usd slot (cs, ok resp name) k =
        settle_answer-Holds h.budgeted g.budget res usd resp name k
    after_dispatch-IsCharged g res usd slot (cs, failed e) k =
        give_up-IsCharged g res usd cs (dispatch_error e) (dispatch_error-IsFree e) k
    after_dispatch-IsCharged g res usd slot (cs, no_provider) k =
        give_up-IsCharged g res usd cs (error 404 "model_not_found" none) tt k
    after_dispatch-IsCharged g res usd slot (cs, all_failed) k =
        give_up-IsCharged g res usd cs (error 502 "provider_error" none) tt k

    pub after_claim-IsCharged :
        (g : State) (slot : Option (String × ℕ)) (x : Claimed)
        → IsClaimed h.budgeted g.budget x
        → IsCharged req.model m0 (
            after_claim r sha256_hex path_match b c key_for encode name_for dispatched now answers
              answers month h q req slot g x)
    unfolding after_claim charge
    after_claim-IsCharged g slot unpriced k = k.1
    after_claim-IsCharged g slot (rejected e) k =
        free-IsCharged req.model m0 g (budget_error e) (budget_error-IsFree e) k.1
    after_claim-IsCharged g slot (claimed res usd) k =
        after_dispatch-IsCharged g res usd slot (dispatched req g.circuits) k

  pub error-IsCharged :
      (model : String) (g : State) (status : ℕ) (kind : String)
      → IsCharged model g.budget (g, error status kind none)
  error-IsCharged model g status kind =
      free-IsCharged model g.budget g (error status kind none) tt (same-account g.budget)
