-- ===== src/Embeddings/Charge.antt =====
-- What an embedding request costs its tenant, with the accounts in memory.
use llm_api_gateway.Embeddings.Outcome as Outcome
use llm_api_gateway.Prelude.{
  ℕ, ◌≡◌, refl, sym, subst, Bool, true, false, String, str_eq, Option, none, some, if◌then◌else◌,
}
use llm_api_gateway.Provider.{Failure}
use llm_api_gateway.Ratelimit.Backend.{Backend}
use llm_api_gateway.Budget.Script.{Commands}
use llm_api_gateway.Budget.Manager.{answers, World}
use llm_api_gateway.Dispatch.{Circuits, Reply}
use llm_api_gateway.Chat.{Caches, Handler}
use llm_api_gateway.Chat.Charge.{reserve_priced-Claims}
use llm_api_gateway.Embeddings.{EmbeddingRequest, EmbeddingResponse, EmbedError}
use llm_api_gateway.Embeddings.Serve.{
  Body, decoded, Call, Answer, error, is_empty_input, Gateway, reserve_embedding, after_limit,
  after_look, look_up, serve_decoded, serve, serve_http,
}

module _ {X D : Type 0} (r : Commands) (sha256_hex : String → String)
    (path_match : String → String → Option Bool) (b : Backend) (c : Caches D)
    (key_for : EmbeddingRequest → String → String) (encode : EmbeddingResponse X → Option D)
    (name_for : String → String)
    (dispatched : EmbeddingRequest
      → Circuits
      → Circuits × Reply (EmbedError Failure) (EmbeddingResponse X))
    (now : ℕ) (month : String) (h : Handler) (q : Call) where
  abbrev State : Type 0
  State = Gateway r sha256_hex path_match b c key_for encode name_for dispatched

  abbrev tenant : String
  tenant = q.http.inner.tenant_header

  abbrev pub IsCharged : String → World r sha256_hex → State × Answer X D → Type 0
  IsCharged model m x =
      Outcome.IsCharged r sha256_hex path_match b c key_for encode name_for dispatched now month h q
        model m x

  module _ (req : EmbeddingRequest) where
    reserve_embedding-Claims :
        (budgeted : Bool) (m : World r sha256_hex)
        → m.active ≡ false
        → let got =
            reserve_embedding r sha256_hex path_match b c key_for encode name_for dispatched
              budgeted answers answers tenant month req m in
          Outcome.IsClaimed r sha256_hex path_match b c key_for encode name_for dispatched now month
            h q req m budgeted got.0 got.1
    unfolding reserve_embedding
    reserve_embedding-Claims true m off =
        reserve_priced-Claims r sha256_hex path_match tenant month _ _ m off
    reserve_embedding-Claims false m off = (
      record { off = off; catalog = refl; cost = refl },
      refl,
      Outcome.same-account r sha256_hex path_match b c key_for encode name_for dispatched now month
          h q m,
    )

    after_limit-IsCharged :
        (g : State) (slot : Option (String × ℕ)) (refusal : Option ℕ)
        → g.budget.active ≡ false
        → IsCharged req.model g.budget (
            after_limit r sha256_hex path_match b c key_for encode name_for dispatched now answers
              answers month h q req slot g refusal)
    unfolding after_limit Outcome.charge
    after_limit-IsCharged g slot (some seconds) off =
        Outcome.same-account r sha256_hex path_match b c key_for encode name_for dispatched now
          month h q g.budget
    after_limit-IsCharged g slot none off =
        Outcome.after_claim-IsCharged r sha256_hex path_match b c key_for encode name_for dispatched
          now month h q req g.budget _ slot _ (reserve_embedding-Claims h.budgeted g.budget off)

    after_look-IsCharged :
        (g : State) (slot : Option (String × ℕ)) (found : Option D)
        → g.budget.active ≡ false
        → IsCharged req.model g.budget (
            after_look r sha256_hex path_match b c key_for encode name_for dispatched now answers
              answers month h q req g slot found)
    unfolding after_look Outcome.charge
    after_look-IsCharged g slot (some d) off =
        Outcome.same-account r sha256_hex path_match b c key_for encode name_for dispatched now
          month h q g.budget
    after_look-IsCharged g slot none off = after_limit-IsCharged _ slot _ off

    serve_decoded-IsCharged :
        (g : State)
        → g.budget.active ≡ false
        → IsCharged req.model g.budget (
            serve_decoded r sha256_hex path_match b c key_for encode name_for dispatched now answers
              answers month h q req g)
    unfolding serve_decoded
    serve_decoded-IsCharged g off =
        let bad : State × Answer X D = (g, error 400 "invalid_request_error" none) in
        let looked =
          look_up r sha256_hex path_match b c key_for encode name_for dispatched now h.cache_ttl q
            req g.cache in
        let g' : State = record g { cache = looked.0 } in
        let next =
          after_look r sha256_hex path_match b c key_for encode name_for dispatched now answers
            answers month h q req g' looked.1.0 looked.1.1 in
        let is_bad =
          Outcome.error-IsCharged r sha256_hex path_match b c key_for encode name_for dispatched now
            month h q req.model g 400 "invalid_request_error" in
        Outcome.if-IsCharged r sha256_hex path_match b c key_for encode name_for dispatched now
          month h q req.model g.budget (str_eq req.model "") bad
          (if is_empty_input req.input then bad else next) is_bad
          (Outcome.if-IsCharged r sha256_hex path_match b c key_for encode name_for dispatched now
            month h q req.model g.budget (is_empty_input req.input) bad next is_bad
            (after_look-IsCharged g' looked.1.0 looked.1.1 off))

    -- With the accounts in memory, after an embedding request the account of its tenant in the month
    -- holds exactly the charge for its answer more than before: the tokens and the price of a
    -- provider's response, if the budget applies to the tenant, and nothing for a cached answer, a
    -- refusal by the token limit or the budget, and every error.
    pub serve_embedding-IsCharged :
        (g : State)
        → q.body ≡ decoded req
        → g.budget.active ≡ false
        → IsCharged req.model g.budget (
            serve_http r sha256_hex path_match b c key_for encode name_for dispatched now answers
              answers month h q g)
    unfolding serve_http serve
    serve_embedding-IsCharged g e off =
        let go = λ (x : Body).
          serve r sha256_hex path_match b c key_for encode name_for dispatched now answers answers
            month h q x g in
        Outcome.if-IsCharged r sha256_hex path_match b c key_for encode name_for dispatched now
          month h q req.model g.budget (str_eq q.http.inner.method "POST") (go q.body)
          (g, error 405 "invalid_request_error" none)
          (subst (λ x. IsCharged req.model g.budget (go x)) (sym e) (serve_decoded-IsCharged g off))
          (Outcome.error-IsCharged r sha256_hex path_match b c key_for encode name_for dispatched
            now month h q req.model g 405 "invalid_request_error")
