-- ===== src/Chat/Charge/Outcome.antt =====
-- The charge for one chat request, after it has claimed its share of the budget.
use llm_api_gateway.Prelude.{
  ℕ, ◌≡◌, refl, subst, Bool, true, false, not, pos, pos_part, String, Option, none, some,
  if◌then◌else◌,
}
use llm_api_gateway.Types.{ChatRequest, ChatResponse}
use llm_api_gateway.Provider.{Failure, canceled, deadline_exceeded, other_error, provider_error}
use llm_api_gateway.Budget.Account.{
  BudgetError, unavailable, tokens_exceeded, usd_exceeded, denied, exceeded_after_adjustment,
}
use llm_api_gateway.Ratelimit.Backend.{Backend}
use llm_api_gateway.Budget.Script.{Commands}
use llm_api_gateway.Budget.Manager.{Reservation, answers, World, cost_for_tokens}
use llm_api_gateway.Dispatch.{Circuits, Reply, ok, failed, no_provider, all_failed}
use llm_api_gateway.Chat.{
  Call, Caches, Handler, Answer, error, hit, semantic_hit, answered, streamed, Claimed, claimed,
  unpriced, rejected, actual_usd, estimated_tokens, budget_error, dispatch_error, stream_error,
  commit_if, cancel_if,
}
use llm_api_gateway.Chat.Serve.{
  Keys, Gateway, settle_answer, after_dispatch, after_open, not_opened, serve_stream, after_claim,
}
use llm_api_gateway.Chat.Charge.{
  IsKept, Holds, Claims, is_enforced, charged, estimated_usd, commit_if-Holds, cancel_if-Holds,
}

module _ {F V D : Type 0} (r : Commands) (sha256_hex : String → String)
    (path_match : String → String → Option Bool) (b : Backend) (c : Caches D) (keys : Keys F V)
    (encode : ChatResponse → D)
    (dispatched : ChatRequest F V → Circuits → Circuits × Reply Failure ChatResponse)
    (opened : ChatRequest F V → Circuits → Circuits × Reply Failure Unit)
    (is_known : ChatRequest F V → Bool) (now : ℕ) (month : String) (h : Handler)
    (q : Call F V) where
  abbrev pub State : Type 0
  State = Gateway r sha256_hex path_match b c keys encode dispatched opened is_known

  abbrev pub tenant : String
  tenant = q.http.inner.tenant_header

  -- The tokens and the cost charged for an answer to the request `req`, where the account was in `m`.
  unfoldable pub charge : ChatRequest F V → World r sha256_hex → Answer D → ℕ × ℕ
  charge req m (answered resp name miss) =
      let enforced = is_enforced r sha256_hex path_match tenant month h.budgeted m in
      (
        charged r sha256_hex path_match tenant month enforced (pos_part resp.usage.total_tokens),
        charged r sha256_hex path_match tenant month enforced
            (actual_usd r sha256_hex path_match answers m name req.model resp),
      )
  charge req m (streamed name) =
      let enforced = is_enforced r sha256_hex path_match tenant month h.budgeted m in
      (
        charged r sha256_hex path_match tenant month enforced
            (estimated_tokens r sha256_hex path_match answers req),
        charged r sha256_hex path_match tenant month enforced
            (estimated_usd r sha256_hex path_match tenant month req m),
      )
  charge req m a = (0, 0)

  -- The account holds the charge for the answer more than before.
  abbrev pub IsCharged : ChatRequest F V → World r sha256_hex → State × Answer D → Type 0
  IsCharged req m (g, a) =
      Holds r sha256_hex path_match tenant month m (charge req m a).0 (charge req m a).1 g.budget

  -- An answer that is not charged.
  abbrev pub IsFree : Answer D → Type 0
  IsFree (answered resp name miss) = ⊥
  IsFree (streamed name) = ⊥
  IsFree a = Unit

  pub free-IsCharged :
      (req : ChatRequest F V) (m : World r sha256_hex) (g : State) (a : Answer D)
      → IsFree a
      → Holds r sha256_hex path_match tenant month m 0 0 g.budget
      → IsCharged req m (g, a)
  unfolding charge
  free-IsCharged req m g (error status kind wait) f k = k
  free-IsCharged req m g (hit d) f k = k
  free-IsCharged req m g (semantic_hit d) f k = k
  free-IsCharged req m g (answered _ _ _) f k = absurd f
  free-IsCharged req m g (streamed _) f k = absurd f

  pub if-IsCharged :
      (req : ChatRequest F V) (m : World r sha256_hex) (t : Bool) (x y : State × Answer D)
      → IsCharged req m x
      → IsCharged req m y
      → IsCharged req m (if t then x else y)
  if-IsCharged req m true x y h k = h
  if-IsCharged req m false x y h k = k

  budget_error-IsFree : (e : BudgetError) → IsFree (budget_error e)
  unfolding budget_error
  budget_error-IsFree unavailable = tt
  budget_error-IsFree tokens_exceeded = tt
  budget_error-IsFree usd_exceeded = tt
  budget_error-IsFree denied = tt
  budget_error-IsFree exceeded_after_adjustment = tt

  dispatch_error-IsFree : (f : Failure) → IsFree (dispatch_error f)
  unfolding dispatch_error
  dispatch_error-IsFree deadline_exceeded = tt
  dispatch_error-IsFree canceled = tt
  dispatch_error-IsFree other_error = tt
  dispatch_error-IsFree (provider_error e) = tt

  actual_usd-IsKept :
      (m0 m : World r sha256_hex) (name model : String) (resp : ChatResponse)
      → IsKept r sha256_hex path_match tenant month m0 m
      → actual_usd r sha256_hex path_match answers m name model resp
        ≡ actual_usd r sha256_hex path_match answers m0 name model resp
  unfolding actual_usd cost_for_tokens
  actual_usd-IsKept m0 m name model resp k = rw (k.catalog, k.cost) refl

  Claims-IsKept :
      (m0 m : World r sha256_hex) (cost usd : ℕ) (enforced : Bool) (res : Option Reservation)
      → Claims r sha256_hex path_match tenant month m0 cost enforced m (claimed res usd)
      → IsKept r sha256_hex path_match tenant month m0 m
  Claims-IsKept m0 m cost usd enforced none k = k.0
  Claims-IsKept m0 m cost usd enforced (some res) k = k.0

  module _ (req : ChatRequest F V) (m0 : World r sha256_hex) where
    abbrev enforced : Bool
    enforced = is_enforced r sha256_hex path_match tenant month h.budgeted m0

    -- The reservation is taken from `m0`.
    abbrev IsClaimed : World r sha256_hex → Option Reservation → ℕ → Type 0
    IsClaimed m res usd =
        Claims r sha256_hex path_match tenant month m0
          (estimated_usd r sha256_hex path_match tenant month req m0) enforced m (claimed res usd)

    cancelled-Holds :
        (m : World r sha256_hex) (res : Option Reservation) (usd : ℕ)
        → IsClaimed m res usd
        → Holds r sha256_hex path_match tenant month m0 0 0
            (cancel_if r sha256_hex path_match answers res m)
    cancelled-Holds m res usd k =
        cancel_if-Holds r sha256_hex path_match tenant month m0 m enforced res _ usd k

    settle_answer-Holds :
        (budgeted : Bool) (m : World r sha256_hex) (res : Option Reservation) (usd : ℕ)
        (resp : ChatResponse) (name : String)
        → let e = is_enforced r sha256_hex path_match tenant month budgeted m0 in
          let t = pos_part resp.usage.total_tokens in
          let u = actual_usd r sha256_hex path_match answers m0 name req.model resp in
          Claims r sha256_hex path_match tenant month m0
            (estimated_usd r sha256_hex path_match tenant month req m0)
            e
            m
            (claimed res usd)
          → Holds r sha256_hex path_match tenant month m0
              (charged r sha256_hex path_match tenant month e t)
              (charged r sha256_hex path_match tenant month e u)
              (settle_answer r sha256_hex path_match b c keys encode dispatched opened is_known
                answers budgeted res req resp name m)
    unfolding settle_answer
    settle_answer-Holds false m res usd resp name k =
        cancel_if-Holds r sha256_hex path_match tenant month m0 m false res _ usd k
    settle_answer-Holds true m res usd resp name k =
        let e = is_enforced r sha256_hex path_match tenant month true m0 in
        let actual = actual_usd r sha256_hex path_match answers m name req.model resp in
        subst
          (λ u.
            Holds r sha256_hex path_match tenant month m0
              (charged r sha256_hex path_match tenant month e (pos_part resp.usage.total_tokens))
              (charged r sha256_hex path_match tenant month e u)
              (commit_if r sha256_hex path_match answers res resp.usage.total_tokens (pos actual)
                m))
          (actual_usd-IsKept m0 m name req.model resp (Claims-IsKept m0 m _ usd e res k))
          (commit_if-Holds r sha256_hex path_match tenant month m0 m e res _ usd
            resp.usage.total_tokens (pos actual) k)

    after_dispatch-IsCharged :
        (g : State) (res : Option Reservation) (usd : ℕ) (slot : Option (String × ℕ))
        (done : Circuits × Reply Failure ChatResponse)
        → IsClaimed g.budget res usd
        → IsCharged req m0 (
            after_dispatch r sha256_hex path_match b c keys encode dispatched opened is_known now
              answers answers month h q req res slot g done)
    unfolding after_dispatch charge
    after_dispatch-IsCharged g res usd slot (cs, ok resp name) k =
        settle_answer-Holds h.budgeted g.budget res usd resp name k
    after_dispatch-IsCharged g res usd slot (cs, failed e) k =
        free-IsCharged req m0
          (record g {
            circuits = cs;
            budget = cancel_if r sha256_hex path_match answers res g.budget;
          })
          (dispatch_error e) (dispatch_error-IsFree e) (cancelled-Holds g.budget res usd k)
    after_dispatch-IsCharged g res usd slot (cs, no_provider) k = cancelled-Holds g.budget res usd k
    after_dispatch-IsCharged g res usd slot (cs, all_failed) k = cancelled-Holds g.budget res usd k

    opened-Holds :
        (m : World r sha256_hex) (res : Option Reservation) (usd : ℕ)
        → IsClaimed m res usd
        → let t = estimated_tokens r sha256_hex path_match answers req in
          Holds r sha256_hex path_match tenant month m0
            (charged r sha256_hex path_match tenant month enforced t)
            (charged r sha256_hex path_match tenant month enforced
              (estimated_usd r sha256_hex path_match tenant month req m0))
            (commit_if r sha256_hex path_match answers res (pos t) (pos usd) m)
    unfolding commit_if
    opened-Holds m none usd k = rw k.1 k.2
    opened-Holds m (some res) usd k =
        subst
          (λ u.
            Holds r sha256_hex path_match tenant month m0
              (charged r sha256_hex path_match tenant month enforced
                (estimated_tokens r sha256_hex path_match answers req))
              (charged r sha256_hex path_match tenant month enforced u)
              (commit_if r sha256_hex path_match answers (some res)
                (pos (estimated_tokens r sha256_hex path_match answers req)) (pos usd) m))
          k.3
          (commit_if-Holds r sha256_hex path_match tenant month m0 m enforced (some res) _ usd
            (pos (estimated_tokens r sha256_hex path_match answers req)) (pos usd) k)

    after_open-IsCharged :
        (g : State) (res : Option Reservation) (usd : ℕ) (done : Circuits × Reply Failure Unit)
        → IsClaimed g.budget res usd
        → IsCharged req m0 (
            after_open r sha256_hex path_match b c keys encode dispatched opened is_known now
              answers answers month h q req res usd g done)
    unfolding after_open charge stream_error
    after_open-IsCharged g res usd (cs, ok chunk name) k = opened-Holds g.budget res usd k
    after_open-IsCharged g res usd (cs, failed e) k = cancelled-Holds g.budget res usd k
    after_open-IsCharged g res usd (cs, no_provider) k = cancelled-Holds g.budget res usd k
    after_open-IsCharged g res usd (cs, all_failed) k = cancelled-Holds g.budget res usd k

    serve_stream-IsCharged :
        (g : State) (res : Option Reservation) (usd : ℕ)
        → IsClaimed g.budget res usd
        → IsCharged req m0 (
            serve_stream r sha256_hex path_match b c keys encode dispatched opened is_known now
              answers answers month h q req res usd g)
    unfolding serve_stream not_opened charge
    serve_stream-IsCharged g res usd k =
        if-IsCharged req m0 (not (is_known req)) _ _ (cancelled-Holds g.budget res usd k) (
          if-IsCharged req m0 (not q.can_flush) _ _ (cancelled-Holds g.budget res usd k)
            (after_open-IsCharged g res usd (opened req g.circuits) k))

    pub after_claim-IsCharged :
        (g : State) (slot : Option (String × ℕ)) (x : Claimed)
        → Claims r sha256_hex path_match tenant month m0
            (estimated_usd r sha256_hex path_match tenant month req m0)
            enforced
            g.budget
            x
        → IsCharged req m0 (
            after_claim r sha256_hex path_match b c keys encode dispatched opened is_known now
              answers answers month h q req slot g x)
    unfolding after_claim charge
    after_claim-IsCharged g slot unpriced k = k.1
    after_claim-IsCharged g slot (rejected e) k =
        free-IsCharged req m0 g (budget_error e) (budget_error-IsFree e) k.1
    after_claim-IsCharged g slot (claimed res usd) k =
        if-IsCharged req m0 req.stream _ _ (serve_stream-IsCharged g res usd k)
          (after_dispatch-IsCharged g res usd slot (dispatched req g.circuits) k)
