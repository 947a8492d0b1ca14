-- ===== src/Chat/Upstream.antt =====
-- The dispatch of chat requests and streams by `Dispatch`, in the form in which `Serve` calls it.
use llm_api_gateway.Prelude.{ℕ, Bool, true, false, String, Option, none, some, List}
use llm_api_gateway.Types.{ChatRequest, ChatResponse}
use llm_api_gateway.Provider.{Failure, is_retryable}
use llm_api_gateway.Resilience.Hedge as Hedge
use llm_api_gateway.Router.{Provider, Patterns, Registry}
use llm_api_gateway.Router.Resolve.{resolve}
use llm_api_gateway.Dispatch.{Circuits, Reply, no_provider, dispatch, open_stream}

-- What a request meets: the registry and the fallback chain, the answers of the providers and their
-- first chunks, and the times of the attempts and of the race.
pub record Upstream (F V : Type 0) : Type 0 where
  pub lib : Patterns
  pub rand : ℕ → ℕ
  pub registry : Registry
  pub chain : List String
  pub hedged : Bool
  pub send : ChatRequest F V → ℕ → Provider → String → Hedge.Result Failure ChatResponse
  pub first_chunk : ChatRequest F V → ℕ → Provider → String → Hedge.Result Failure Unit
  pub clock : ℕ → ℕ
  pub late : ℕ → ℕ
  pub race : ChatRequest F V → Provider → Provider → List (Hedge.Event Failure ChatResponse)
  pub hedge_clock : ℕ → ℕ
  pub hedge_late : ℕ

module _ {F V : Type 0} (u : Upstream F V) where
  -- `h.dispatch(ctx, req, requestID)`
  unfoldable pub dispatched_by : ChatRequest F V → Circuits → Circuits × Reply Failure ChatResponse
  dispatched_by req c =
      dispatch is_retryable u.lib u.rand u.registry (u.send req) u.clock u.late (u.race req)
        u.hedge_clock u.hedge_late u.hedged req.model u.chain c

  -- `h.registry.Resolve(req.Model)` has no error.
  unfoldable pub is_known_by : ChatRequest F V → Bool
  is_known_by req = elim (resolve u.lib u.rand req.model u.registry) [
    | none ↦ false
    | some p ↦ true
  ]

  unfoldable pub opened_to :
      ChatRequest F V → Option Provider → Circuits → Circuits × Reply Failure Unit
  opened_to req none c = (c, no_provider)
  opened_to req (some p) c =
      open_stream is_retryable u.lib u.rand u.registry (u.first_chunk req) u.clock u.late req.model
        p u.chain c

  -- `h.openStream(ctx, req, primary, requestID)`, for the primary that `Resolve` gives
  unfoldable pub opened_by : ChatRequest F V → Circuits → Circuits × Reply Failure Unit
  unfolding opened_to
  opened_by req c = opened_to req (resolve u.lib u.rand req.model u.registry) c
