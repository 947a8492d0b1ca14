-- ===== src/Dispatch.antt =====
-- `dispatch`, `dispatchHedge` and `openStream` of internal/proxy/handler.go: how a chat request
-- goes to its primary provider, to a race of two fallbacks, and down the fallback chain, past the
-- circuit breakers. A provider's answers are parameters: `send i p model` is what `sendWithRetry` (or
-- the first chunk of a stream) gives in the i-th attempt, `clock` and `late` are the times at which that
-- attempt asks the breaker and reports a failure or a refusal. The primary is attempt 0, and the k-th name of the
-- chain is attempt k + 1. `race p q` is what the race of `p` and `q` receives, which the timeout of its
-- context ends, and `hedge_clock` and `hedge_late` are the times of the race; a call that ends after
-- the race has been decided reports to its breaker at once. Logging is left out but for
-- its call of `State`, and of a request only
-- its model is kept.
pub mod Healthy
pub mod Answer
use llm_api_gateway.Prelude.{
  ℕ, suc, ◌+◌, Bool, true, false, not, ◌&&◌, ◌||◌, ltb, ◌==◌, String, str_eq, Option, none, some,
  List, [], ◌∷◌, ◌++◌, length, map, if◌then◌else◌, pos, ℤ, leb_ℤ,
}
use llm_api_gateway.Resilience.Breaker.{
  Breaker, CircuitConfig, default_circuit_config, new_breaker, allow, record_success,
  record_failure, state_of,
}
use llm_api_gateway.Resilience.Hedge as Hedge
use llm_api_gateway.Router.{Provider, Patterns, Registry, get}
use llm_api_gateway.Router.Resolve.{resolve}
use llm_api_gateway.Router.Remap.{remap_for_fallback}

-- The breaker of each provider's name; `breakerFor` makes one when it is first asked for.
abbrev pub Circuits : Type 0
Circuits = String → Breaker

unfoldable pub set_breaker : String → Breaker → Circuits → Circuits
set_breaker name b c other = if str_eq name other then b else c other

-- What `breakerFor` puts under a name that has none.
unfoldable pub fresh_breaker : CircuitConfig → Breaker
fresh_breaker cfg = new_breaker (
    if leb_ℤ cfg.failure_threshold (pos 0) && leb_ℤ (pos 0) cfg.failure_threshold
    then default_circuit_config
    else cfg)

-- The answer to a request, or the last error; `all_failed` is the error that no provider was tried.
pub data Reply (E A : Type 0) : Type 0 where
  ok : A → String → Reply E A
  failed : E → Reply E A
  no_provider all_failed : Reply E A

abbrev reply_of : {E A : Type 0} → Option E → Reply E A
reply_of none = all_failed
reply_of (some e) = failed e

-- `b.Allow()` on the breaker of a name
unfoldable pub ask : ℕ → String → Circuits → Circuits × Bool
ask now name c = let (b, allowed) = allow now (c name) in (set_breaker name b c, allowed)

-- `b.State()`, which the logging of a refusal calls, and which may move the breaker on.
unfoldable pub look : ℕ → String → Circuits → Circuits
look now name c = set_breaker name (state_of now (c name)).0 c

unfoldable pub succeed : String → Circuits → Circuits
succeed name c = set_breaker name (record_success (c name)) c

unfoldable pub fail : ℕ → String → Circuits → Circuits
fail now name c = set_breaker name (record_failure now (c name)) c

-- The rest of the loop of `dispatchHedge` for a name that may be registered.
unfoldable pub add_candidate :
    ℕ
    → Option Provider
    → (List Provider → Circuits → Circuits × List Provider)
    → List Provider
    → Circuits
    → Circuits × List Provider
add_candidate now none next found c = next found c
add_candidate now (some p) next found c =
    let (c', allowed) = ask now p.name c in next (if allowed then found ++ p ∷ [] else found) c'

module _ {E A : Type 0} (is_retryable : E → Bool) (lib : Patterns) (rand : ℕ → ℕ) (r : Registry)
    (send : ℕ → Provider → String → Hedge.Result E A) (clock late : ℕ → ℕ) where
  abbrev pub Outcome : Type 0
  Outcome = Circuits × Reply E A

  -- After an answer in the attempt `i` at `p`; `next` is the rest of the loop.
  unfoldable pub after_send :
      ℕ → Provider → Hedge.Result E A → (Option E → Circuits → Outcome) → Circuits → Outcome
  after_send i p (Hedge.ok a) next c = (succeed p.name c, ok a p.name)
  after_send i p (Hedge.err e) next c = next (some e) (fail (late i) p.name c)

  -- The rest of the body for a name that may be registered.
  unfoldable pub try_provider :
      ℕ → String → Option Provider → (Option E → Circuits → Outcome) → Option E → Circuits → Outcome
  unfolding after_send
  try_provider i model none next last c = next last c
  try_provider i model (some p) next last c =
      let (c', allowed) = ask (clock i) p.name c in
      if not allowed
      then next last (look (late i) p.name c')
      else after_send i p (send i p (remap_for_fallback lib r model p)) next c'

  -- The loop over the fallback chain; `last` is `lastErr`.
  unfoldable pub try_chain : ℕ → String → String → List String → Option E → Circuits → Outcome
  unfolding try_provider
  try_chain i model primary [] last c = (c, reply_of last)
  try_chain i model primary (name ∷ names) last c =
      let next = try_chain (suc i) model primary names in
      if str_eq name primary then next last c else try_provider i model (get name r) next last c

  module _ (race : Provider → Provider → List (Hedge.Event E A)) (hedge_clock : ℕ → ℕ)
      (hedge_late : ℕ) where
    -- The candidates of `dispatchHedge`: `found` are those so far, of which it wants two.
    unfoldable pub pick_candidates :
        ℕ → String → List String → List Provider → Circuits → Circuits × List Provider
    pick_candidates i primary [] found c = (c, found)
    pick_candidates i primary (name ∷ names) found c =
        let next = pick_candidates (suc i) primary names in
        if length found == 2
        then (c, found)
        else if str_eq name primary
        then next found c
        else add_candidate (hedge_clock i) (get name r) next found c

    -- What the two calls of a race report to their breakers.
    unfoldable pub report : Provider → Provider → List (Hedge.Event E A) → Circuits → Circuits
    report p q [] c = c
    report p q (Hedge.primary_done (Hedge.ok a) ∷ es) c = report p q es (succeed p.name c)
    report p q (Hedge.primary_done (Hedge.err e) ∷ es) c = report p q es (fail hedge_late p.name c)
    report p q (Hedge.fallback_done (Hedge.ok a) ∷ es) c = report p q es (succeed q.name c)
    report p q (Hedge.fallback_done (Hedge.err e) ∷ es) c = report p q es (fail hedge_late q.name c)
    report p q (_ ∷ es) c = report p q es c

    -- The provider whose answer decides a race that returned a result.
    abbrev with_name : Provider → Provider → Hedge.Event E A → Hedge.Event E (A × String)
    with_name p q (Hedge.primary_done (Hedge.ok a)) = Hedge.primary_done (Hedge.ok (a, p.name))
    with_name p q (Hedge.primary_done (Hedge.err e)) = Hedge.primary_done (Hedge.err e)
    with_name p q (Hedge.fallback_done (Hedge.ok a)) = Hedge.fallback_done (Hedge.ok (a, q.name))
    with_name p q (Hedge.fallback_done (Hedge.err e)) = Hedge.fallback_done (Hedge.err e)
    with_name p q Hedge.timer = Hedge.timer
    with_name p q (Hedge.ctx_done e) = Hedge.ctx_done e

    abbrev value_of : Hedge.Phase E (A × String) → Option (A × String)
    value_of (Hedge.returned (Hedge.ok v)) = some v
    value_of _ = none

    -- The race, if there are two candidates.
    unfoldable pub race_found : List Provider → Circuits → Circuits × Option (A × String)
    race_found (p ∷ q ∷ []) c =
        (report p q (race p q) c, value_of (Hedge.do_hedge (map (with_name p q) (race p q))))
    race_found _ c = (c, none)

    abbrev served_or : Circuits × Option (A × String) → (Circuits → Outcome) → Outcome
    served_or (c, some (a, name)) rest = (c, ok a name)
    served_or (c, none) rest = rest c

    unfoldable pub dispatch_hedge : String → List String → Circuits → Circuits × Option (A × String)
    unfolding pick_candidates report
    dispatch_hedge primary names c =
        let (c', found) = pick_candidates 0 primary names [] c in race_found found c'

    -- Whether the code enters the hedge: it is enabled, and the chain has at least two names.
    unfoldable pub or_chain : Bool → String → String → List String → Option E → Circuits → Outcome
    or_chain enabled model primary names last c =
        if enabled && ltb 1 (length names)
        then served_or (dispatch_hedge primary names c) (try_chain 1 model primary names last)
        else try_chain 1 model primary names last c

    -- `dispatch`, after the call of the primary
    unfoldable pub after_primary :
        Bool → String → Provider → List String → Hedge.Result E A → Circuits → Outcome
    after_primary enabled model p names (Hedge.ok a) c = (succeed p.name c, ok a p.name)
    after_primary enabled model p names (Hedge.err e) c =
        let c' = fail (late 0) p.name c in
        if not (is_retryable e)
        then (c', failed e)
        else or_chain enabled model p.name names (some e) c'

    unfoldable pub dispatch_to : Bool → String → Option Provider → List String → Circuits → Outcome
    dispatch_to enabled model none names c = (c, no_provider)
    dispatch_to enabled model (some p) names c =
        let (c', allowed) = ask (clock 0) p.name c in
        if not allowed
        then or_chain enabled model p.name names none (look (late 0) p.name c')
        else after_primary enabled model p names (send 0 p model) c'

    unfoldable pub dispatch : Bool → String → List String → Circuits → Outcome
    dispatch enabled model names c = dispatch_to enabled model (resolve lib rand model r) names c

  -- The providers of `openStream` after the primary.
  unfoldable pub stream_providers : String → List String → List Provider
  stream_providers primary [] = []
  stream_providers primary (name ∷ names) =
      let rest = stream_providers primary names in
      if str_eq name primary then rest else elim (get name r) [ some p ↦ p ∷ rest | none ↦ rest ]

  -- `mapped`: only a fallback gets a remapped request.
  abbrev pub stream_model : ℕ → String → Provider → String
  stream_model i model p = if ltb 0 i then remap_for_fallback lib r model p else model

  -- After the first chunk, or the error before it, in the attempt `i` of `openStream`.
  unfoldable pub after_open :
      ℕ → Provider → Hedge.Result E A → (Option E → Circuits → Outcome) → Circuits → Outcome
  after_open i p (Hedge.ok a) next c = (succeed p.name c, ok a p.name)
  after_open i p (Hedge.err e) next c =
      let c' = fail (late i) p.name c in
      if not (is_retryable e) then (c', failed e) else next (some e) c'

  -- The loop of `openStream`
  unfoldable pub stream_loop : ℕ → String → List Provider → Option E → Circuits → Outcome
  unfolding after_open
  stream_loop i model [] last c = (c, reply_of last)
  stream_loop i model (p ∷ ps) last c =
      let next = stream_loop (suc i) model ps in
      let (c', allowed) = ask (clock i) p.name c in
      if not allowed
      then next last c'
      else after_open i p (send i p (stream_model i model p)) next c'

  unfoldable pub open_stream : String → Provider → List String → Circuits → Outcome
  unfolding stream_providers stream_loop
  open_stream model primary names c =
      stream_loop 0 model (primary ∷ stream_providers primary.name names) none c
