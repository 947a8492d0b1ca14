-- ===== src/Chat/Charge/Total.antt =====
-- The charge for one chat request, over the whole handler.
use llm_api_gateway.Chat.Charge.Outcome as Outcome
use llm_api_gateway.Prelude.{
  ℕ, ◌≡◌, refl, sym, subst, Bool, true, false, ◌||◌, String, str_eq, Option, none, some,
  if◌then◌else◌,
}
use llm_api_gateway.Types.{ChatRequest, ChatResponse}
use llm_api_gateway.Provider.{Failure}
use llm_api_gateway.Ratelimit.Backend.{Backend}
use llm_api_gateway.Budget.Script.{Commands}
use llm_api_gateway.Budget.Manager.{answers, World}
use llm_api_gateway.Dispatch.{Circuits, Reply}
use llm_api_gateway.Chat.{decoded, Call, Caches, Handler, Answer}
use llm_api_gateway.Chat.Serve.{
  Keys, Gateway, is_nil, Looked, look_up, found_exact, found_semantic, after_look, after_limit,
  serve_decoded, serve, serve_http,
}
use llm_api_gateway.Chat.Charge.{Holds, reserve_chat_budget-Claims, same-Holds}

module _ {F V D : Type 0} (r : Commands) (sha256_hex : String → String)
    (path_match : String → String → Option Bool) (b : Backend) (c : Caches D) (keys : Keys F V)
    (encode : ChatResponse → D)
    (dispatched : ChatRequest F V → Circuits → Circuits × Reply Failure ChatResponse)
    (opened : ChatRequest F V → Circuits → Circuits × Reply Failure Unit)
    (is_known : ChatRequest F V → Bool) (now : ℕ) (month : String) (h : Handler)
    (q : Call F V) where
  abbrev State : Type 0
  State = Gateway r sha256_hex path_match b c keys encode dispatched opened is_known

  abbrev tenant : String
  tenant = q.http.inner.tenant_header

  abbrev pub IsCharged : ChatRequest F V → World r sha256_hex → State × Answer D → Type 0
  IsCharged req m x =
      Outcome.IsCharged r sha256_hex path_match b c keys encode dispatched opened is_known now month
        h q req m x

  abbrev IsFree : Answer D → Type 0
  IsFree a =
      Outcome.IsFree r sha256_hex path_match b c keys encode dispatched opened is_known now month h
        q a

  -- What a lookup finds.
  abbrev IsFound : Option (Answer D) → Type 0
  IsFound none = Unit
  IsFound (some a) = IsFree a

  if-IsFound :
      (t : Bool) (x y : Looked r sha256_hex path_match b c keys encode dispatched opened is_known)
      → IsFound x.found
      → IsFound y.found
      → IsFound (if t then x else y).found
  if-IsFound true x y h k = h
  if-IsFound false x y h k = k

  found_semantic-IsFound :
      (slot : String × ℕ) (got : c.State × Option D)
      → IsFound
          (found_semantic r sha256_hex path_match b c keys encode dispatched opened is_known slot
            got).found
  unfolding found_semantic
  found_semantic-IsFound slot (s, some d) = tt
  found_semantic-IsFound slot (s, none) = tt

  semantic-IsFound :
      (slot : String × ℕ) (s : c.State) (t : Bool) (got : c.State × Option D)
      → IsFound
          (if t
            then found_semantic r sha256_hex path_match b c keys encode dispatched opened is_known
                slot got
            else record { state = s; slot = some slot; found = none }).found
  semantic-IsFound slot s t got = if-IsFound t _ _ (found_semantic-IsFound slot got) tt

  module _ (req : ChatRequest F V) where
    same-account : (m : World r sha256_hex) → Holds r sha256_hex path_match tenant month m 0 0 m
    same-account m = same-Holds r sha256_hex path_match tenant month m m refl

    after_look-IsCharged :
        (g : State) (slot : Option (String × ℕ)) (found : Option (Answer D))
        → g.budget.active ≡ false
        → IsFound found
        → IsCharged req g.budget (
            after_look r sha256_hex path_match b c keys encode dispatched opened is_known now
              answers answers month h q req g slot found)
    unfolding after_look
    after_look-IsCharged g slot (some a) off f =
        Outcome.free-IsCharged r sha256_hex path_match b c keys encode dispatched opened is_known
          now month h q req g.budget g a f (same-account g.budget)
    after_look-IsCharged g slot none off f =
        Outcome.after_claim-IsCharged r sha256_hex path_match b c keys encode dispatched opened
          is_known now month h q req g.budget _ slot _
          (reserve_chat_budget-Claims r sha256_hex path_match tenant month h.budgeted req g.budget
            off)

    found_exact-IsFound :
        (slot : String × ℕ) (namespace query : String) (got : c.State × Option D)
        → IsFound
            (found_exact r sha256_hex path_match b c keys encode dispatched opened is_known now slot
              namespace query got).found
    unfolding found_exact
    found_exact-IsFound slot namespace query (s, some d) = tt
    found_exact-IsFound slot namespace query (s, none) =
        semantic-IsFound slot s c.is_semantic (c.lookup now namespace query s)

    look_up-IsFound :
        (ttl : Option ℕ) (s : c.State)
        → IsFound
            (look_up r sha256_hex path_match b c keys encode dispatched opened is_known now ttl q
              req s).found
    unfolding look_up
    look_up-IsFound none s = tt
    look_up-IsFound (some ttl) s =
        if-IsFound (req.stream || q.cache_skip) _ _ tt (found_exact-IsFound _ _ _ _)

    after_limit-IsCharged :
        (g : State) (refusal : Option ℕ)
        → g.budget.active ≡ false
        → IsCharged req g.budget (
            after_limit r sha256_hex path_match b c keys encode dispatched opened is_known now
              answers answers month h q req g refusal)
    unfolding after_limit Outcome.charge
    after_limit-IsCharged g (some seconds) off = same-account g.budget
    after_limit-IsCharged g none off =
        after_look-IsCharged _ _ _ off (look_up-IsFound h.cache_ttl g.cache)

    serve_decoded-IsCharged :
        (g : State)
        → g.budget.active ≡ false
        → IsCharged req g.budget (
            serve_decoded r sha256_hex path_match b c keys encode dispatched opened is_known now
              answers answers month h q req g)
    unfolding serve_decoded Outcome.charge
    serve_decoded-IsCharged g off =
        Outcome.if-IsCharged r sha256_hex path_match b c keys encode dispatched opened is_known now
          month h q req g.budget (str_eq req.model "") _ _ (same-account g.budget)
          (Outcome.if-IsCharged r sha256_hex path_match b c keys encode dispatched opened is_known
            now month h q req g.budget (is_nil req.messages) _ _ (same-account g.budget)
            (after_limit-IsCharged _ _ off))

    -- With the accounts in memory, after a chat request the account of its tenant in the month holds
    -- exactly the charge for its answer more than before: the tokens and the price of the response
    -- of a provider, or the estimate for a stream that was opened, if the budget applies to the tenant;
    -- and nothing for every other outcome, such as a cached answer, a refusal by the token limit or the budget, a stream
    -- that could not be opened, or a dispatch that failed.
    pub serve_http-IsCharged :
        (g : State)
        → q.body ≡ decoded req
        → g.budget.active ≡ false
        → IsCharged req g.budget (
            serve_http r sha256_hex path_match b c keys encode dispatched opened is_known now
              answers answers month h q g)
    unfolding serve_http serve
    serve_http-IsCharged g e off =
        subst
          (λ x. IsCharged req g.budget (
            serve r sha256_hex path_match b c keys encode dispatched opened is_known now answers
              answers month h q x g))
          (sym e) (serve_decoded-IsCharged g off)
