-- ===== src/Samples/Dispatch.antt =====
-- A request whose primary fails and whose fallback answers.
use mathlib.Core.List.{Memᴰ}
use llm_api_gateway.Prelude.{
  ℕ, ◌≡◌, refl, true, false, String, str_eq, eq_iff, lookup, some, List, [], ◌∷◌, if◌then◌else◌,
  arith,
}
use llm_api_gateway.Resilience.Breaker.{closed, default_circuit_config, new_breaker}
use llm_api_gateway.Resilience.Hedge as Hedge
use llm_api_gateway.Router.{Provider, Registry, get}
use llm_api_gateway.Router.Resolve.{resolve}
use llm_api_gateway.Dispatch.{Circuits, dispatch, open_stream}
use llm_api_gateway.Dispatch.Answer.{IsGiven, open_stream-IsGiven}
use llm_api_gateway.Dispatch.Healthy.{IsOk, IsHealthy, dispatch-healthy}
use llm_api_gateway.Samples.Router.{literal, first_draw, openai, anthropic}

abbrev pub registry : Registry
registry = record {
  by_name = ("openai", openai) ∷ ("anthropic", anthropic) ∷ [];
  by_model = ("gpt", openai) ∷ [];
  order = openai ∷ anthropic ∷ [];
  aliases = [];
  weighted = [];
  patterns = [];
}

-- The provider `openai` fails with the error 503, the other one answers with its name.
abbrev send : ℕ → Provider → String → Hedge.Result ℕ String
send i p model = if str_eq p.name "openai" then Hedge.err 503 else Hedge.ok p.name

abbrev no_race : Provider → Provider → List (Hedge.Event ℕ String)
no_race p q = []

abbrev pub clock : ℕ → ℕ
clock i = i

abbrev pub circuits : Circuits
circuits name = new_breaker default_circuit_config

resolved : resolve literal first_draw "gpt" registry ≡ some openai
unfolding resolve lookup
resolved = refl

named_as : (n : String) (q : Provider) → get n registry ≡ some q → q.name ≡ n
unfolding get lookup
named_as n q e = ground (arith, eq_iff "openai" n, eq_iff "anthropic" n)

anthropic-IsHealthy : IsHealthy (λ e. true) literal first_draw registry send clock clock anthropic
unfolding get lookup
anthropic-IsHealthy = record {
  registered = refl;
  named = named_as;
  answers = λ i model. ("anthropic", refl);
}

circuits_closed : (circuits "anthropic").state ≡ closed
unfolding new_breaker
circuits_closed = refl

dispatch-healthy_example :
    IsOk
      (dispatch
        (λ e. true)
        literal
        first_draw
        registry
        send
        clock
        clock
        no_race
        clock
        0
        false
        "gpt"
        ("anthropic" ∷ [])
        circuits).1
dispatch-healthy_example =
    dispatch-healthy (λ e. true) literal first_draw registry send clock clock anthropic no_race
      clock 0 "gpt" openai ("anthropic" ∷ []) circuits resolved (λ e f. refl) anthropic-IsHealthy
      refl (Memᴰ.head refl) circuits_closed

open_stream-IsGiven_example :
    IsGiven
      (λ e. true)
      literal
      first_draw
      registry
      send
      clock
      clock
      openai
      ("anthropic" ∷ [])
      (open_stream
        (λ e. true)
        literal
        first_draw
        registry
        send
        clock
        clock
        "gpt"
        openai
        ("anthropic" ∷ [])
        circuits).1
open_stream-IsGiven_example =
    open_stream-IsGiven (λ e. true) literal first_draw registry send clock clock "gpt" openai
      ("anthropic" ∷ []) circuits
