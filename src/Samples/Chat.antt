-- ===== src/Samples/Chat.antt =====
-- A chat request that the whole handler serves: a provider answers after another has failed.
use llm_api_gateway.Prelude.{
  ℕ, ◌≡◌, refl, Bool, true, false, pos, String, str_eq, Option, none, some, List, [], ◌∷◌, ◌++◌,
  if◌then◌else◌, arith, ◌<◌,
}
use llm_api_gateway.Types.{ChatMessage, ChatRequest, ChatResponse, absent, text_of}
use llm_api_gateway.Provider.{Failure, ProviderError, provider_error}
use llm_api_gateway.Resilience.Hedge as Hedge
use llm_api_gateway.Router.{Provider}
use llm_api_gateway.Ratelimit.Limiter as Limiter
use llm_api_gateway.Ratelimit.Limiter.{estimate_tokens}
use llm_api_gateway.Ratelimit.Override.{OverrideStore, resolve}
use llm_api_gateway.Ratelimit.Backend.{local_backend}
use llm_api_gateway.Budget.Manager.{answers}
use llm_api_gateway.Chat.{Call, Caches, Handler, decoded, chat_prompt_tokens, chars_of}
use llm_api_gateway.Chat.Serve.{Keys, Gateway, serve_http, is_nil}
use llm_api_gateway.Chat.Upstream.{Upstream, dispatched_by, opened_by, is_known_by}
use llm_api_gateway.Chat.Charge.Total.{IsCharged, serve_http-IsCharged}
use llm_api_gateway.Chat.Reach.{IsLimited, serve_http-IsLimited}
use llm_api_gateway.Chat.Stream.{
  Event, Frame, chunk, chunks_closed, errors_closed, handle_stream, first_frame, Ending,
  handle_stream-Ending,
}
use llm_api_gateway.Samples.Auth.{request as http_request}
use llm_api_gateway.Samples.Budget.{commands, plain, manager}
use llm_api_gateway.Samples.Dispatch.{registry, circuits, clock}
use llm_api_gateway.Samples.Router.{literal, first_draw}

abbrev hello : ChatMessage
hello = record {
  role = "user";
  content = "Hello, how are you today?";
  content_parts = [];
  tool_call_id = "";
  tool_calls = [];
}

abbrev chat_request : ChatRequest ℕ Bool
chat_request = record {
  model = "gpt";
  messages = hello ∷ [];
  temperature = none;
  max_tokens = some (pos 20);
  max_completion_tokens = none;
  stream = false;
  tools = [];
  tool_choice = absent;
}

abbrev response : ChatResponse
response = record {
  id = "r1";
  object = "chat.completion";
  model = "claude";
  choices = [];
  usage = record { prompt_tokens = pos 8; completion_tokens = pos 12; total_tokens = pos 20 };
}

abbrev unavailable : ProviderError
unavailable = record {
  provider_name = "openai";
  status_code = 503;
  message = "";
  retryable = true;
  retry_after = pos 0;
}

abbrev send : ChatRequest ℕ Bool → ℕ → Provider → String → Hedge.Result Failure ChatResponse
send req i p model =
    if str_eq p.name "openai" then Hedge.err (provider_error unavailable) else Hedge.ok response

abbrev first_chunk : ChatRequest ℕ Bool → ℕ → Provider → String → Hedge.Result Failure Unit
first_chunk req i p model = Hedge.ok tt

abbrev upstream : Upstream ℕ Bool
upstream = record {
  lib = literal;
  rand = first_draw;
  registry = registry;
  chain = "anthropic" ∷ [];
  hedged = false;
  send = send;
  first_chunk = first_chunk;
  clock = clock;
  late = clock;
  race = λ req p q. [];
  hedge_clock = clock;
  hedge_late = 0;
}

-- A cache that keeps nothing.
abbrev pub no_entries : Caches String
no_entries = record {
  State = Unit;
  is_semantic = false;
  get = λ now key s. (s, none);
  set = λ now key d ttl s. s;
  lookup = λ now namespace query s. (s, none);
  set_semantic = λ now namespace query key d ttl s. s;
}

abbrev keys : Keys ℕ Bool
keys = record {
  key_for = λ req authorization. req.model;
  namespace_for = λ req authorization. req.model;
  query_of = λ req. req.model;
}

abbrev encode : ChatResponse → String
encode resp = resp.id

abbrev pub hash_zero : String → ℕ
hash_zero key = 0

abbrev pub no_match : String → String → Option Bool
no_match pattern s = none

abbrev call : Call ℕ Bool
call = record {
  http = record {
    inner = record http_request { tenant_header = "acme" };
    origin = "";
    remote_addr = "10.0.0.1";
    request_id = "req-1";
    body_model = some "gpt";
  };
  body = decoded chat_request;
  cache_skip = false;
  cache_ttl = none;
  can_flush = true;
}

-- The limit of tokens has the burst 5, which is less than the greeting.
abbrev overrides : OverrideStore
overrides = record { default_rpm = pos 60; default_burst = pos 5; overrides = [] }

abbrev handler : Handler
handler = record {
  overrides = some overrides;
  token_aware = false;
  cache_ttl = some 0;
  budgeted = true;
}

abbrev limited_handler : Handler
limited_handler = record handler { token_aware = true }

abbrev gateway :
    Gateway commands plain no_match
      (local_backend hash_zero)
      no_entries
      keys
      encode
      (dispatched_by upstream)
      (opened_by upstream)
      (is_known_by upstream)
gateway = record { limiter = Limiter.new 60 10; cache = tt; budget = manager; circuits = circuits }

serve_http-IsCharged_example :
    IsCharged commands plain no_match
      (local_backend hash_zero)
      no_entries
      keys
      encode
      (dispatched_by upstream)
      (opened_by upstream)
      (is_known_by upstream)
      0
      "2026-01"
      handler
      call
      chat_request
      manager
      (serve_http commands plain no_match
        (local_backend hash_zero)
        no_entries
        keys
        encode
        (dispatched_by upstream)
        (opened_by upstream)
        (is_known_by upstream)
        0
        answers
        answers
        "2026-01"
        handler
        call
        gateway)
serve_http-IsCharged_example =
    serve_http-IsCharged commands plain no_match (local_backend hash_zero) no_entries keys encode
      (dispatched_by upstream) (opened_by upstream) (is_known_by upstream) 0 "2026-01" handler call
      chat_request gateway refl refl

limit_of_acme : resolve no_match "acme" "gpt" overrides ≡ (pos 60, pos 5)
unfolding resolve
limit_of_acme = refl

hello_is_long : 5 < chat_prompt_tokens chat_request
unfolding chat_prompt_tokens chars_of estimate_tokens text_of
hello_is_long = omega arith

has_messages : is_nil chat_request.messages ≡ false
unfolding is_nil
has_messages = refl

serve_http-IsLimited_example :
    IsLimited commands plain no_match hash_zero no_entries keys encode
      (dispatched_by upstream)
      (opened_by upstream)
      (is_known_by upstream)
      0
      answers
      answers
      "2026-01"
      limited_handler
      call
      chat_request
      (serve_http commands plain no_match
        (local_backend hash_zero)
        no_entries
        keys
        encode
        (dispatched_by upstream)
        (opened_by upstream)
        (is_known_by upstream)
        0
        answers
        answers
        "2026-01"
        limited_handler
        call
        gateway).1
serve_http-IsLimited_example =
    serve_http-IsLimited commands plain no_match hash_zero no_entries keys encode
      (dispatched_by upstream) (opened_by upstream) (is_known_by upstream) 0 answers answers
      "2026-01" limited_handler call chat_request overrides 60 5 gateway refl refl has_messages refl
      refl limit_of_acme hello_is_long

abbrev events : List (Event String ℕ)
events = chunk "how" ∷ errors_closed ∷ chunk "are" ∷ chunks_closed ∷ []

handle_stream-Ending_example :
    (rest : List (Frame String ℕ)) × (handle_stream (some "Hello") events
      ≡ first_frame (some "Hello") ++ rest)
    × Ending events rest
handle_stream-Ending_example = handle_stream-Ending (some "Hello") events
