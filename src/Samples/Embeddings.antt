-- ===== src/Samples/Embeddings.antt =====
-- An embedding request whose primary supports no embeddings, so that a fallback answers it.
use llm_api_gateway.Prelude.{
  ℕ, refl, Bool, true, false, pos, String, str_eq, Option, none, some, [], ◌∷◌,
}
use llm_api_gateway.Provider.{Failure, is_retryable}
use llm_api_gateway.Resilience.Hedge as Hedge
use llm_api_gateway.Router.{Provider}
use llm_api_gateway.Ratelimit.Limiter as Limiter
use llm_api_gateway.Ratelimit.Backend.{local_backend}
use llm_api_gateway.Budget.Manager.{answers}
use llm_api_gateway.Dispatch.{Circuits, Reply}
use llm_api_gateway.Chat.{Handler}
use llm_api_gateway.Embeddings.{
  EmbeddingRequest, EmbeddingResponse, EmbedError, text, dispatch_embedding,
}
use llm_api_gateway.Embeddings.Answer.{IsGiven, dispatch_embedding-IsGiven}
use llm_api_gateway.Embeddings.Serve.{Call, Gateway, decoded, serve_http}
use llm_api_gateway.Embeddings.Charge.{IsCharged, serve_embedding-IsCharged}
use llm_api_gateway.Samples.Auth.{request as http_request}
use llm_api_gateway.Samples.Budget.{commands, plain, manager}
use llm_api_gateway.Samples.Chat.{no_entries, hash_zero, no_match}
use llm_api_gateway.Samples.Dispatch.{registry, circuits, clock}
use llm_api_gateway.Samples.Router.{literal, first_draw}

abbrev embedding_request : EmbeddingRequest
embedding_request = record {
  model = "gpt";
  input = text "Hello, how are you today?";
  encoding_format = "";
  dimensions = none;
  user = "";
}

abbrev vectors : EmbeddingResponse ℕ
vectors = record {
  object = "list";
  data_list = 7 ∷ [];
  model = "claude";
  usage = record { prompt_tokens = pos 6; total_tokens = pos 6 };
}

abbrev embeds : Provider → Bool
embeds p = str_eq p.name "anthropic"

abbrev send_vectors : ℕ → Provider → String → Hedge.Result Failure (EmbeddingResponse ℕ)
send_vectors i p model = Hedge.ok vectors

dispatch_embedding-IsGiven_example :
    IsGiven is_retryable embeds literal first_draw registry send_vectors clock clock "gpt"
      ("anthropic" ∷ [])
      (dispatch_embedding is_retryable embeds literal first_draw registry send_vectors clock clock
        "gpt"
        ("anthropic" ∷ [])
        circuits).1
dispatch_embedding-IsGiven_example =
    dispatch_embedding-IsGiven is_retryable embeds literal first_draw registry send_vectors clock
      clock "gpt" ("anthropic" ∷ []) circuits

abbrev dispatched :
    EmbeddingRequest → Circuits → Circuits × Reply (EmbedError Failure) (EmbeddingResponse ℕ)
dispatched req c =
    dispatch_embedding is_retryable embeds literal first_draw registry send_vectors clock clock
      req.model ("anthropic" ∷ []) c

abbrev key_for : EmbeddingRequest → String → String
key_for req authorization = req.model

abbrev encode : EmbeddingResponse ℕ → Option String
encode resp = some resp.model

abbrev name_for : String → String
name_for model = "openai"

abbrev handler : Handler
handler = record { overrides = none; token_aware = false; cache_ttl = some 0; budgeted = true }

abbrev call : Call
call = record {
  http = record {
    inner = record http_request { tenant_header = "acme" };
    origin = "";
    remote_addr = "10.0.0.1";
    request_id = "req-1";
    body_model = some "gpt";
  };
  body = decoded embedding_request;
  cache_skip = false;
  cache_ttl = none;
}

abbrev gateway :
    Gateway commands plain no_match
      (local_backend hash_zero)
      no_entries
      key_for
      encode
      name_for
      dispatched
gateway = record { limiter = Limiter.new 60 10; cache = tt; budget = manager; circuits = circuits }

serve_embedding-IsCharged_example :
    IsCharged commands plain no_match
      (local_backend hash_zero)
      no_entries
      key_for
      encode
      name_for
      dispatched
      0
      "2026-01"
      handler
      call
      "gpt"
      manager
      (serve_http commands plain no_match
        (local_backend hash_zero)
        no_entries
        key_for
        encode
        name_for
        dispatched
        0
        answers
        answers
        "2026-01"
        handler
        call
        gateway)
serve_embedding-IsCharged_example =
    serve_embedding-IsCharged commands plain no_match (local_backend hash_zero) no_entries key_for
      encode name_for dispatched 0 "2026-01" handler call embedding_request gateway refl refl
