-- ===== src/Samples/Http.antt =====
-- A request that passes the handlers around the API.
use llm_api_gateway.Prelude.{ℕ, refl, Bool, true, String, Option, none, some, [], ◌∷◌}
use llm_api_gateway.Auth.{reload}
use llm_api_gateway.Ratelimit.Limiter as Limiter
use llm_api_gateway.Ratelimit.Backend.{local_backend}
use llm_api_gateway.Http.Middleware.{Request}
use llm_api_gateway.Http.Front.{Setup, Explained, front, front-Explained}
use llm_api_gateway.Samples.Auth.{plain, acme, strings, request, request_is_protected}

abbrev setup : Setup
setup = record {
  origins = "https://app" ∷ [];
  keys = some (reload plain (acme ∷ []));
  rate_limited = true;
  overrides = none;
}

abbrev chat_request : Request
chat_request = record {
  inner = request;
  origin = "https://app";
  remote_addr = "10.0.0.1";
  request_id = "";
  body_model = some "gpt";
}

abbrev hash_zero : String → ℕ
hash_zero key = 0

abbrev no_match : String → String → Option Bool
no_match pattern s = none

front-Explained_example :
    Explained
      (local_backend hash_zero)
      no_match
      plain
      strings
      plain
      setup
      50
      (acme ∷ [])
      chat_request
      (Limiter.new 60 10)
      (front
        (local_backend hash_zero)
        no_match
        plain
        strings
        plain
        setup
        50
        "req-1"
        chat_request
        (Limiter.new 60 10)).1
front-Explained_example =
    front-Explained (local_backend hash_zero) no_match plain strings plain setup 50 "req-1"
      (acme ∷ []) chat_request (Limiter.new 60 10) refl refl request_is_protected
