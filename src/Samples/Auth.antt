-- ===== src/Samples/Auth.antt =====
-- A store of one key and a request that uses it.
use llm_api_gateway.Prelude.{◌≡◌, refl, true, String, str_eq, lookup, insert, some, [], ◌∷◌}
use llm_api_gateway.Auth.{ApiKeyConfig, reload, skipped, authenticate, has_scope}
use llm_api_gateway.Auth.Middleware.{
  Request, Identity, Strings, Admitted, is_protected, handle, after_split, after_key, passed,
  required_scope, handle-Admitted,
}

abbrev pub plain : String → String
plain key = key

abbrev pub acme : ApiKeyConfig
acme = record { key = "secret"; tenant = "acme"; scopes = "chat:write" ∷ []; expires_at = some 100 }

-- Splits the one header of the example.
abbrev pub strings : Strings
strings = record {
  split_space = λ s. some ("Bearer", "secret");
  equal_fold = str_eq;
  trim_space = λ s. s;
}

abbrev pub request : Request
request = record {
  method = "POST";
  path = "/v1/chat/completions";
  authorization = "Bearer secret";
  tenant_header = "other";
}

abbrev identity : Identity
identity = record { tenant = "acme"; scopes = "chat:write" ∷ [] }

pub request_is_protected : is_protected request.path ≡ true
unfolding is_protected
request_is_protected = refl

request_passed :
    handle strings plain 50 (reload plain (acme ∷ [])) request
    ≡ passed (record request { tenant_header = "acme" }) (some identity)
unfolding handle reload skipped authenticate lookup insert required_scope has_scope after_key
    after_split is_protected
request_passed = refl

handle-Admitted_example :
    Admitted strings plain 50
      (acme ∷ [])
      request
      (record request { tenant_header = "acme" })
      (some identity)
handle-Admitted_example =
    handle-Admitted strings plain 50 (acme ∷ []) request (record request { tenant_header = "acme" })
      (some identity) request_is_protected request_passed
