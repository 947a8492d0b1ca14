-- ===== src/Translate/Gemini/Response.antt =====
-- `FromGemini` of internal/translate/gemini.go.
use Prim.Native.String.{◌++◌ as append}
use llm_api_gateway.Prelude.{String, str_eq, Option, none, some, List, [], ◌∷◌, if◌then◌else◌}
use llm_api_gateway.Types.{Json, ToolCall, ChatResponse}
use llm_api_gateway.Translate.Gemini.{GeminiFunctionCall, GeminiPart, Candidate, GeminiResponse}

module _ (j : Json) where
  open j use {V, marshal}

  -- `marshal_any` is `json.Marshal` on the field `args`, of which nil is "null".
  unfoldable pub arguments_or : Option String → String
  arguments_or (some s) = s
  arguments_or none = "{}"

  unfoldable pub marshal_any : Option V → Option String
  marshal_any none = some "null"
  marshal_any (some v) = marshal v

  unfoldable pub call_of_function : GeminiFunctionCall V → ToolCall
  unfolding arguments_or marshal_any
  call_of_function f = record {
    id = f.name;
    kind = "function";
    function = record { name = f.name; arguments = arguments_or (marshal_any f.args) };
  }

  -- The loop of `FromGemini`.
  unfoldable pub text_of_parts : List (GeminiPart V) → String
  text_of_parts [] = ""
  text_of_parts (p ∷ ps) = append p.text (text_of_parts ps)

  unfoldable pub calls_of_parts : List (GeminiPart V) → List ToolCall
  unfolding call_of_function
  calls_of_parts [] = []
  calls_of_parts (p ∷ ps) =
      let rest = calls_of_parts ps in
      elim p.function_call [ some f ↦ call_of_function f ∷ rest | none ↦ rest ]

  unfoldable pub reason_of : String → List ToolCall → String
  reason_of reason [] = if str_eq reason "MAX_TOKENS" then "length" else "stop"
  reason_of reason (c ∷ cs) =
      if str_eq reason "MAX_TOKENS"
      then "length"
      else if str_eq reason "STOP"
      then "tool_calls"
      else "stop"

  -- The text, the calls and the finish reason of the first candidate.
  unfoldable pub first_answer : List (Candidate V) → String × (List ToolCall × String)
  unfolding text_of_parts calls_of_parts reason_of
  first_answer [] = ("", ([], "stop"))
  first_answer (c ∷ cs) =
      let calls = calls_of_parts c.content.parts in
      (text_of_parts c.content.parts, (calls, reason_of c.finish_reason calls))

  unfoldable pub from_gemini : String → GeminiResponse V → ChatResponse
  unfolding first_answer
  from_gemini model r =
      let (text, (calls, reason)) = first_answer r.candidates in
      record {
        id = "";
        object = "chat.completion";
        model = model;
        choices =
            record {
              index = 0;
              message = record {
                role = "assistant";
                content = text;
                content_parts = [];
                tool_call_id = "";
                tool_calls = calls;
              };
              finish_reason = reason;
            }
            ∷ [];
        usage = record {
          prompt_tokens = r.prompt_token_count;
          completion_tokens = r.candidates_token_count;
          total_tokens = r.total_token_count;
        };
      }
