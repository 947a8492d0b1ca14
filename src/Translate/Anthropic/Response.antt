-- ===== src/Translate/Anthropic/Response.antt =====
-- `FromAnthropic` of internal/translate/anthropic.go.
use Prim.Native.String.{◌++◌ as append}
use llm_api_gateway.Prelude.{String, str_eq, Option, none, some, List, [], ◌∷◌, if◌then◌else◌}
use llm_api_gateway.Types.{Json, ToolCall, ChatResponse}
use llm_api_gateway.Translate.Anthropic.{AnthropicContentBlock, AnthropicResponse, add_ℤ}

module _ (j : Json) where
  open j use {V, marshal}

  unfoldable pub or_braces : Option String → String
  or_braces (some s) = s
  or_braces none = "{}"

  -- `arguments` of a "tool_use" block
  unfoldable pub arguments_of : Option V → String
  unfolding or_braces
  arguments_of none = "{}"
  arguments_of (some v) = or_braces (marshal v)

  unfoldable pub call_of_use : AnthropicContentBlock V → ToolCall
  unfolding arguments_of
  call_of_use b = record {
    id = b.id;
    kind = "function";
    function = record { name = b.name; arguments = arguments_of b.input };
  }

  -- The loop of `FromAnthropic`: the text and the calls of the blocks from here on.
  unfoldable pub text_of_blocks : List (AnthropicContentBlock V) → String
  text_of_blocks [] = ""
  text_of_blocks (b ∷ bs) =
      let rest = text_of_blocks bs in if str_eq b.kind "text" then append b.text rest else rest

  unfoldable pub calls_of_blocks : List (AnthropicContentBlock V) → List ToolCall
  unfolding call_of_use
  calls_of_blocks [] = []
  calls_of_blocks (b ∷ bs) =
      let rest = calls_of_blocks bs in
      if str_eq b.kind "tool_use" then call_of_use b ∷ rest else rest

  unfoldable pub finish_reason_of : String → String
  finish_reason_of reason =
      if str_eq reason "max_tokens"
      then "length"
      else if str_eq reason "tool_use"
      then "tool_calls"
      else "stop"

  unfoldable pub from_anthropic : AnthropicResponse V → ChatResponse
  unfolding text_of_blocks calls_of_blocks finish_reason_of
  from_anthropic r = record {
    id = r.id;
    object = "chat.completion";
    model = r.model;
    choices =
        record {
          index = 0;
          message = record {
            role = "assistant";
            content = text_of_blocks r.content;
            content_parts = [];
            tool_call_id = "";
            tool_calls = calls_of_blocks r.content;
          };
          finish_reason = finish_reason_of r.stop_reason;
        }
        ∷ [];
    usage = record {
      prompt_tokens = r.input_tokens;
      completion_tokens = r.output_tokens;
      total_tokens = add_ℤ r.input_tokens r.output_tokens;
    };
  }
