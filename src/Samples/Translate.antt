-- ===== src/Samples/Translate.antt =====
-- A response with a tool call, and a conversation that uses it.
use llm_api_gateway.Prelude.{
  ℕ, ◌≡◌, refl, Bool, true, false, pos, String, str_eq, Option, none, some, [], ◌∷◌, map, inl, inr,
  if◌then◌else◌,
}
use llm_api_gateway.Types.{Json, ChatMessage, ChatRequest, Choice, absent}
use llm_api_gateway.Translate.Anthropic.{
  AnthropicResponse, text_block, tool_use, to_anthropic, to_anthropic_message,
}
use llm_api_gateway.Translate.Anthropic.Response.{from_anthropic, text_of_blocks}
use llm_api_gateway.Translate.Anthropic.RoundTrip.{
  conversation, last_system, uses, resent, IsFaithful, to_anthropic-conversation,
  to_anthropic-from_anthropic,
}
use llm_api_gateway.Translate.Gemini.{to_gemini}
use llm_api_gateway.Translate.Gemini.Conversation.{AllSent, to_gemini-AllSent}

abbrev marshal_bool : Bool → Option String
marshal_bool true = some "true"
marshal_bool false = some "false"

abbrev unmarshal_bool : String → Option (Option Bool)
unmarshal_bool s =
    if str_eq s "true"
    then some (some true)
    else if str_eq s "false"
    then some (some false)
    else none

-- Truth values as the JSON values.
abbrev bools : Json
bools = record {
  V = Bool;
  of_string = λ s. true;
  empty_object = true;
  object_with = λ key s. true;
  marshal = marshal_bool;
  unmarshal = unmarshal_bool;
}

bools-IsFaithful : IsFaithful bools
bools-IsFaithful true = ("true", refl, refl, refl)
bools-IsFaithful false = ("false", refl, refl, refl)

abbrev response : AnthropicResponse Bool
response = record {
  id = "msg_1";
  model = "claude";
  content = text_block "Let me look." ∷ tool_use "toolu_1" "look_up" (some false) ∷ [];
  stop_reason = "tool_use";
  input_tokens = pos 10;
  output_tokens = pos 20;
}

text_block-kind : str_eq (text_block {V = Bool} "Let me look.").kind "tool_use" ≡ false
unfolding text_block
text_block-kind = refl

to_anthropic-from_anthropic_example :
    map
      (λ (c : Choice). (to_anthropic_message bools c.message).content)
      (from_anthropic bools response).choices
    ≡ resent bools (text_of_blocks bools response.content) (uses response.content) ∷ []
to_anthropic-from_anthropic_example =
    to_anthropic-from_anthropic bools response bools-IsFaithful
      (inl text_block-kind, (inr ("toolu_1", "look_up", false, refl), tt))

abbrev says : String → String → ChatMessage
says role content = record {
  role = role;
  content = content;
  content_parts = [];
  tool_call_id = "";
  tool_calls = [];
}

abbrev request : ChatRequest ℕ Bool
request = record {
  model = "claude";
  messages =
      says "system" "Be brief."
      ∷ says "user" "Hello"
      ∷ says "system" "Be polite."
      ∷ (record (says "assistant" "") {
        tool_calls =
            record {
              id = "c1";
              kind = "function";
              function = record { name = "look_up"; arguments = "true" };
            }
            ∷ [];
      })
      ∷ (record (says "tool" "42") { tool_call_id = "c1" })
      ∷ [];
  temperature = none;
  max_tokens = none;
  max_completion_tokens = none;
  stream = false;
  tools = [];
  tool_choice = absent;
}

to_anthropic-conversation_example :
    ((to_anthropic bools request).messages
      ≡ map (to_anthropic_message bools) (conversation request.messages))
    × ((to_anthropic bools request).system ≡ last_system "" request.messages)
to_anthropic-conversation_example = to_anthropic-conversation bools request

to_gemini-AllSent_example :
    AllSent bools request.messages
      (conversation request.messages)
      (to_gemini bools request).contents
to_gemini-AllSent_example = to_gemini-AllSent bools request
