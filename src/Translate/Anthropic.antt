-- ===== src/Translate/Anthropic.antt =====
-- internal/translate/anthropic.go: requests in the format of the Messages API, and its responses.
pub mod RoundTrip
pub mod Response
use Prim.Native.String.{◌++◌ as append}
use llm_api_gateway.Prelude.{
  ℕ, ◌+◌, Bool, true, false, ◌||◌, ℤ, pos, pos_part, sub_ℕ, neg_part, String, str_eq, Option, none,
  some, List, [], ◌∷◌, ◌++◌, map, if◌then◌else◌,
}
use llm_api_gateway.Types.{
  Json, ToolCall, ChatMessage, Tool, ToolChoice, absent, word, object, other, ChatRequest,
  ChatResponse, text_of, effective_max_tokens,
}

abbrev pub default_max_tokens : ℤ
default_max_tokens = pos 4096

pub record AnthropicContentBlock (V : Type 0) : Type 0 where
  pub kind : String
  pub text : String
  pub id : String
  pub name : String
  pub input : Option V
  pub tool_use_id : String
  pub content : Option V

-- The field `content` of a message: a string or a list of blocks.
pub data Content (V : Type 0) : Type 0 where
  plain : String → Content V
  blocks : List (AnthropicContentBlock V) → Content V

pub record AnthropicMessage (V : Type 0) : Type 0 where
  pub role : String
  pub content : Content V

pub record AnthropicTool (V : Type 0) : Type 0 where
  pub name : String
  pub description : String
  pub input_schema : Option V

-- What `toAnthropicToolChoice` gives: a map with "type", and perhaps "name", or the value itself.
pub data NativeChoice (V : Type 0) : Type 0 where
  typed : String → NativeChoice V
  named : String → NativeChoice V
  same : ToolChoice V → NativeChoice V

pub record AnthropicRequest (F V : Type 0) : Type 0 where
  pub model : String
  pub max_tokens : ℤ
  pub system : String
  pub messages : List (AnthropicMessage V)
  pub temperature : Option F
  pub tools : List (AnthropicTool V)
  pub tool_choice : NativeChoice V

pub record AnthropicResponse (V : Type 0) : Type 0 where
  pub id : String
  pub model : String
  pub content : List (AnthropicContentBlock V)
  pub stop_reason : String
  pub input_tokens : ℤ
  pub output_tokens : ℤ

unfoldable pub to_anthropic_tool_choice : {V : Type 0} → ToolChoice V → NativeChoice V
to_anthropic_tool_choice absent = same absent
to_anthropic_tool_choice (word s) =
    if str_eq s "required"
    then typed "any"
    else if str_eq s "auto" || str_eq s "none"
    then typed s
    else same (word s)
to_anthropic_tool_choice (object v none) = same (object v none)
to_anthropic_tool_choice (object v (some name)) = named name
to_anthropic_tool_choice (other v) = same (other v)

unfoldable pub to_anthropic_tool : {V : Type 0} → Tool V → AnthropicTool V
to_anthropic_tool t = record {
  name = t.function.name;
  description = t.function.description;
  input_schema = t.function.parameters;
}

unfoldable pub to_anthropic_tools : {V : Type 0} → List (Tool V) → List (AnthropicTool V)
to_anthropic_tools ts = map to_anthropic_tool ts

-- The block of each kind; the other fields are empty.
unfoldable pub text_block : {V : Type 0} → String → AnthropicContentBlock V
text_block text = record {
  kind = "text";
  text = text;
  id = "";
  name = "";
  input = none;
  tool_use_id = "";
  content = none;
}

unfoldable pub tool_use : {V : Type 0} → String → String → Option V → AnthropicContentBlock V
tool_use id name input = record {
  kind = "tool_use";
  text = "";
  id = id;
  name = name;
  input = input;
  tool_use_id = "";
  content = none;
}

unfoldable pub tool_result : {V : Type 0} → String → V → AnthropicContentBlock V
tool_result tool_use_id content = record {
  kind = "tool_result";
  text = "";
  id = "";
  name = "";
  input = none;
  tool_use_id = tool_use_id;
  content = some content;
}

abbrev pub add_ℤ : ℤ → ℤ → ℤ
add_ℤ a b = sub_ℕ (pos_part a + pos_part b) (neg_part a + neg_part b)

module _ (j : Json) where
  open j use {V, of_string, empty_object, marshal, unmarshal}

  unfoldable pub decoded_or : String → Option (Option V) → Option V
  decoded_or arguments (some v) = v
  decoded_or arguments none = some (of_string arguments)

  unfoldable pub decode_tool_arguments : String → Option V
  unfolding decoded_or
  decode_tool_arguments arguments =
      if str_eq arguments "" then some empty_object else decoded_or arguments (unmarshal arguments)

  unfoldable pub use_of_call : ToolCall → AnthropicContentBlock V
  unfolding decode_tool_arguments tool_use
  use_of_call call =
      tool_use call.id call.function.name (decode_tool_arguments call.function.arguments)

  -- The blocks of a message with tool calls.
  unfoldable pub call_blocks : ChatMessage → List (AnthropicContentBlock V)
  unfolding use_of_call text_block
  call_blocks m =
      let calls = map use_of_call m.tool_calls in
      if str_eq (text_of m) "" then calls else text_block (text_of m) ∷ calls

  unfoldable pub plain_or_blocks : ChatMessage → List ToolCall → Content V
  unfolding call_blocks
  plain_or_blocks m [] = plain (text_of m)
  plain_or_blocks m (c ∷ cs) = blocks (call_blocks m)

  -- The body of the loop, for a message that is not a system message.
  unfoldable pub to_anthropic_message : ChatMessage → AnthropicMessage V
  unfolding plain_or_blocks tool_result
  to_anthropic_message m =
      if str_eq m.role "tool"
      then record {
        role = "user";
        content = blocks (tool_result m.tool_call_id (of_string (text_of m)) ∷ []);
      }
      else record { role = m.role; content = plain_or_blocks m m.tool_calls }

  -- The loop of `ToAnthropic`: the field `system` so far, and the messages.
  unfoldable pub message_loop : String → List ChatMessage → String × List (AnthropicMessage V)
  unfolding to_anthropic_message
  message_loop system [] = (system, [])
  message_loop system (m ∷ ms) =
      let skipped = message_loop (text_of m) ms in
      let rest = message_loop system ms in
      if str_eq m.role "system" then skipped else (rest.0, to_anthropic_message m ∷ rest.1)

  unfoldable pub to_anthropic : {F : Type 0} → ChatRequest F V → AnthropicRequest F V
  unfolding message_loop to_anthropic_tools to_anthropic_tool_choice
  to_anthropic r =
      let (system, messages) = message_loop "" r.messages in
      record {
        model = r.model;
        max_tokens = elim (effective_max_tokens r) [ some n ↦ n | none ↦ default_max_tokens ];
        system = system;
        messages = messages;
        temperature = r.temperature;
        tools = to_anthropic_tools r.tools;
        tool_choice = to_anthropic_tool_choice r.tool_choice;
      }
