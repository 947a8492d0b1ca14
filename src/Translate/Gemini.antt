-- ===== src/Translate/Gemini.antt =====
-- internal/translate/gemini.go: requests in the format of generateContent and embedContent, and
-- their responses.
pub mod Parts
pub mod Conversation
pub mod Response
use Prim.Native.String.{◌++◌ as append}
use llm_api_gateway.Prelude.{
  ℕ, ◌+◌, Bool, true, false, ◌&&◌, ℤ, String, str_eq, Option, none, some, List, [], ◌∷◌, ◌++◌, map,
  Dict, lookup, insert, if◌then◌else◌,
}
use llm_api_gateway.Types.{
  Json, ToolCall, ChatMessage, Tool, ToolChoice, absent, word, object, other, ChatRequest,
  ChatResponse, text_of, effective_max_tokens,
}

pub record GeminiFunctionCall (V : Type 0) : Type 0 where
  pub name : String
  pub args : Option V

pub record GeminiFunctionResponse (V : Type 0) : Type 0 where
  pub name : String
  pub response : V

pub record GeminiPart (V : Type 0) : Type 0 where
  pub text : String
  pub function_call : Option (GeminiFunctionCall V)
  pub function_response : Option (GeminiFunctionResponse V)

pub record GeminiContent (V : Type 0) : Type 0 where
  pub role : String
  pub parts : List (GeminiPart V)

pub record GeminiFunctionDeclaration (V : Type 0) : Type 0 where
  pub name : String
  pub description : String
  pub parameters : Option V

-- `GeminiTool` has the one field `functionDeclarations`.
pub record GeminiFunctionCallingConfig : Type 0 where
  pub mode : String
  pub allowed_function_names : List String

pub record GeminiRequest (F V : Type 0) : Type 0 where
  pub contents : List (GeminiContent V)
  pub system_instruction : Option (GeminiContent V)
  pub temperature : Option F
  pub max_output_tokens : Option ℤ
  pub tools : List (List (GeminiFunctionDeclaration V))
  pub tool_config : Option GeminiFunctionCallingConfig

pub record Candidate (V : Type 0) : Type 0 where
  pub content : GeminiContent V
  pub finish_reason : String

pub record GeminiResponse (V : Type 0) : Type 0 where
  pub candidates : List (Candidate V)
  pub prompt_token_count : ℤ
  pub candidates_token_count : ℤ
  pub total_token_count : ℤ

unfoldable pub declaration_of : {V : Type 0} → Tool V → GeminiFunctionDeclaration V
declaration_of t = record {
  name = t.function.name;
  description = t.function.description;
  parameters = t.function.parameters;
}

unfoldable pub to_gemini_tools :
    {V : Type 0} → List (Tool V) → List (List (GeminiFunctionDeclaration V))
unfolding declaration_of
to_gemini_tools [] = []
to_gemini_tools (t ∷ ts) = map declaration_of (t ∷ ts) ∷ []

unfoldable pub mode_of : String → String
mode_of s = if str_eq s "none" then "NONE" else if str_eq s "required" then "ANY" else "AUTO"

unfoldable pub to_gemini_tool_config :
    {V : Type 0} → ToolChoice V → Option GeminiFunctionCallingConfig
unfolding mode_of
to_gemini_tool_config absent = none
to_gemini_tool_config (word s) = some (record { mode = mode_of s; allowed_function_names = [] })
to_gemini_tool_config (object v none) = some (record { mode = "ANY"; allowed_function_names = [] })
to_gemini_tool_config (object v (some name)) =
    some (record { mode = "ANY"; allowed_function_names = name ∷ [] })
to_gemini_tool_config (other v) = none

unfoldable pub text_part : {V : Type 0} → String → GeminiPart V
text_part text = record { text = text; function_call = none; function_response = none }

unfoldable pub call_part : {V : Type 0} → String → Option V → GeminiPart V
call_part name args = record {
  text = "";
  function_call = some (record { name = name; args = args });
  function_response = none;
}

unfoldable pub response_part : {V : Type 0} → String → V → GeminiPart V
response_part name response = record {
  text = "";
  function_call = none;
  function_response = some (record { name = name; response = response });
}

-- `toolNames`: the function of each call, by the id of the call.
unfoldable pub add_names : List ToolCall → Dict String → Dict String
add_names [] names = names
add_names (c ∷ cs) names = add_names cs (insert c.id c.function.name names)

unfoldable pub tool_names : List ChatMessage → Dict String → Dict String
unfolding add_names
tool_names [] names = names
tool_names (m ∷ ms) names = tool_names ms (add_names m.tool_calls names)

-- The name that is mapped, unless there is none or it is empty.
unfoldable pub mapped_or : String → Option String → String
mapped_or id none = id
mapped_or id (some name) = if str_eq name "" then id else name

unfoldable pub role_of : String → String
role_of role = if str_eq role "assistant" then "model" else "user"

unfoldable pub or_blank : {V : Type 0} → List (GeminiPart V) → List (GeminiPart V)
unfolding text_part
or_blank [] = text_part "" ∷ []
or_blank (p ∷ ps) = p ∷ ps

module _ (j : Json) where
  open j use {V, empty_object, object_with, marshal, unmarshal}

  unfoldable pub decoded_or_raw : String → Option (Option V) → Option V
  decoded_or_raw arguments (some v) = v
  decoded_or_raw arguments none = some (object_with "raw" arguments)

  unfoldable pub decode_gemini_arguments : String → Option V
  unfolding decoded_or_raw
  decode_gemini_arguments arguments =
      if str_eq arguments ""
      then some empty_object
      else decoded_or_raw arguments (unmarshal arguments)

  unfoldable pub part_of_call : ToolCall → GeminiPart V
  unfolding call_part decode_gemini_arguments
  part_of_call c = call_part c.function.name (decode_gemini_arguments c.function.arguments)

  unfoldable pub message_parts : ChatMessage → List (GeminiPart V)
  unfolding text_part part_of_call
  message_parts m =
      let calls = map part_of_call m.tool_calls in
      if str_eq (text_of m) "" then calls else text_part (text_of m) ∷ calls

  -- The body of the loop, for a message that is not a system message.
  unfoldable pub to_gemini_content : Dict String → ChatMessage → GeminiContent V
  unfolding message_parts response_part mapped_or or_blank role_of
  to_gemini_content names m =
      if str_eq m.role "tool"
      then record {
        role = "user";
        parts =
            response_part (mapped_or m.tool_call_id (lookup m.tool_call_id names))
              (object_with "content" (text_of m))
            ∷ [];
      }
      else record { role = role_of m.role; parts = or_blank (message_parts m) }

  -- The loop of `ToGemini`: the system instruction so far, and the contents.
  unfoldable pub content_loop :
      Dict String
      → Option (GeminiContent V)
      → List ChatMessage
      → Option (GeminiContent V) × List (GeminiContent V)
  unfolding to_gemini_content text_part
  content_loop names system [] = (system, [])
  content_loop names system (m ∷ ms) =
      let instruction : GeminiContent V = record {
        role = "";
        parts = text_part (text_of m) ∷ [];
      } in
      let skipped = content_loop names (some instruction) ms in
      let rest = content_loop names system ms in
      if str_eq m.role "system" then skipped else (rest.0, to_gemini_content names m ∷ rest.1)

  unfoldable pub to_gemini : {F : Type 0} → ChatRequest F V → GeminiRequest F V
  unfolding content_loop tool_names to_gemini_tools to_gemini_tool_config
  to_gemini r =
      let (system, contents) = content_loop (tool_names r.messages []) none r.messages in
      record {
        contents = contents;
        system_instruction = system;
        temperature = r.temperature;
        max_output_tokens = effective_max_tokens r;
        tools = to_gemini_tools r.tools;
        tool_config = to_gemini_tool_config r.tool_choice;
      }

  -- `ToGeminiEmbedding`: the content of the request.
  unfoldable pub to_gemini_embedding : String → GeminiContent V
  unfolding text_part
  to_gemini_embedding input = record { role = ""; parts = text_part input ∷ [] }
