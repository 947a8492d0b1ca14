-- ===== src/Types.antt =====
-- internal/types/types.go: the requests and responses of the API, with the fields that the
-- modelled code reads or writes. `V` is the type of the values that `encoding/json` decodes into `any`
-- (nil is `none`), and `F` the type of its floats.
use Prim.Native.String.{◌++◌ as append}
use llm_api_gateway.Prelude.{
  ℕ, Bool, ℤ, String, str_eq, Option, none, some, List, [], ◌∷◌, if◌then◌else◌,
}

-- What the code uses of `encoding/json`, and the values of Go that it makes. `unmarshal` gives
-- `some none` for the text "null".
pub record Json : Type 1 where
  pub V : Type 0
  pub of_string : String → V
  pub empty_object : V
  -- an object with one field, a string
  pub object_with : String → String → V
  pub marshal : V → Option String
  pub unmarshal : String → Option (Option V)

pub record ToolCallFunction : Type 0 where
  pub name : String
  pub arguments : String

-- The field `type` is called `kind`, here and below.
pub record ToolCall : Type 0 where
  pub id : String
  pub kind : String
  pub function : ToolCallFunction

pub record ContentPart : Type 0 where
  pub kind : String
  pub text : String

pub record ChatMessage : Type 0 where
  pub role : String
  pub content : String
  pub content_parts : List ContentPart
  pub tool_call_id : String
  pub tool_calls : List ToolCall

pub record ToolFunc (V : Type 0) : Type 0 where
  pub name : String
  pub description : String
  pub parameters : Option V

pub record Tool (V : Type 0) : Type 0 where
  pub kind : String
  pub function : ToolFunc V

-- The field `tool_choice`: nil, a string, an object with the string in its field "name" of its field
-- "function" if it has one, or another value.
pub data ToolChoice (V : Type 0) : Type 0 where
  absent : ToolChoice V
  word : String → ToolChoice V
  object : V → Option String → ToolChoice V
  other : V → ToolChoice V

pub record ChatRequest (F V : Type 0) : Type 0 where
  pub model : String
  pub messages : List ChatMessage
  pub temperature : Option F
  pub max_tokens : Option ℤ
  pub max_completion_tokens : Option ℤ
  pub stream : Bool
  pub tools : List (Tool V)
  pub tool_choice : ToolChoice V

pub record Usage : Type 0 where
  pub prompt_tokens : ℤ
  pub completion_tokens : ℤ
  pub total_tokens : ℤ

pub record Choice : Type 0 where
  pub index : ℕ
  pub message : ChatMessage
  pub finish_reason : String

pub record ChatResponse : Type 0 where
  pub id : String
  pub object : String
  pub model : String
  pub choices : List Choice
  pub usage : Usage

-- `strings.Join(parts, "")` of the texts that are not empty
unfoldable pub join_texts : List ContentPart → String
join_texts [] = ""
join_texts (p ∷ ps) =
    let rest = join_texts ps in if str_eq p.text "" then rest else append p.text rest

-- `Text`
unfoldable pub text_of : ChatMessage → String
unfolding join_texts
text_of m = if str_eq m.content "" then join_texts m.content_parts else m.content

unfoldable pub effective_max_tokens : {F V : Type 0} → ChatRequest F V → Option ℤ
effective_max_tokens r = elim r.max_completion_tokens [ some n ↦ some n | none ↦ r.max_tokens ]
