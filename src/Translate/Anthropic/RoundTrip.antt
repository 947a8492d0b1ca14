-- ===== src/Translate/Anthropic/RoundTrip.antt =====
-- What a conversation keeps on the way to Anthropic and back.
use llm_api_gateway.Prelude.{
  ◌≡◌, refl, ap, ◌∙◌, sym, subst, false, String, str_eq, eq_iff, some, List, [], ◌∷◌, ◌++◌, map,
  All, Bool-cases, inl, inr, ◌⊎◌, arith, if◌then◌else◌,
}
use llm_api_gateway.Types.{Json, ToolCall, ChatMessage, ChatRequest, Choice, text_of, join_texts}
use llm_api_gateway.Translate.Anthropic.{
  AnthropicContentBlock, AnthropicResponse, Content, plain, blocks, text_block, tool_use,
  decoded_or, decode_tool_arguments, use_of_call, call_blocks, plain_or_blocks,
  to_anthropic_message, message_loop, to_anthropic,
}
use llm_api_gateway.Translate.Anthropic.Response.{
  or_braces, arguments_of, call_of_use, text_of_blocks, calls_of_blocks, from_anthropic,
}

-- The messages that are not system messages, in order.
unfoldable pub conversation : List ChatMessage → List ChatMessage
conversation [] = []
conversation (m ∷ ms) =
    let rest = conversation ms in if str_eq m.role "system" then rest else m ∷ rest

-- The text of the last system message, or `s` if there is none.
unfoldable pub last_system : String → List ChatMessage → String
last_system s [] = s
last_system s (m ∷ ms) =
    let here = last_system (text_of m) ms in
    let rest = last_system s ms in if str_eq m.role "system" then here else rest

-- The blocks of tool calls, in order.
unfoldable pub uses : {V : Type 0} → List (AnthropicContentBlock V) → List (AnthropicContentBlock V)
uses [] = []
uses (b ∷ bs) = let rest = uses bs in if str_eq b.kind "tool_use" then b ∷ rest else rest

module _ (j : Json) where
  open j use {V, marshal, unmarshal}

  message_loop-conversation :
      (s : String) (ms : List ChatMessage)
      → message_loop j s ms ≡ (last_system s ms, map (to_anthropic_message j) (conversation ms))
  unfolding message_loop conversation last_system
  message_loop-conversation s [] = refl
  message_loop-conversation s (m ∷ ms) = elim (Bool-cases (str_eq m.role "system")) [
    | inl q ↦ rw q (message_loop-conversation (text_of m) ms)
    | inr q ↦ rw (q, message_loop-conversation s ms) refl
  ]

  -- The request to Anthropic has every message but the system messages, translated one by one, in
  -- their order; its system prompt is the text of the last system message, so that of several
  -- system messages only the last one is sent.
  pub to_anthropic-conversation :
      {F : Type 0} (r : ChatRequest F V)
      → ((to_anthropic j r).messages ≡ map (to_anthropic_message j) (conversation r.messages))
        × ((to_anthropic j r).system ≡ last_system "" r.messages)
  unfolding to_anthropic
  to_anthropic-conversation r = rw (message_loop-conversation "" r.messages) (refl, refl)

  -- Decoding what was encoded gives the value back, and an encoding is not empty.
  abbrev pub IsFaithful : Type 0
  IsFaithful =
      (v : V)
      → (s : String) × (marshal v ≡ some s) × (str_eq s "" ≡ false) × (unmarshal s ≡ some (some v))

  -- A block that is no tool call, or one with an input and only the fields of a tool call.
  abbrev pub IsCanonical : AnthropicContentBlock V → Type 0
  IsCanonical b =
      (str_eq b.kind "tool_use" ≡ false)
      ⊎ ((id : String) × (name : String) × (v : V) × (b ≡ tool_use id name (some v)))

  decode_arguments_of :
      (v : V) → IsFaithful → decode_tool_arguments j (arguments_of j (some v)) ≡ some v
  unfolding decode_tool_arguments arguments_of decoded_or or_braces
  decode_arguments_of v f = let (s, m, n, u) = f v in rw (m, n, u) refl

  use_of_call-call_of_use :
      (id name : String) (v : V)
      → IsFaithful
      → use_of_call j (call_of_use j (tool_use id name (some v))) ≡ tool_use id name (some v)
  unfolding use_of_call call_of_use tool_use
  use_of_call-call_of_use id name v f = ap (tool_use id name) (decode_arguments_of v f)

  use-uses :
      (id name : String) (v : V) (bs : List (AnthropicContentBlock V))
      → IsFaithful
      → map (use_of_call j) (calls_of_blocks j bs) ≡ uses bs
      → let b = tool_use id name (some v) in
        map (use_of_call j) (calls_of_blocks j (b ∷ bs)) ≡ uses (b ∷ bs)
  unfolding calls_of_blocks uses tool_use
  use-uses id name v bs f h = rw (h, use_of_call-call_of_use id name v f) refl

  calls-uses :
      (bs : List (AnthropicContentBlock V))
      → IsFaithful
      → All IsCanonical bs
      → map (use_of_call j) (calls_of_blocks j bs) ≡ uses bs
  unfolding calls_of_blocks uses
  calls-uses [] f h = refl
  calls-uses (b ∷ bs) f (inl n, hs) = rw n (calls-uses bs f hs)
  calls-uses (b ∷ bs) f (inr (id, name, v, e), hs) =
      subst (λ x. map (use_of_call j) (calls_of_blocks j (x ∷ bs)) ≡ uses (x ∷ bs)) (sym e)
        (use-uses id name v bs f (calls-uses bs f hs))

  -- The message of the first choice of a response.
  abbrev pub answer_of : AnthropicResponse V → ChatMessage
  answer_of r = record {
    role = "assistant";
    content = text_of_blocks j r.content;
    content_parts = [];
    tool_call_id = "";
    tool_calls = calls_of_blocks j r.content;
  }

  -- The text before the tool calls, if there is any.
  unfoldable pub text_first : String → List (AnthropicContentBlock V)
  text_first text = if str_eq text "" then [] else text_block text ∷ []

  -- What is sent of a text and tool calls: the text alone, or blocks.
  unfoldable pub resent : String → List (AnthropicContentBlock V) → Content V
  unfolding text_first
  resent text [] = plain text
  resent text (u ∷ us) = blocks (text_first text ++ u ∷ us)

  text_of-answer_of : (r : AnthropicResponse V) → text_of (answer_of r) ≡ text_of_blocks j r.content
  unfolding text_of join_texts
  text_of-answer_of r = ground (arith, eq_iff (text_of_blocks j r.content) "")

  plain_or_blocks-resent :
      (m : ChatMessage) (cs : List ToolCall)
      → m.tool_calls ≡ cs
      → plain_or_blocks j m cs ≡ resent (text_of m) (map (use_of_call j) cs)
  unfolding plain_or_blocks resent call_blocks text_first text_of
  plain_or_blocks-resent m [] e = refl
  plain_or_blocks-resent m (c ∷ cs) e =
      rw e (elim (Bool-cases (str_eq (text_of m) "")) [ inl q ↦ rw q refl | inr q ↦ rw q refl ])

  -- A response of Anthropic whose tool calls have inputs, turned into the gateway's format and sent
  -- back as a message of the next request, gives the tool-call blocks of the response again, in
  -- order, with the same ids, names and inputs, after one block with its whole text; without tool
  -- calls it gives the text. JSON values are decoded to what was encoded.
  pub to_anthropic-from_anthropic :
      (r : AnthropicResponse V)
      → IsFaithful
      → All IsCanonical r.content
      → map
          (λ (c : Choice). (to_anthropic_message j c.message).content)
          (from_anthropic j r).choices
        ≡ resent (text_of_blocks j r.content) (uses r.content) ∷ []
  unfolding from_anthropic to_anthropic_message
  to_anthropic-from_anthropic r f h =
      ap (λ c. c ∷ [])
        (plain_or_blocks-resent (answer_of r) _ refl
          ∙ rw (text_of-answer_of r, calls-uses r.content f h) refl)
