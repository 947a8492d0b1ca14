-- ===== src/Translate/Gemini/Conversation.antt =====
-- What Gemini is sent of a conversation.
use llm_api_gateway.Prelude.{
  Bool, ◌≡◌, ◌≢◌, refl, eq_iff, true, false, String, str_eq, Option, none, some, List, [], ◌∷◌,
  ◌++◌, map, Bool-cases, inl, inr, ◌⊎◌, arith, if◌then◌else◌, Dict, lookup, insert, lookup-insert,
}
use llm_api_gateway.Types.{Json, ToolCall, ChatMessage, ChatRequest, text_of}
use llm_api_gateway.Translate.Anthropic.RoundTrip.{conversation}
use llm_api_gateway.Translate.Gemini.{
  GeminiContent, add_names, tool_names, mapped_or, to_gemini_content, content_loop, to_gemini,
  response_part,
}
use llm_api_gateway.Translate.Gemini.Parts.{IsSpoken, spoken}

-- The calls of all messages, in order.
unfoldable pub all_calls : List ChatMessage → List ToolCall
all_calls [] = []
all_calls (m ∷ ms) = m.tool_calls ++ all_calls ms

-- The function of the last call with the id, or `found` if there is none.
unfoldable pub last_name : String → Option String → List ToolCall → Option String
last_name id found [] = found
last_name id found (c ∷ cs) =
    last_name id (if str_eq c.id id then some c.function.name else found) cs

lookup-add_names :
    (id : String) (cs : List ToolCall) (names : Dict String)
    → lookup id (add_names cs names) ≡ last_name id (lookup id names) cs
unfolding add_names last_name
lookup-add_names id [] names = refl
lookup-add_names id (c ∷ cs) names =
    rw
      (
        lookup-add_names id cs (insert c.id c.function.name names),
        lookup-insert c.id id c.function.name names,
      )
      refl

last_name-append :
    (id : String) (cs ds : List ToolCall) (found : Option String)
    → last_name id found (cs ++ ds) ≡ last_name id (last_name id found cs) ds
unfolding last_name
last_name-append id [] ds found = refl
last_name-append id (c ∷ cs) ds found = last_name-append id cs ds _

lookup-tool_names :
    (id : String) (ms : List ChatMessage) (names : Dict String)
    → lookup id (tool_names ms names) ≡ last_name id (lookup id names) (all_calls ms)
unfolding tool_names all_calls last_name
lookup-tool_names id [] names = refl
lookup-tool_names id (m ∷ ms) names =
    rw
      (
        lookup-tool_names id ms (add_names m.tool_calls names),
        lookup-add_names id m.tool_calls names,
        last_name-append id m.tool_calls (all_calls ms) (lookup id names),
      )
      refl

module _ (j : Json) where
  open j use {V, empty_object, object_with, unmarshal}

  content_loop-conversation :
      (names : Dict String) (ms : List ChatMessage) (s : Option (GeminiContent V))
      → (content_loop j names s ms).1 ≡ map (to_gemini_content j names) (conversation ms)
  unfolding content_loop conversation
  content_loop-conversation names [] s = refl
  content_loop-conversation names (m ∷ ms) s = elim (Bool-cases (str_eq m.role "system")) [
    | inl q ↦ rw q (content_loop-conversation names ms _)
    | inr q ↦ rw (q, content_loop-conversation names ms s) refl
  ]

  -- The function whose result is sent: the one that was found, or the id if there is none, or its name
  -- is empty.
  abbrev pub IsFunctionOf : String → Option String → String → Type 0
  IsFunctionOf id found name =
      ((found ≡ some name) × (name ≢ "")) ⊎ (((found ≡ none) ⊎ (found ≡ some "")) × (name ≡ id))

  -- The result of a tool in the conversation `ms`: the response of the function of its call.
  abbrev pub IsResult : List ChatMessage → ChatMessage → GeminiContent V → Type 0
  IsResult ms m c =
      (c.role ≡ "user")
      × ((name : String) × IsFunctionOf m.tool_call_id
            (last_name m.tool_call_id none (all_calls ms)) name
          × (c.parts
              ≡ record {
                text = "";
                function_call = none;
                function_response =
                    some (record { name = name; response = object_with "content" (text_of m) });
              }
                ∷ []))

  -- What `m`, a message of the conversation `ms`, becomes.
  abbrev pub Sent : List ChatMessage → ChatMessage → GeminiContent V → Type 0
  Sent ms m c = ((m.role ≡ "tool") × IsResult ms m c) ⊎ ((m.role ≢ "tool") × IsSpoken j m c)

  if-Sent :
      (ms : List ChatMessage) (m : ChatMessage) (t : Bool) (x y : GeminiContent V)
      → (t ≡ true → Sent ms m x)
      → (t ≡ false → Sent ms m y)
      → Sent ms m (if t then x else y)
  if-Sent ms m true x y h k = h refl
  if-Sent ms m false x y h k = k refl

  mapped_or-IsFunctionOf :
      (id : String) (found : Option String) → IsFunctionOf id found (mapped_or id found)
  unfolding mapped_or
  mapped_or-IsFunctionOf id none = inr (inl refl, refl)
  mapped_or-IsFunctionOf id (some name) = elim (Bool-cases (str_eq name "")) [
    | inl q ↦ rw q (inr (inr (ground (arith, q, eq_iff name "")), refl))
    | inr q ↦ rw q (inl (refl, ground (arith, q, eq_iff name "")))
  ]

  result :
      (ms : List ChatMessage) (m : ChatMessage)
      → IsResult ms m (record {
        role = "user";
        parts =
            response_part
              (mapped_or m.tool_call_id (lookup m.tool_call_id (tool_names ms [])))
              (object_with "content" (text_of m))
            ∷ [];
      })
  unfolding lookup response_part
  result ms m = (
    refl,
    (
      mapped_or m.tool_call_id (lookup m.tool_call_id (tool_names ms [])),
      rw (lookup-tool_names m.tool_call_id ms []) (mapped_or-IsFunctionOf m.tool_call_id _),
      refl,
    ),
  )

  to_gemini_content-Sent :
      (ms : List ChatMessage) (m : ChatMessage)
      → Sent ms m (to_gemini_content j (tool_names ms []) m)
  unfolding to_gemini_content
  to_gemini_content-Sent ms m =
      if-Sent ms m (str_eq m.role "tool") _ _
        (λ q. inl (ground (arith, q, eq_iff m.role "tool"), result ms m))
        (λ q. inr (ground (arith, q, eq_iff m.role "tool"), spoken j m))

  -- Message by message.
  abbrev pub AllSent : List ChatMessage → List ChatMessage → List (GeminiContent V) → Type 0
  AllSent all [] [] = Unit
  AllSent all (m ∷ ms) (c ∷ cs) = Sent all m c × AllSent all ms cs
  AllSent all [] (c ∷ cs) = ⊥
  AllSent all (m ∷ ms) [] = ⊥

  map-AllSent :
      (all ms : List ChatMessage)
      → AllSent all ms (map (to_gemini_content j (tool_names all [])) ms)
  map-AllSent all [] = tt
  map-AllSent all (m ∷ ms) = (to_gemini_content-Sent all m, map-AllSent all ms)

  -- The contents sent to Gemini are those of the messages that are not system messages, one for
  -- each and in their order. The result of a tool is sent by the user, as the response of the function of
  -- the last call, in any message, that has its id (of the id itself, if there is none or its name
  -- is empty). Any other message is sent by the model if it is the assistant's and else by the user,
  -- with at least one part: its text, unless that is empty, and its tool calls, in order, by name
  -- and with the JSON value of their arguments.
  pub to_gemini-AllSent :
      {F : Type 0} (r : ChatRequest F V)
      → AllSent r.messages (conversation r.messages) (to_gemini j r).contents
  unfolding to_gemini
  to_gemini-AllSent r =
      rw (content_loop-conversation (tool_names r.messages []) r.messages none)
        (map-AllSent r.messages (conversation r.messages))
