-- ===== src/Translate/Gemini/Parts.antt =====
-- What the parts of a content hold, and the parts of a message that is no tool result.
use llm_api_gateway.Prelude.{
  Bool, ◌≡◌, ◌≢◌, refl, ap, sym, subst, ◌∙◌, eq_iff, true, false, String, str_eq, Option, none,
  some, List, [], ◌∷◌, map, inl, inr, ◌⊎◌, arith, if◌then◌else◌,
}
use llm_api_gateway.Types.{Json, ToolCall, ChatMessage, text_of}
use llm_api_gateway.Translate.Gemini.{
  GeminiPart, GeminiContent, GeminiFunctionCall, GeminiFunctionResponse, part_of_call,
  message_parts, decode_gemini_arguments, decoded_or_raw, text_part, role_of, or_blank,
}

module _ (j : Json) where
  open j use {V, empty_object, object_with, unmarshal}

  -- The texts of parts, without empty ones, their calls, and their responses.
  unfoldable pub texts_in : List (GeminiPart V) → List String
  texts_in [] = []
  texts_in (p ∷ ps) = let rest = texts_in ps in if str_eq p.text "" then rest else p.text ∷ rest

  unfoldable pub add_some : {A : Type 0} → Option A → List A → List A
  add_some none xs = xs
  add_some (some x) xs = x ∷ xs

  unfoldable pub calls_in : List (GeminiPart V) → List (GeminiFunctionCall V)
  unfolding add_some
  calls_in [] = []
  calls_in (p ∷ ps) = add_some p.function_call (calls_in ps)

  unfoldable pub responses_in : List (GeminiPart V) → List (GeminiFunctionResponse V)
  unfolding add_some
  responses_in [] = []
  responses_in (p ∷ ps) = add_some p.function_response (responses_in ps)

  -- What the arguments of a call are sent as: the JSON value that they are, no value for "null", an
  -- empty object for no text, and otherwise an object that holds the text.
  abbrev pub IsDecoded : String → Option V → Type 0
  IsDecoded arguments sent =
      ((str_eq arguments "" ≡ true) × (sent ≡ some empty_object))
      ⊎ ((str_eq arguments "" ≡ false) × (unmarshal arguments ≡ some sent))
      ⊎ ((str_eq arguments "" ≡ false)
          × (unmarshal arguments ≡ none)
          × (sent ≡ some (object_with "raw" arguments)))

  -- The calls are sent under their functions' names, in order.
  abbrev pub AllCalled : List ToolCall → List (GeminiFunctionCall V) → Type 0
  AllCalled [] [] = Unit
  AllCalled (t ∷ ts) (c ∷ cs) =
      ((c.name ≡ t.function.name) × IsDecoded t.function.arguments c.args) × AllCalled ts cs
  AllCalled [] (c ∷ cs) = ⊥
  AllCalled (t ∷ ts) [] = ⊥

  unfoldable pub text_or_none : String → List String
  text_or_none text = if str_eq text "" then [] else text ∷ []

  -- Another message: its role, its text and its calls, and at least one part.
  abbrev pub IsSpoken : ChatMessage → GeminiContent V → Type 0
  IsSpoken m c =
      (c.parts ≢ [])
      × (((m.role ≡ "assistant") × (c.role ≡ "model"))
          ⊎ ((m.role ≢ "assistant") × (c.role ≡ "user")))
      × (texts_in c.parts ≡ text_or_none (text_of m))
      × AllCalled m.tool_calls (calls_in c.parts)
      × (responses_in c.parts ≡ [])

  or_blank-ne : {W : Type 0} (ps : List (GeminiPart W)) → or_blank ps ≢ []
  unfolding or_blank
  or_blank-ne [] = cc
  or_blank-ne (p ∷ ps) = cc

  role_of-cases :
      (role : String)
      → ((role ≡ "assistant") × (role_of role ≡ "model"))
        ⊎ ((role ≢ "assistant") × (role_of role ≡ "user"))
  unfolding role_of
  role_of-cases role = ground (arith, eq_iff role "assistant")

  decode_gemini_arguments-IsDecoded :
      (arguments : String) → IsDecoded arguments (decode_gemini_arguments j arguments)
  unfolding decode_gemini_arguments decoded_or_raw
  decode_gemini_arguments-IsDecoded arguments =
      by_cases (str_eq arguments "") (unmarshal arguments) refl refl
    where
      by_cases :
          (t : Bool) (o : Option (Option V))
          → str_eq arguments "" ≡ t
          → unmarshal arguments ≡ o
          → IsDecoded arguments (if t then some empty_object else decoded_or_raw j arguments o)
      by_cases true o q e = inl (q, refl)
      by_cases false (some v) q e = inr (inl (q, e))
      by_cases false none q e = inr (inr (q, e, refl))

  -- The parts of calls.
  call_parts :
      (ts : List ToolCall)
      → let ps = map (part_of_call j) ts in
        (texts_in ps ≡ []) × AllCalled ts (calls_in ps) × (responses_in ps ≡ [])
  unfolding texts_in calls_in responses_in part_of_call
  call_parts [] = (refl, tt, refl)
  call_parts (t ∷ ts) =
      let (texts, calls, responses) = call_parts ts in
      (texts, ((refl, decode_gemini_arguments-IsDecoded t.function.arguments), calls), responses)

  message_parts-all :
      (m : ChatMessage)
      → let ps = message_parts j m in
        (texts_in ps ≡ text_or_none (text_of m))
        × AllCalled m.tool_calls (calls_in ps)
        × (responses_in ps ≡ [])
  unfolding message_parts text_part texts_in calls_in responses_in text_or_none
  message_parts-all m = with_text (str_eq (text_of m) "") refl (call_parts m.tool_calls)
    where
      with_text :
          (t : Bool)
          → str_eq (text_of m) "" ≡ t
          → let cs = map (part_of_call j) m.tool_calls in
            (texts_in cs ≡ []) × AllCalled m.tool_calls (calls_in cs) × (responses_in cs ≡ [])
            → let ps = if t then cs else text_part (text_of m) ∷ cs in
              (texts_in ps ≡ (if t then [] else text_of m ∷ []))
              × AllCalled m.tool_calls (calls_in ps)
              × (responses_in ps ≡ [])
      with_text true q h = h
      with_text false q (texts, calls, responses) =
          (rw q (ap (λ xs. text_of m ∷ xs) texts), calls, responses)

  or_blank-same :
      (ps : List (GeminiPart V))
      → (texts_in (or_blank ps) ≡ texts_in ps)
        × (calls_in (or_blank ps) ≡ calls_in ps)
        × (responses_in (or_blank ps) ≡ responses_in ps)
  unfolding or_blank texts_in calls_in responses_in
  or_blank-same [] = (refl, refl, refl)
  or_blank-same (p ∷ ps) = (refl, refl, refl)

  pub spoken :
      (m : ChatMessage)
      → IsSpoken m (record { role = role_of m.role; parts = or_blank (message_parts j m) })
  spoken m =
      let ps = message_parts j m in
      let (texts, calls, responses) = message_parts-all m in
      let (same_texts, same_calls, same_responses) = or_blank-same ps in
      (
        or_blank-ne ps,
        role_of-cases m.role,
        same_texts ∙ texts,
        subst (AllCalled m.tool_calls) (sym same_calls) calls,
        same_responses ∙ responses,
      )
