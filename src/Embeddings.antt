-- ===== src/Embeddings.antt =====
-- internal/proxy/embeddings.go: `dispatch` of the handler of embedding requests, with the request and
-- response of internal/types/types.go. It keeps breakers of its own. `send i p model` is what
-- `embedWithRetry` gives in the i-th attempt, at the provider `p` for the request under the name
-- `model`; the primary is attempt 0, and the k-th name of the chain is attempt k + 1.
pub mod Serve
pub mod Answer
pub mod Outcome
pub mod Charge
use Prim.Native.String.{len}
use llm_api_gateway.Prelude.{
  ℕ, suc, ◌+◌, Bool, true, false, not, ℤ, String, str_eq, Option, none, some, List, [], ◌∷◌,
  if◌then◌else◌,
}
use llm_api_gateway.Resilience.Hedge as Hedge
use llm_api_gateway.Router.{Provider, Patterns, Registry, get}
use llm_api_gateway.Router.Resolve.{resolve}
use llm_api_gateway.Router.Remap.{remap_for_fallback}
use llm_api_gateway.Dispatch.{Circuits, Reply, ok, failed, no_provider, ask, succeed, fail}

-- The field `input`, which may hold any JSON value: of the values of an array only the strings matter.
pub data Input : Type 0 where
  nil other : Input
  text : String → Input
  texts : List String → Input
  items : List (Option String) → Input

pub record EmbeddingRequest : Type 0 where
  pub model : String
  pub input : Input
  pub encoding_format : String
  pub dimensions : Option ℤ
  pub user : String

pub record EmbeddingUsage : Type 0 where
  pub prompt_tokens : ℤ
  pub total_tokens : ℤ

-- `X` is the type of the vectors with their indices.
pub record EmbeddingResponse (X : Type 0) : Type 0 where
  pub object : String
  pub data_list : List X
  pub model : String
  pub usage : EmbeddingUsage

unfoldable pub chars_of_texts : List String → ℕ
chars_of_texts [] = 0
chars_of_texts (s ∷ ss) = len s + chars_of_texts ss

unfoldable pub chars_of_items : List (Option String) → ℕ
chars_of_items [] = 0
chars_of_items (some s ∷ xs) = len s + chars_of_items xs
chars_of_items (none ∷ xs) = chars_of_items xs

unfoldable pub embedding_input_chars : Input → ℕ
unfolding chars_of_texts chars_of_items
embedding_input_chars (text s) = len s
embedding_input_chars (texts ss) = chars_of_texts ss
embedding_input_chars (items xs) = chars_of_items xs
embedding_input_chars nil = 0
embedding_input_chars other = 0

-- `lastErr`: the error of a provider, or that the primary was passed over.
pub data EmbedError (E : Type 0) : Type 0 where
  unsupported : EmbedError E
  sent : E → EmbedError E

module _ {E A : Type 0} (is_retryable : E → Bool) (is_embedder : Provider → Bool) (lib : Patterns)
    (rand : ℕ → ℕ) (r : Registry) (send : ℕ → Provider → String → Hedge.Result E A)
    (clock late : ℕ → ℕ) where
  abbrev pub Outcome : Type 0
  Outcome = Circuits × Reply (EmbedError E) A

  -- After `embedWithRetry` at a fallback; `next` is the rest of the loop.
  unfoldable pub after_fallback :
      ℕ → Provider → Hedge.Result E A → (EmbedError E → Circuits → Outcome) → Circuits → Outcome
  after_fallback i p (Hedge.ok a) next c = (succeed p.name c, ok a p.name)
  after_fallback i p (Hedge.err e) next c = next (sent e) (fail (late i) p.name c)

  unfoldable pub try_fallback :
      ℕ
      → String
      → Option Provider
      → (EmbedError E → Circuits → Outcome)
      → EmbedError E
      → Circuits
      → Outcome
  unfolding after_fallback
  try_fallback i model none next last c = next last c
  try_fallback i model (some p) next last c =
      let (c', allowed) = ask (clock i) p.name c in
      if not (is_embedder p)
      then next last c
      else if not allowed
      then next last c'
      else after_fallback i p (send i p (remap_for_fallback lib r model p)) next c'

  -- The loop over the fallback chain. `lastErr` is never nil there, so the last return is not reached.
  unfoldable pub fallback_loop :
      ℕ → String → String → List String → EmbedError E → Circuits → Outcome
  unfolding try_fallback
  fallback_loop i model primary [] last c = (c, failed last)
  fallback_loop i model primary (name ∷ names) last c =
      let next = fallback_loop (suc i) model primary names in
      if str_eq name primary then next last c else try_fallback i model (get name r) next last c

  -- After `embedWithRetry` at the primary
  unfoldable pub after_embed :
      String → Provider → List String → Hedge.Result E A → Circuits → Outcome
  after_embed model p names (Hedge.ok a) c = (succeed p.name c, ok a p.name)
  after_embed model p names (Hedge.err e) c =
      let c' = fail (late 0) p.name c in
      if not (is_retryable e)
      then (c', failed (sent e))
      else fallback_loop 1 model p.name names (sent e) c'

  unfoldable pub dispatch_to : String → Option Provider → List String → Circuits → Outcome
  unfolding fallback_loop after_embed
  dispatch_to model none names c = (c, no_provider)
  dispatch_to model (some p) names c =
      let (c', allowed) = ask (clock 0) p.name c in
      if not (is_embedder p)
      then fallback_loop 1 model p.name names unsupported c
      else if not allowed
      then fallback_loop 1 model p.name names unsupported c'
      else after_embed model p names (send 0 p model) c'

  unfoldable pub dispatch_embedding : String → List String → Circuits → Outcome
  unfolding dispatch_to
  dispatch_embedding model names c = dispatch_to model (resolve lib rand model r) names c
