-- ===== src/Embeddings/Answer.antt =====
-- Where the answer to an embedding request comes from, and where an error does.
use mathlib.Core.List.{Memᴰ}
use llm_api_gateway.Prelude.{
  ℕ, suc, ◌≡◌, refl, Bool, true, false, not, String, str_eq, Option, none, some, List, [], ◌∷◌, ◌⊎◌,
  inl, inr, if◌then◌else◌,
}
use llm_api_gateway.Resilience.Hedge as Hedge
use llm_api_gateway.Router.{Provider, Patterns, Registry, get}
use llm_api_gateway.Router.Resolve.{resolve}
use llm_api_gateway.Dispatch.{Circuits, Reply, ok, failed, no_provider, all_failed, ask}
use llm_api_gateway.Embeddings.{
  EmbedError, unsupported, sent, after_fallback, try_fallback, fallback_loop, after_embed,
  dispatch_to, dispatch_embedding,
}

module _ {E A : Type 0} (is_retryable : E → Bool) (is_embedder : Provider → Bool) (lib : Patterns)
    (rand : ℕ → ℕ) (r : Registry) (send : ℕ → Provider → String → Hedge.Result E A)
    (clock late : ℕ → ℕ) (model : String) where
  -- The provider is the one the model resolves to, or one registered under a name of the list.
  abbrev pub IsChosen : List String → Provider → Type 0
  IsChosen names p =
      (resolve lib rand model r ≡ some p)
      ⊎ ((name : String) × Memᴰ name names × (get name r ≡ some p))

  -- What a reply says of the providers' answers.
  abbrev pub IsGiven : List String → Reply (EmbedError E) A → Type 0
  IsGiven names (ok a name) =
      (i : ℕ) × (p : Provider) × (sent_as : String) × IsChosen names p
      × (is_embedder p ≡ true)
      × (p.name ≡ name)
      × (send i p sent_as ≡ Hedge.ok a)
  IsGiven names (failed (sent e)) =
      (i : ℕ) × (p : Provider) × (sent_as : String) × IsChosen names p
      × (is_embedder p ≡ true)
      × (send i p sent_as ≡ Hedge.err e)
  IsGiven names (failed unsupported) = Unit
  IsGiven names no_provider = resolve lib rand model r ≡ none
  IsGiven names all_failed = ⊥

  abbrev Outcome : Type 0
  Outcome = Circuits × Reply (EmbedError E) A

  if-IsGiven :
      (names : List String) (t : Bool) (x y : Outcome)
      → (t ≡ true → IsGiven names x.1)
      → (t ≡ false → IsGiven names y.1)
      → IsGiven names (if t then x else y).1
  if-IsGiven names true x y h k = h refl
  if-IsGiven names false x y h k = k refl

  embedder_of : (t : Bool) → not t ≡ false → t ≡ true
  embedder_of true h = refl
  embedder_of false h = cc

  after_fallback-IsGiven :
      (names : List String) (i : ℕ) (p : Provider) (sent_as : String) (x : Hedge.Result E A)
      (next : EmbedError E → Circuits → Outcome) (c : Circuits)
      → send i p sent_as ≡ x
      → IsChosen names p
      → is_embedder p ≡ true
      → ((last : EmbedError E) (c' : Circuits)
          → IsGiven names (failed last)
          → IsGiven names (next last c').1)
      → IsGiven names
          (after_fallback is_retryable is_embedder lib rand r send clock late i p x next c).1
  unfolding after_fallback
  after_fallback-IsGiven names i p sent_as (Hedge.ok a) next c s q k rest =
      (i, p, sent_as, q, k, refl, s)
  after_fallback-IsGiven names i p sent_as (Hedge.err e) next c s q k rest =
      rest (sent e) _ (i, p, sent_as, q, k, s)

  try_fallback-IsGiven :
      (names : List String) (i : ℕ) (name : String) (found : Option Provider)
      (next : EmbedError E → Circuits → Outcome) (last : EmbedError E) (c : Circuits)
      → get name r ≡ found
      → Memᴰ name names
      → IsGiven names (failed last)
      → ((last' : EmbedError E) (c' : Circuits)
          → IsGiven names (failed last')
          → IsGiven names (next last' c').1)
      → IsGiven names
          (try_fallback is_retryable is_embedder lib rand r send clock late i model found next last
            c).1
  unfolding try_fallback
  try_fallback-IsGiven names i name none next last c e m h rest = rest last c h
  try_fallback-IsGiven names i name (some p) next last c e m h rest =
      if-IsGiven names (not (is_embedder p)) _ _ (λ q. rest last c h)
        (λ q.
          if-IsGiven names (not (ask (clock i) p.name c).1) _ _ (λ t. rest last _ h)
            (λ t.
              after_fallback-IsGiven names i p _ _ next _ refl (inr (name, m, e))
                (embedder_of (is_embedder p) q) rest))

  fallback_loop-IsGiven :
      (names : List String) (i : ℕ) (primary : String) (rest : List String) (last : EmbedError E)
      (c : Circuits)
      → ((name : String) → Memᴰ name rest → Memᴰ name names)
      → IsGiven names (failed last)
      → IsGiven names
          (fallback_loop is_retryable is_embedder lib rand r send clock late i model primary rest
            last c).1
  unfolding fallback_loop
  fallback_loop-IsGiven names i primary [] last c sub h = h
  fallback_loop-IsGiven names i primary (name ∷ rest) last c sub h =
      let step = λ (last' : EmbedError E) (c' : Circuits) (h' : IsGiven names (failed last')).
        fallback_loop-IsGiven names (suc i) primary rest last' c' (λ n m. sub n (Memᴰ.tail m)) h' in
      if-IsGiven names (str_eq name primary) _ _ (λ q. step last c h)
        (λ q.
          try_fallback-IsGiven names i name (get name r) _ last c refl (sub name (Memᴰ.head refl)) h
            step)

  after_embed-IsGiven :
      (names : List String) (p : Provider) (x : Hedge.Result E A) (c : Circuits)
      → send 0 p model ≡ x
      → IsChosen names p
      → is_embedder p ≡ true
      → IsGiven names
          (after_embed is_retryable is_embedder lib rand r send clock late model p names x c).1
  unfolding after_embed
  after_embed-IsGiven names p (Hedge.ok a) c s q k = (0, p, model, q, k, refl, s)
  after_embed-IsGiven names p (Hedge.err e) c s q k =
      if-IsGiven names (not (is_retryable e)) _ _ (λ t. (0, p, model, q, k, s))
        (λ t.
          fallback_loop-IsGiven names 1 p.name names (sent e) _ (λ n m. m) (0, p, model, q, k, s))

  dispatch_to-IsGiven :
      (names : List String) (found : Option Provider) (c : Circuits)
      → resolve lib rand model r ≡ found
      → IsGiven names
          (dispatch_to is_retryable is_embedder lib rand r send clock late model found names c).1
  unfolding dispatch_to
  dispatch_to-IsGiven names none c e = e
  dispatch_to-IsGiven names (some p) c e =
      if-IsGiven names (not (is_embedder p)) _ _
        (λ q. fallback_loop-IsGiven names 1 p.name names unsupported c (λ n m. m) tt)
        (λ q.
          if-IsGiven names (not (ask (clock 0) p.name c).1) _ _
            (λ t. fallback_loop-IsGiven names 1 p.name names unsupported _ (λ n m. m) tt)
            (λ t. after_embed-IsGiven names p _ _ refl (inl e) (embedder_of (is_embedder p) q)))

  -- An embedding request is answered only by a provider that supports embeddings and is either the one
  -- its model resolves to or registered under a name of the fallback chain, under that provider's
  -- name; an error of a provider that is returned comes from such a provider; and only a model
  -- that resolves to none is reported as unknown.
  pub dispatch_embedding-IsGiven :
      (names : List String) (c : Circuits)
      → IsGiven names
          (dispatch_embedding is_retryable is_embedder lib rand r send clock late model names c).1
  unfolding dispatch_embedding
  dispatch_embedding-IsGiven names c = dispatch_to-IsGiven names (resolve lib rand model r) c refl
