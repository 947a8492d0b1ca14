-- ===== src/Dispatch/Answer.antt =====
-- Where the answer of a stream comes from, and where an error does.
use mathlib.Core.List.{Memᴰ}
use llm_api_gateway.Prelude.{
  ℕ, suc, ◌≡◌, refl, sym, subst, Bool, true, false, Bool-cases, str_eq, All, All-Memᴰ,
  if◌then◌else◌, String, Option, none, some, List, [], ◌∷◌, ◌⊎◌, inl, inr,
}
use llm_api_gateway.Resilience.Hedge as Hedge
use llm_api_gateway.Router.{Provider, Patterns, Registry, get}
use llm_api_gateway.Dispatch.{
  Circuits, Reply, ok, failed, no_provider, all_failed, reply_of, ask, after_open, stream_loop,
  stream_providers, open_stream,
}

module _ {E A : Type 0} (is_retryable : E → Bool) (lib : Patterns) (rand : ℕ → ℕ) (r : Registry)
    (send : ℕ → Provider → String → Hedge.Result E A) (clock late : ℕ → ℕ) where
  -- What a reply says of the providers' answers: a provider of the list, with the name in the reply,
  -- gave the answer, or one failed with the error.
  abbrev pub Justified : List Provider → Reply E A → Type 0
  Justified ps (ok a name) =
      (i : ℕ) × (p : Provider) × (model : String) × Memᴰ p ps
      × (p.name ≡ name)
      × (send i p model ≡ Hedge.ok a)
  Justified ps (failed e) =
      (i : ℕ) × (p : Provider) × (model : String) × Memᴰ p ps × (send i p model ≡ Hedge.err e)
  Justified ps no_provider = ⊥
  Justified ps all_failed = ⊥

  Justified-later :
      (p : Provider) (ps : List Provider) (reply : Reply E A)
      → Justified ps reply
      → Justified (p ∷ ps) reply
  Justified-later p ps (ok a name) (i, q, model, m, n, s) = (i, q, model, Memᴰ.tail m, n, s)
  Justified-later p ps (failed e) (i, q, model, m, s) = (i, q, model, Memᴰ.tail m, s)
  Justified-later p ps no_provider h = h
  Justified-later p ps all_failed h = h

  -- The reply is justified by the providers of the list, or it is that of the last error before them.
  abbrev OrLast : List Provider → Option E → Reply E A → Type 0
  OrLast ps last reply = Justified ps reply ⊎ (reply ≡ reply_of last)

  OrLast-later :
      (p : Provider) (ps : List Provider) (last : Option E) (reply : Reply E A)
      → OrLast ps last reply
      → OrLast (p ∷ ps) last reply
  OrLast-later p ps last reply (inl h) = inl (Justified-later p ps reply h)
  OrLast-later p ps last reply (inr e) = inr e

  -- The same, where the last error is that of the provider before the list.
  after_error :
      (i : ℕ) (p : Provider) (model : String) (ps : List Provider) (e : E) (last : Option E)
      (reply : Reply E A)
      → send i p model ≡ Hedge.err e
      → OrLast ps (some e) reply
      → OrLast (p ∷ ps) last reply
  after_error i p model ps e last reply s (inl h) = inl (Justified-later p ps reply h)
  after_error i p model ps e last reply s (inr q) = inl (rw q (i, p, model, Memᴰ.head refl, s))

  after_open-OrLast :
      (i : ℕ) (p : Provider) (model : String) (ps : List Provider) (x : Hedge.Result E A)
      (next : Option E → Circuits → Circuits × Reply E A) (last : Option E) (c : Circuits)
      → send i p model ≡ x
      → ((last' : Option E) (c' : Circuits) → OrLast ps last' (next last' c').1)
      → OrLast (p ∷ ps) last (after_open is_retryable lib rand r send clock late i p x next c).1
  unfolding after_open
  after_open-OrLast i p model ps (Hedge.ok a) next last c s rest =
      inl (i, p, model, Memᴰ.head refl, refl, s)
  after_open-OrLast i p model ps (Hedge.err e) next last c s rest =
      elim (Bool-cases (is_retryable e)) [
        | inl q ↦ rw q (after_error i p model ps e last _ s (rest (some e) _))
        | inr q ↦ rw q (inl (i, p, model, Memᴰ.head refl, s))
      ]

  stream_loop-OrLast :
      (i : ℕ) (model : String) (ps : List Provider) (last : Option E) (c : Circuits)
      → OrLast ps last (stream_loop is_retryable lib rand r send clock late i model ps last c).1
  unfolding stream_loop
  stream_loop-OrLast i model [] last c = inr refl
  stream_loop-OrLast i model (p ∷ ps) last c = elim (Bool-cases (ask (clock i) p.name c).1) [
    | inr refused ↦ rw refused (
        OrLast-later p ps last _
          (stream_loop-OrLast (suc i) model ps last (ask (clock i) p.name c).0))
    | inl allowed ↦
        rw allowed
          (after_open-OrLast i p _ ps _ _ last _ refl (stream_loop-OrLast (suc i) model ps))
  ]

  -- The provider is the primary, or registered under a name of the list.
  abbrev pub IsOffered : Provider → List String → Provider → Type 0
  IsOffered primary names p =
      (p ≡ primary) ⊎ ((name : String) × Memᴰ name names × (get name r ≡ some p))

  -- What a reply says of the answers of such providers.
  abbrev pub IsGiven : Provider → List String → Reply E A → Type 0
  IsGiven primary names (ok a name) =
      (i : ℕ) × (p : Provider) × (model : String) × IsOffered primary names p
      × (p.name ≡ name)
      × (send i p model ≡ Hedge.ok a)
  IsGiven primary names (failed e) =
      (i : ℕ) × (p : Provider) × (model : String) × IsOffered primary names p
      × (send i p model ≡ Hedge.err e)
  IsGiven primary names no_provider = ⊥
  IsGiven primary names all_failed = Unit

  found-All :
      (P : Provider → Type 0) (o : Option Provider) (ps : List Provider)
      → ((p : Provider) → o ≡ some p → P p)
      → All P ps
      → All P (elim o [ some p ↦ p ∷ ps | none ↦ ps ])
  found-All P none ps f h = h
  found-All P (some p) ps f h = (f p refl, h)

  if-All :
      (P : Provider → Type 0) (t : Bool) (ps qs : List Provider)
      → All P ps
      → All P qs
      → All P (if t then ps else qs)
  if-All P true ps qs h k = h
  if-All P false ps qs h k = k

  stream_providers-All :
      (P : Provider → Type 0) (primary : String) (names : List String)
      → ((name : String) (p : Provider) → Memᴰ name names → get name r ≡ some p → P p)
      → All P (stream_providers is_retryable lib rand r send clock late primary names)
  unfolding stream_providers
  stream_providers-All P primary [] f = tt
  stream_providers-All P primary (name ∷ names) f =
      let rest = stream_providers-All P primary names (λ n p m. f n p (Memᴰ.tail m)) in
      if-All P (str_eq name primary) _ _ rest
        (found-All P (get name r) _ (λ p. f name p (Memᴰ.head refl)) rest)

  Justified-IsGiven :
      (primary : Provider) (names : List String) (ps : List Provider) (reply : Reply E A)
      → All (IsOffered primary names) ps
      → Justified ps reply
      → IsGiven primary names reply
  Justified-IsGiven primary names ps (ok a name) h (i, p, model, m, n, s) =
      (i, p, model, All-Memᴰ _ p ps h m, n, s)
  Justified-IsGiven primary names ps (failed e) h (i, p, model, m, s) =
      (i, p, model, All-Memᴰ _ p ps h m, s)
  Justified-IsGiven primary names ps no_provider h j = j
  Justified-IsGiven primary names ps all_failed h j = tt

  -- `openStream` gives a stream only from the primary or a provider that is registered under a name
  -- of the fallback chain, under the name of the provider that sent its first chunk; and an error
  -- that it returns is one with which one of these providers failed, or the error that all have
  -- failed.
  pub open_stream-IsGiven :
      (model : String) (primary : Provider) (names : List String) (c : Circuits)
      → IsGiven primary names
          (open_stream is_retryable lib rand r send clock late model primary names c).1
  unfolding open_stream
  open_stream-IsGiven model primary names c =
      let ps = stream_providers is_retryable lib rand r send clock late primary.name names in
      let offered : All (IsOffered primary names) (primary ∷ ps) =
        (inl refl, stream_providers-All _ primary.name names (λ n p m e. inr (n, m, e))) in
      elim (stream_loop-OrLast 0 model (primary ∷ ps) none c) [
        | inl j ↦ Justified-IsGiven primary names (primary ∷ ps) _ offered j
        | inr e ↦ subst (IsGiven primary names) (sym e) tt
      ]
