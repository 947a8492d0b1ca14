-- ===== src/Dispatch/Healthy.antt =====
-- One healthy fallback is enough.
use mathlib.Core.List.{Memᴰ}
use llm_api_gateway.Prelude.{
  ℕ, suc, ◌≡◌, refl, Bool, Bool-cases, Option-cases, true, false, String, str_eq, eq_iff, Option,
  none, some, List, [], ◌∷◌, arith, inl, inr,
}
use llm_api_gateway.Resilience.Breaker.{closed, allow, state_of}
use llm_api_gateway.Resilience.Hedge as Hedge
use llm_api_gateway.Router.{Provider, Patterns, Registry, get}
use llm_api_gateway.Router.Resolve.{resolve}
use llm_api_gateway.Router.Remap.{remap_for_fallback}
use llm_api_gateway.Dispatch.{
  Circuits, Reply, ok, set_breaker, ask, look, fail, after_send, try_provider, try_chain, or_chain,
  after_primary, dispatch_to, dispatch,
}

ask-closed :
    (now : ℕ) (name other : String) (c : Circuits)
    → (c other).state ≡ closed
    → ((ask now name c).0 other).state ≡ closed
unfolding ask set_breaker allow
ask-closed now name other c h = ground (arith, eq_iff name other)

look-closed :
    (now : ℕ) (name other : String) (c : Circuits)
    → (c other).state ≡ closed
    → ((look now name c) other).state ≡ closed
unfolding look set_breaker state_of
look-closed now name other c h = ground (arith, eq_iff name other)

ask-allowed :
    (now : ℕ) (name : String) (c : Circuits) → (c name).state ≡ closed → (ask now name c).1 ≡ true
unfolding ask allow
ask-allowed now name c h = ground arith

fail-closed :
    (now : ℕ) (name other : String) (c : Circuits)
    → str_eq name other ≡ false
    → (c other).state ≡ closed
    → ((fail now name c) other).state ≡ closed
unfolding fail set_breaker
fail-closed now name other c n h = ground arith

same_name : (s t : String) → str_eq s t ≡ true → s ≡ t
same_name s t h = ground (arith, eq_iff s t)

other_name : (s t : String) → str_eq s t ≡ false → str_eq t s ≡ false
other_name s t h = ground (arith, eq_iff s t, eq_iff t s)

later : {x y : String} {l : List String} → Memᴰ x (y ∷ l) → str_eq y x ≡ false → Memᴰ x l
later {x} {y} (Memᴰ.head e) h = absurd (ground (arith, eq_iff y x))
later (Memᴰ.tail m) h = m

-- A reply with an answer.
abbrev pub IsOk : {E A : Type 0} → Reply E A → Type 0
IsOk (ok a name) = Unit {0}
IsOk _ = ⊥

module _ {E A : Type 0} (is_retryable : E → Bool) (lib : Patterns) (rand : ℕ → ℕ) (r : Registry)
    (send : ℕ → Provider → String → Hedge.Result E A) (clock late : ℕ → ℕ) (p : Provider) where
  abbrev chain : ℕ → String → String → List String → Option E → Circuits → Circuits × Reply E A
  chain = try_chain is_retryable lib rand r send clock late

  -- The provider is registered under its name, which no other registered provider has, and it
  -- answers every request.
  pub record IsHealthy : Type 0 where
    pub registered : get p.name r ≡ some p
    pub named : (n : String) (q : Provider) → get n r ≡ some q → q.name ≡ n
    pub answers : (i : ℕ) (model : String) → (a : A) × (send i p model ≡ Hedge.ok a)

  try_provider-healthy :
      (i : ℕ) (model : String) (next : Option E → Circuits → Circuits × Reply E A) (last : Option E)
      (c : Circuits)
      → IsHealthy
      → (c p.name).state ≡ closed
      → IsOk (try_provider is_retryable lib rand r send clock late i model (some p) next last c).1
  unfolding try_provider after_send
  try_provider-healthy i model next last c h k =
      let (a, e) = h.answers i (remap_for_fallback lib r model p) in
      rw (ask-allowed (clock i) p.name c k, e) tt

  after_send-other :
      (i : ℕ) (q : Provider) (x : Hedge.Result E A)
      (next : Option E → Circuits → Circuits × Reply E A) (c : Circuits)
      → ((last' : Option E) (c' : Circuits) → (c' p.name).state ≡ closed → IsOk (next last' c').1)
      → str_eq q.name p.name ≡ false
      → (c p.name).state ≡ closed
      → IsOk (after_send is_retryable lib rand r send clock late i q x next c).1
  unfolding after_send
  after_send-other i q (Hedge.ok a) next c rest n k = tt
  after_send-other i q (Hedge.err e) next c rest n k =
      rest (some e) _ (fail-closed (late i) q.name p.name c n k)

  try_provider-other :
      (i : ℕ) (model : String) (q : Provider) (next : Option E → Circuits → Circuits × Reply E A)
      (last : Option E) (c : Circuits)
      → ((last' : Option E) (c' : Circuits) → (c' p.name).state ≡ closed → IsOk (next last' c').1)
      → str_eq q.name p.name ≡ false
      → (c p.name).state ≡ closed
      → IsOk (try_provider is_retryable lib rand r send clock late i model (some q) next last c).1
  unfolding try_provider
  try_provider-other i model q next last c rest n k =
      let c' = (ask (clock i) q.name c).0 in
      let k' = ask-closed (clock i) q.name p.name c k in
      elim (Bool-cases (ask (clock i) q.name c).1) [
        | inr refused ↦ rw refused (rest last _ (look-closed (late i) q.name p.name c' k'))
        | inl allowed ↦
            rw allowed
              (after_send-other i q (send i q (remap_for_fallback lib r model q)) next c' rest n k')
      ]

  try_chain-healthy :
      (i : ℕ) (model primary : String) (names : List String) (last : Option E) (c : Circuits)
      → IsHealthy
      → str_eq p.name primary ≡ false
      → Memᴰ p.name names
      → (c p.name).state ≡ closed
      → IsOk (chain i model primary names last c).1
  unfolding try_chain try_provider
  try_chain-healthy i model primary [] last c h n m k = elim m [ ]
  try_chain-healthy i model primary (name ∷ names) last c h n m k =
      let rest =
        λ (e : Memᴰ p.name names) (last' : Option E) (c' : Circuits)
            (k' : (c' p.name).state ≡ closed).
          try_chain-healthy (suc i) model primary names last' c' h n e k' in
      elim (Bool-cases (str_eq name p.name)) [
        | inl same ↦
            rw (same_name name p.name same, n, h.registered)
              (try_provider-healthy i model (chain (suc i) model primary names) last c h k)
        | inr other ↦ elim (Bool-cases (str_eq name primary)) [
          | inl q ↦ rw q (rest (later m other) last c k)
          | inr q ↦ elim (Option-cases (get name r)) [
            | inl g ↦ rw (q, g) (rest (later m other) last c k)
            | inr (x, g) ↦
                rw (q, g)
                  (try_provider-other i model x (chain (suc i) model primary names) last c
                    (rest (later m other)) (rw (h.named name x g) other) k)
          ]
        ]
      ]

  module _ (race : Provider → Provider → List (Hedge.Event E A)) (hedge_clock : ℕ → ℕ)
      (hedge_late : ℕ) where
    -- The primary was not tried, or failed with an error that may be retried.
    abbrev pub Tolerable : Provider → String → Type 0
    Tolerable primary model = (e : E) → send 0 primary model ≡ Hedge.err e → is_retryable e ≡ true

    after_primary-healthy :
        (model : String) (primary : Provider) (names : List String) (x : Hedge.Result E A)
        (c : Circuits)
        → send 0 primary model ≡ x
        → Tolerable primary model
        → IsHealthy
        → str_eq p.name primary.name ≡ false
        → Memᴰ p.name names
        → (c p.name).state ≡ closed
        → IsOk
            (after_primary is_retryable lib rand r send clock late race hedge_clock hedge_late false
              model primary names x c).1
    unfolding after_primary or_chain
    after_primary-healthy model primary names (Hedge.ok a) c e tolerable h n m k = tt
    after_primary-healthy model primary names (Hedge.err f) c e tolerable h n m k =
        rw (tolerable f e) (
          try_chain-healthy 1 model primary.name names (some f) (fail (late 0) primary.name c) h n m
            (fail-closed (late 0) primary.name p.name c (other_name p.name primary.name n) k))

    -- Without hedging, `dispatch` answers whenever the fallback chain names a provider, other than
    -- the primary, that is healthy (`IsHealthy`) and has a closed breaker, unless the primary's call
    -- fails with an error that must not be retried: the state of all other breakers and the failures
    -- of all other fallbacks do not matter.
    pub dispatch-healthy :
        (model : String) (primary : Provider) (names : List String) (c : Circuits)
        → resolve lib rand model r ≡ some primary
        → Tolerable primary model
        → IsHealthy
        → str_eq p.name primary.name ≡ false
        → Memᴰ p.name names
        → (c p.name).state ≡ closed
        → IsOk
            (dispatch is_retryable lib rand r send clock late race hedge_clock hedge_late false
              model names c).1
    unfolding dispatch dispatch_to after_primary or_chain
    dispatch-healthy model primary names c e tolerable h n m k =
        rw e (elim (Bool-cases (ask (clock 0) primary.name c).1) [
          | inr refused ↦ rw refused (
              try_chain-healthy 1 model primary.name names none
                (look (late 0) primary.name (ask (clock 0) primary.name c).0) h n m
                (look-closed (late 0) primary.name p.name (ask (clock 0) primary.name c).0
                  (ask-closed (clock 0) primary.name p.name c k)))
          | inl allowed ↦ rw allowed (
              after_primary-healthy model primary names (send 0 primary model) _ refl tolerable h n
                m (ask-closed (clock 0) primary.name p.name c k))
        ])
