-- ===== src/Router/Remap.antt =====
-- `RemapForFallback` of internal/proxy/router.go: which model a fallback is asked for.
use mathlib.Core.List.{Memᴰ}
use llm_api_gateway.Prelude.{
  ◌≡◌, refl, subst, Bool, true, false, ◌||◌, String, str_eq, lookup, Option, none, some, List, [],
  ◌∷◌, if◌then◌else◌, arith, All, ◌⊎◌, inl, inr, Bool-cases, Option-cases,
}
use llm_api_gateway.Router.{Provider, Patterns, Registry, is_pattern}
use llm_api_gateway.Router.Resolve.{key_matches}

module _ (lib : Patterns) where
  -- `matchesModelPattern`
  unfoldable pub matches_model_pattern : String → String → Bool
  matches_model_pattern pattern model =
      if str_eq pattern model
      then true
      else if is_pattern pattern
      then key_matches lib pattern model
      else false

  -- `m == t || matchesModelPattern(m, t) || matchesModelPattern(t, m)`
  unfoldable pub serves : String → String → Bool
  serves t m = str_eq m t || matches_model_pattern m t || matches_model_pattern t m

  unfoldable pub any_serves : String → List String → Bool
  unfolding serves
  any_serves t [] = false
  any_serves t (m ∷ ms) = serves t m || any_serves t ms

  unfoldable pub first_target : List String → List String → Option String
  unfolding any_serves
  first_target [] models = none
  first_target (t ∷ ts) models = if any_serves t models then some t else first_target ts models

  abbrev targets_of : Option (List String) → List String
  targets_of none = []
  targets_of (some ts) = ts

  abbrev first_model : String → List String → String
  first_model model [] = model
  first_model model (m ∷ ms) = m

  -- The model of the request that `RemapForFallback` returns, for the targets of its model.
  unfoldable pub remap_to : String → List String → List String → String
  unfolding first_target
  remap_to model [] models = model
  remap_to model (t ∷ ts) models = elim (first_target (t ∷ ts) models) [
    | some target ↦ target
    | none ↦ first_model model models
  ]

  unfoldable pub remap_for_fallback : Registry → String → Provider → String
  unfolding remap_to
  remap_for_fallback r model fallback =
      remap_to model (targets_of (lookup model r.aliases)) fallback.models

  any_serves-Memᴰ :
      (t : String) (ms : List String)
      → any_serves t ms ≡ true
      → (m : String) × Memᴰ m ms × (serves t m ≡ true)
  unfolding any_serves
  any_serves-Memᴰ t [] h = cc
  any_serves-Memᴰ t (m ∷ ms) h = elim (Bool-cases (serves t m)) [
    | inl q ↦ (m, Memᴰ.head refl, q)
    | inr q ↦ let (n, mem, e) = any_serves-Memᴰ t ms (ground (arith, q)) in (n, Memᴰ.tail mem, e)
  ]

  -- A target that some model of the list serves.
  abbrev pub IsServed : List String → List String → String → Type 0
  IsServed ts ms t = Memᴰ t ts × ((m : String) × Memᴰ m ms × (serves t m ≡ true))

  some_inj : {x y : String} → some x ≡ some y → x ≡ y
  some_inj e = cc

  first_target-IsServed :
      (ts ms : List String) (t : String) → first_target ts ms ≡ some t → IsServed ts ms t
  unfolding first_target
  first_target-IsServed [] ms t h = cc
  first_target-IsServed (u ∷ ts) ms t h = elim (Bool-cases (any_serves u ms)) [
    | inl q ↦
        let e : u ≡ t = some_inj (ground (arith, q)) in
        rw (← e) (Memᴰ.head refl, any_serves-Memᴰ u ms q)
    | inr q ↦ let (mem, s) = first_target-IsServed ts ms t (ground (arith, q)) in (Memᴰ.tail mem, s)
  ]

  -- No model of the list serves a target.
  abbrev pub Unserved : List String → List String → Type 0
  Unserved ts ms = All (λ t. any_serves t ms ≡ false) ts

  first_target-none : (ts ms : List String) → first_target ts ms ≡ none → Unserved ts ms
  unfolding first_target
  first_target-none [] ms h = tt
  first_target-none (t ∷ ts) ms h = elim (Bool-cases (any_serves t ms)) [
    | inl q ↦ absurd (ground (arith, q))
    | inr q ↦ (q, first_target-none ts ms (ground (arith, q)))
  ]

  remap_to-cases :
      (model : String) (ts ms : List String)
      → IsServed ts ms (remap_to model ts ms)
        ⊎ (Unserved ts ms
            × (remap_to model ts ms ≡ (elim ts [ [] ↦ model | t ∷ us ↦ first_model model ms ])))
  unfolding remap_to
  remap_to-cases model [] ms = inr (tt, refl)
  remap_to-cases model (t ∷ ts) ms = elim (Option-cases (first_target (t ∷ ts) ms)) [
    | inl e ↦ inr (first_target-none (t ∷ ts) ms e, ground (arith, e))
    | inr (u, e) ↦
        let r : u ≡ remap_to model (t ∷ ts) ms = ground (arith, e) in
        inl (subst (IsServed (t ∷ ts) ms) r (first_target-IsServed (t ∷ ts) ms u e))
  ]

  -- A model without aliases is passed on as it is. For a model with aliases, the fallback is asked
  -- for an alias that one of its models serves; only if no alias is served, for its first model, or
  -- for the same model if it has none.
  pub remap_for_fallback-cases :
      (r : Registry) (model : String) (fallback : Provider)
      → let ts = targets_of (lookup model r.aliases) in
        IsServed ts fallback.models (remap_for_fallback r model fallback)
        ⊎ (Unserved ts fallback.models
            × (remap_for_fallback r model fallback
                ≡ (elim ts [ [] ↦ model | t ∷ us ↦ first_model model fallback.models ])))
  unfolding remap_for_fallback
  remap_for_fallback-cases r model fallback =
      remap_to-cases model (targets_of (lookup model r.aliases)) fallback.models
