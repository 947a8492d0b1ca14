-- ===== src/Ratelimit/Override/Specificity.antt =====
-- Which override decides.
use llm_api_gateway.Prelude.{
  ℕ, ◌∙◌, Bool-cases, ◌<◌, ◌≤◌, ◌≡◌, refl, Bool, ℤ, pos, negsuc, ltb_ℤ, ◌≤ℤ◌, leb, String, Option,
  none, some, List, [], ◌∷◌, if◌then◌else◌, All, arith, inl, inr,
}
use llm_api_gateway.Ratelimit.Override.{
  RateLimitOverride, OverrideStore, Best, applies, score_of, consider, resolve_loop, resolve,
}

-- Both limits of the override are set.
abbrev pub SetsBoth : RateLimitOverride → Type 0
SetsBoth ov = (pos 1 ≤ℤ ov.rpm) × (pos 1 ≤ℤ ov.burst)

module _ (path_match : String → String → Option Bool) (tenant model : String) where
  abbrev score : RateLimitOverride → ℕ
  score = score_of path_match tenant model

  -- The later of two overrides, unless the earlier is more specific.
  abbrev pub prefer : RateLimitOverride → Option RateLimitOverride → Option RateLimitOverride
  prefer ov none = some ov
  prefer ov (some later) = if leb (score ov) (score later) then some later else some ov

  -- The last of the most specific overrides that apply.
  unfoldable pub most_specific : List RateLimitOverride → Option RateLimitOverride
  most_specific [] = none
  most_specific (ov ∷ ovs) =
      let rest = most_specific ovs in
      if applies path_match tenant model ov then prefer ov rest else rest

  abbrev best_of : RateLimitOverride → Best
  best_of ov = record { rpm = ov.rpm; burst = ov.burst; score = pos (score ov) }

  abbrev or_best : Best → Option RateLimitOverride → Best
  or_best b none = b
  or_best b (some ov) = best_of ov

  consider-best_of :
      (o : RateLimitOverride) (b : Best)
      → SetsBoth o
      → consider path_match tenant model o b
        ≡ (if ltb_ℤ (pos (score o)) b.score then b else best_of o)
  unfolding consider
  consider-best_of o b h = ground arith

  prefer_lower :
      (ov o : RateLimitOverride) (rest : Option RateLimitOverride)
      → score o < score ov
      → or_best (best_of ov) (prefer ov rest) ≡ or_best (best_of ov) (prefer ov (prefer o rest))
  prefer_lower ov o none h = ground arith
  prefer_lower ov o (some r) h = ground arith

  prefer_higher :
      (ov o : RateLimitOverride) (rest : Option RateLimitOverride)
      → score ov ≤ score o
      → or_best (best_of o) (prefer o rest) ≡ or_best (best_of ov) (prefer ov (prefer o rest))
  prefer_higher ov o none h = ground arith
  prefer_higher ov o (some r) h = ground arith

  resolve_loop-chosen :
      (ov : RateLimitOverride) (ovs : List RateLimitOverride)
      → All SetsBoth ovs
      → resolve_loop path_match tenant model ovs (best_of ov)
        ≡ or_best (best_of ov) (prefer ov (most_specific ovs))
  unfolding resolve_loop most_specific
  resolve_loop-chosen ov [] h = refl
  resolve_loop-chosen ov (o ∷ ovs) h = elim (Bool-cases (applies path_match tenant model o)) [
    | inr q ↦ rw q (resolve_loop-chosen ov ovs h.1)
    | inl q ↦
        rw (q, consider-best_of o (best_of ov) h.0)
          (elim (Bool-cases (ltb_ℤ (pos (score o)) (pos (score ov)))) [
            | inl l ↦ rw l (
                resolve_loop-chosen ov ovs h.1
                ∙ prefer_lower ov o (most_specific ovs) (ground arith))
            | inr g ↦ rw g (
                resolve_loop-chosen o ovs h.1
                ∙ prefer_higher ov o (most_specific ovs) (ground arith))
          ])
  ]

  or_best_some :
      (b : Best) (o : RateLimitOverride) (rest : Option RateLimitOverride)
      → or_best (best_of o) (prefer o rest) ≡ or_best b (prefer o rest)
  or_best_some b o none = refl
  or_best_some b o (some r) = ground arith

  abbrev start : ℤ → ℤ → Best
  start rpm burst = record { rpm = rpm; burst = burst; score = negsuc 0 }

  consider-start :
      (o : RateLimitOverride) (rpm burst : ℤ)
      → SetsBoth o
      → consider path_match tenant model o (start rpm burst) ≡ best_of o
  consider-start o rpm burst h = consider-best_of o (start rpm burst) h ∙ ground arith

  resolve_loop-start :
      (rpm burst : ℤ) (ovs : List RateLimitOverride)
      → All SetsBoth ovs
      → resolve_loop path_match tenant model ovs (start rpm burst)
        ≡ or_best (start rpm burst) (most_specific ovs)
  unfolding resolve_loop most_specific
  resolve_loop-start rpm burst [] h = refl
  resolve_loop-start rpm burst (o ∷ ovs) h = elim (Bool-cases (applies path_match tenant model o)) [
    | inr q ↦ rw q (resolve_loop-start rpm burst ovs h.1)
    | inl q ↦
        rw (q, consider-start o rpm burst h.0)
          (resolve_loop-chosen o ovs h.1 ∙ or_best_some (start rpm burst) o (most_specific ovs))
  ]

  -- When every override sets both limits, `Resolve` returns those of the most specific override
  -- that applies to the tenant and the model, the last of them if several are as specific, and the
  -- default limits if none applies.
  pub resolve-most_specific :
      (o : OverrideStore)
      → All SetsBoth o.overrides
      → resolve path_match tenant model o ≡ elim (most_specific o.overrides) [
        | none ↦ (o.default_rpm, o.default_burst)
        | some ov ↦ (ov.rpm, ov.burst)
      ]
  unfolding resolve
  resolve-most_specific o h =
      ground (arith, resolve_loop-start o.default_rpm o.default_burst o.overrides h)
