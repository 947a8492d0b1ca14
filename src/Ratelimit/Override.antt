-- ===== src/Ratelimit/Override.antt =====
-- internal/ratelimit/override.go. `path.Match` is a parameter: `none` stands for its error.
pub mod Specificity
use llm_api_gateway.Prelude.{
  ℕ, ◌+◌, Bool, true, false, ◌&&◌, ◌||◌, ℤ, pos, negsuc, ltb_ℤ, String, str_eq, contains, Option,
  none, some, List, [], ◌∷◌, if◌then◌else◌,
}

-- `config.RateLimitOverride`
pub record RateLimitOverride : Type 0 where
  pub tenant : String
  pub model_pattern : String
  pub rpm : ℤ
  pub burst : ℤ

pub record OverrideStore : Type 0 where
  pub default_rpm : ℤ
  pub default_burst : ℤ
  pub overrides : List RateLimitOverride

-- `NewOverrideStore`, and `Reload`, which writes the same three fields.
unfoldable pub new_override_store : ℤ → ℤ → List RateLimitOverride → OverrideStore
new_override_store rpm burst overrides = record {
  default_rpm = rpm;
  default_burst = burst;
  overrides = overrides;
}

unfoldable pub match_specificity : String → String → ℕ
match_specificity pattern value =
    if str_eq pattern "" || str_eq pattern "*" then 0 else if str_eq pattern value then 2 else 1

-- The two results of `Resolve`, and `bestScore`.
pub record Best : Type 0 where
  pub rpm : ℤ
  pub burst : ℤ
  pub score : ℤ

module _ (path_match : String → String → Option Bool) where
  unfoldable pub match_pattern : String → String → Bool
  match_pattern pattern s =
      if str_eq pattern s
      then true
      else if contains pattern "*"
      then elim (path_match pattern s) [ none ↦ false | some matched ↦ matched ]
      else false

  module _ (tenant model : String) where
    -- `tenantMatch && modelMatch`
    unfoldable pub applies : RateLimitOverride → Bool
    applies ov =
        (str_eq ov.tenant "" || str_eq ov.tenant tenant || str_eq ov.tenant "*")
        && (str_eq ov.model_pattern ""
            || str_eq ov.model_pattern "*"
            || match_pattern ov.model_pattern model)

    unfoldable pub score_of : RateLimitOverride → ℕ
    score_of ov = match_specificity ov.tenant tenant + match_specificity ov.model_pattern model

    -- The body of the loop for an override that applies.
    unfoldable pub consider : RateLimitOverride → Best → Best
    consider ov best = if ltb_ℤ (pos (score_of ov)) best.score then best else record {
      rpm = if ltb_ℤ (pos 0) ov.rpm then ov.rpm else best.rpm;
      burst = if ltb_ℤ (pos 0) ov.burst then ov.burst else best.burst;
      score = pos (score_of ov);
    }

    unfoldable pub resolve_loop : List RateLimitOverride → Best → Best
    unfolding consider
    resolve_loop [] best = best
    resolve_loop (ov ∷ ovs) best = resolve_loop ovs (if applies ov then consider ov best else best)

    unfoldable pub resolve : OverrideStore → ℤ × ℤ
    unfolding resolve_loop
    resolve o =
        let start : Best = record {
          rpm = o.default_rpm;
          burst = o.default_burst;
          score = negsuc 0;
        } in
        let best = resolve_loop o.overrides start in (best.rpm, best.burst)
