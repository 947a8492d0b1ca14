-- ===== src/Pricing.antt =====
-- internal/pricing/catalog.go. The code computes in float64 USD; here rates are whole numbers of a
-- unit that the reader may choose, per million tokens, and costs are exact, in millionths of that
-- unit: `perMillion(tokens, rate)` is `tokens * rate`. `path.Match` is a parameter (`none` is its
-- error), and so is `strings.EqualFold`. A catalog holds no negative rate, as `new_catalog` refuses
-- one, so its rates are numbers. `EstimateChat` is only called with counts that are not negative.
pub mod Best
pub mod Cover
use llm_api_gateway.Prelude.{
  ℕ, ◌+◌, ◌*◌, Bool, true, false, not, ◌&&◌, ◌||◌, ℤ, pos, pos_part, ltb, ltb_ℤ, ◌==◌, String,
  text_ltb, str_eq, Option, none, some, List, [], ◌∷◌, map, pick_loop, if◌then◌else◌,
}

-- A `Rule` as the configuration gives it.
pub record RuleConfig : Type 0 where
  pub provider : String
  pub model : String
  pub input_per_million : ℤ
  pub output_per_million : ℤ
  pub embedding_per_million : ℤ

-- A `Rule` of a catalog.
pub record Rule : Type 0 where
  pub provider : String
  pub model : String
  pub input_per_million : ℕ
  pub output_per_million : ℕ
  pub embedding_per_million : ℕ

pub record Estimate : Type 0 where
  pub usd : ℕ
  pub known : Bool
  pub currency : String
  pub version : String

-- `unknown_price` stands for `ErrUnknownPrice`, beside which an estimate is returned too.
pub data Priced : Type 0 where
  priced : Estimate → Priced
  unknown_price : Estimate → Priced

abbrev pub estimate_of : Priced → Estimate
estimate_of (priced e) = e
estimate_of (unknown_price e) = e

pub record Catalog : Type 0 where
  pub rules : List Rule
  pub fallback : ℕ
  pub currency : String
  pub version : String
  pub unknown : String

pub data CatalogError : Type 0 where
  negative_fallback unsupported_currency unknown_policy : CatalogError
  missing_names negative_rate no_positive_rate : CatalogError

-- The checks of one rule, in order; `none` if it passes.
unfoldable pub check_rule : RuleConfig → Option CatalogError
check_rule r =
    if str_eq r.provider "" || str_eq r.model ""
    then some missing_names
    else if ltb_ℤ r.input_per_million (pos 0)
        || ltb_ℤ r.output_per_million (pos 0)
        || ltb_ℤ r.embedding_per_million (pos 0)
    then some negative_rate
    else if pos_part r.input_per_million == 0
        && pos_part r.output_per_million == 0
        && pos_part r.embedding_per_million == 0
    then some no_positive_rate
    else none

unfoldable pub check_rules : List RuleConfig → Option CatalogError
unfolding check_rule
check_rules [] = none
check_rules (r ∷ rs) =
    let rest = check_rules rs in elim (check_rule r) [ some e ↦ some e | none ↦ rest ]

abbrev rule_of : RuleConfig → Rule
rule_of r = record {
  provider = r.provider;
  model = r.model;
  input_per_million = pos_part r.input_per_million;
  output_per_million = pos_part r.output_per_million;
  embedding_per_million = pos_part r.embedding_per_million;
}

-- The order of the sort: by provider, then by model.
unfoldable pub rule_ltb : Rule → Rule → Bool
rule_ltb a b =
    if not (str_eq a.provider b.provider)
    then text_ltb a.provider b.provider
    else text_ltb a.model b.model

-- `sort.SliceStable`: a rule goes in front of the first of the later rules that is not less.
unfoldable pub insert_rule : Rule → List Rule → List Rule
unfolding rule_ltb
insert_rule r [] = r ∷ []
insert_rule r (s ∷ ss) = if rule_ltb s r then s ∷ insert_rule r ss else r ∷ s ∷ ss

unfoldable pub sort_rules : List Rule → List Rule
unfolding insert_rule
sort_rules [] = []
sort_rules (r ∷ rs) = insert_rule r (sort_rules rs)

pub data CatalogResult : Type 0 where
  ok : Catalog → CatalogResult
  err : CatalogError → CatalogResult

-- `NewCatalog` below its defaults for an empty currency and an empty policy
unfoldable pub build_catalog :
    (String → String → Bool) → List RuleConfig → ℤ → String → String → String → CatalogResult
unfolding check_rules sort_rules
build_catalog equal_fold rules fallback currency version policy =
    if ltb_ℤ fallback (pos 0)
    then err negative_fallback
    else if not (equal_fold currency "USD")
    then err unsupported_currency
    else if not (str_eq policy "fallback") && not (str_eq policy "reject")
    then err unknown_policy
    else elim (check_rules rules) [
      | some e ↦ err e
      | none ↦ ok (record {
        rules = sort_rules (map rule_of rules);
        fallback = pos_part fallback;
        currency = currency;
        version = version;
        unknown = policy;
      })
    ]

unfoldable pub new_catalog :
    (String → String → Bool) → List RuleConfig → ℤ → String → String → String → CatalogResult
unfolding build_catalog
new_catalog equal_fold rules fallback currency version policy =
    build_catalog equal_fold rules fallback (if str_eq currency "" then "USD" else currency) version
      (if str_eq policy "" then "fallback" else policy)

unfoldable pub unknown_estimate : Catalog → ℕ → Priced
unknown_estimate c tokens =
    if str_eq c.unknown "reject"
    then unknown_price
        (record { usd = 0; known = false; currency = c.currency; version = c.version })
    else priced (record {
      usd = tokens * c.fallback;
      known = false;
      currency = c.currency;
      version = c.version;
    })

unfoldable pub rule_rank : Rule → String → ℕ
rule_rank r model = if str_eq r.model model then 2 else 1

abbrev pub rate_of : Bool → Rule → ℕ
rate_of embedding r =
    if not embedding then r.input_per_million + r.output_per_million else r.embedding_per_million

abbrev pub chat_cost : ℕ → ℕ → Rule → ℕ
chat_cost prompt completion r = prompt * r.input_per_million + completion * r.output_per_million

-- The estimate for a price that is known.
abbrev pub known_estimate : Catalog → ℕ → Priced
known_estimate c usd =
    priced (record { usd = usd; known = true; currency = c.currency; version = c.version })

module _ (path_match : String → String → Option Bool) where
  unfoldable pub model_matches : String → String → Bool
  model_matches pattern model =
      if str_eq pattern model
      then true
      else elim (path_match pattern model) [ none ↦ false | some matched ↦ matched ]

  module _ (model : String) where
    -- The three tests that let `bestRule` pass over a rule.
    unfoldable pub usable : String → Bool → Rule → Bool
    usable provider embedding r =
        (str_eq provider "" || str_eq r.provider provider)
        && model_matches r.model model
        && ltb 0 (rate_of embedding r)

    -- Whether a rule takes the place of the best one so far.
    unfoldable pub improves : Bool → Rule → Rule → Bool
    improves embedding r best =
        ltb (rule_rank best model) (rule_rank r model)
        || (rule_rank r model == rule_rank best model
            && ltb (rate_of embedding best) (rate_of embedding r))

    unfoldable pub best_rule : String → Bool → List Rule → Option Rule
    best_rule provider embedding rules =
        pick_loop (usable provider embedding) (improves embedding) rules none

    -- `promptTokens` and `completionTokens` are set to 0 if they are negative.
    unfoldable pub chat : Catalog → String → ℤ → ℤ → Priced
    chat c provider prompt completion = elim (best_rule provider false c.rules) [
      | some r ↦ known_estimate c (chat_cost (pos_part prompt) (pos_part completion) r)
      | none ↦ unknown_estimate c (pos_part prompt + pos_part completion)
    ]

    unfoldable pub embedding_cost : Catalog → String → ℤ → Priced
    embedding_cost c provider tokens = elim (best_rule provider true c.rules) [
      | some r ↦ known_estimate c (pos_part tokens * r.embedding_per_million)
      | none ↦ unknown_estimate c (pos_part tokens)
    ]

    -- Whether a rule takes the place of the dearest one so far.
    unfoldable pub dearer : ℕ → ℕ → Rule → Rule → Bool
    dearer prompt completion r best =
        ltb (chat_cost prompt completion best) (chat_cost prompt completion r)
        || (chat_cost prompt completion r == chat_cost prompt completion best
            && ltb (rule_rank best model) (rule_rank r model))

    -- The rule that the loop of `EstimateChat` ends with.
    unfoldable pub dearest_rule : ℕ → ℕ → List Rule → Option Rule
    dearest_rule prompt completion rules =
        pick_loop (λ r. model_matches r.model model) (dearer prompt completion) rules none

    -- `EstimateChat`
    unfoldable pub estimate_chat : Catalog → ℕ → ℕ → Priced
    estimate_chat c prompt completion = elim (dearest_rule prompt completion c.rules) [
      | some r ↦ known_estimate c (chat_cost prompt completion r)
      | none ↦ unknown_estimate c (prompt + completion)
    ]
