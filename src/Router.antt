-- ===== src/Router.antt =====
-- internal/proxy/router.go. The regular expressions (`regexp`, `path.Match`) and
-- `strings.ReplaceAll` are parameters. A map is a list of keys and values; where the code ranges over
-- one, any order of the list is the order of one run. Weights are not negative: the configuration
-- refuses others. The mutexes make each operation one step; `rand n` is what `rnd.Intn(n)` returns.
pub mod Resolve
pub mod Weights
pub mod Built
pub mod Known
pub mod Route
pub mod Remap
use Prim.Native.String.{◌++◌ as append}
use llm_api_gateway.Prelude.{
  ℕ, suc, ◌+◌, Bool, true, false, not, ◌&&◌, ◌||◌, ltb, ◌==◌, String, str_eq, contains, Dict,
  lookup, insert, Option, none, some, List, [], ◌∷◌, ◌++◌, get_elem?, length, if◌then◌else◌,
}

-- What the registry uses of a `provider.Provider`.
pub record Provider : Type 0 where
  pub name : String
  pub models : List String

-- The library calls on patterns: `none` is an error of `regexp.Compile` or `path.Match`.
pub record Patterns : Type 0 where
  pub compile : String → Option (String → Bool)
  pub quote_meta : String → String
  pub replace_all : String → String → String → String
  pub path_match : String → String → Option Bool

pub record WeightedEntry : Type 0 where
  pub provider : Provider
  pub weight : ℕ

pub record PatternEntry : Type 0 where
  pub provider : Provider
  pub pattern : String
  pub regex : Option (String → Bool)
  pub is_regex : Bool

pub record WeightedConfig : Type 0 where
  pub provider : String
  pub name : String
  pub weight : ℕ

pub record Registry : Type 0 where
  pub by_name : Dict Provider
  pub by_model : Dict Provider
  pub order : List Provider
  pub aliases : Dict (List String)
  pub weighted : Dict (List WeightedEntry)
  pub patterns : List PatternEntry

-- `ProviderName`
unfoldable pub provider_name : WeightedConfig → String
provider_name w = if not (str_eq w.provider "") then w.provider else w.name

unfoldable pub looks_like_regex : String → Bool
looks_like_regex s =
    contains s ".*" || contains s "^" || contains s "$" || contains s "(" || contains s "|"

unfoldable pub is_pattern : String → Bool
is_pattern s = contains s "*" || contains s "?" || contains s "[" || looks_like_regex s

unfoldable pub total_weight : List WeightedEntry → ℕ
total_weight [] = 0
total_weight (e ∷ es) = e.weight + total_weight es

-- The loop of `pickWeighted`: `acc` is the sum of the weights before the entries, and `last` the
-- provider of the entry before them, which is returned if the draw reaches none.
unfoldable pub pick_from : ℕ → ℕ → Option Provider → List WeightedEntry → Option Provider
pick_from n acc last [] = last
pick_from n acc last (e ∷ es) =
    let rest = pick_from n (acc + e.weight) (some e.provider) es in
    if ltb n (acc + e.weight) then some e.provider else rest

abbrev first_provider : List WeightedEntry → Option Provider
first_provider [] = none
first_provider (e ∷ es) = some e.provider

-- `pickWeighted`; `none` is the panic on no entries, on which the code does not call it.
unfoldable pub pick_weighted : (ℕ → ℕ) → List WeightedEntry → Option Provider
unfolding total_weight pick_from
pick_weighted rand es =
    let total = total_weight es in
    if total == 0 then first_provider es else pick_from (rand total) 0 none es

module _ (lib : Patterns) where
  open lib use {compile, quote_meta, replace_all, path_match}

  -- The glob as a regular expression between `^` and `$`.
  unfoldable pub compile_glob : String → Option (String → Bool) × Bool
  compile_glob pattern =
      let re_str = replace_all (replace_all (quote_meta pattern) "\\*" ".*") "\\?" "." in
      (compile (append "^" (append re_str "$")), false)

  unfoldable pub compile_pattern : String → Option (String → Bool) × Bool
  compile_pattern pattern =
      if looks_like_regex pattern
      then elim (compile pattern) [ some re ↦ (some re, true) | none ↦ compile_glob pattern ]
      else compile_glob pattern

  -- `matched, _ := path.Match(pattern, s)`
  unfoldable pub glob_matches : String → String → Bool
  glob_matches pattern s = elim (path_match pattern s) [ none ↦ false | some matched ↦ matched ]

  unfoldable pub matches_pattern : PatternEntry → String → Bool
  matches_pattern entry model = elim entry.regex [
    | some re ↦ re model
    | none ↦ glob_matches entry.pattern model
  ]

  abbrev pub pattern_entry : Provider → String → PatternEntry
  pattern_entry p model = record {
    provider = p;
    pattern = model;
    regex = (compile_pattern model).0;
    is_regex = (compile_pattern model).1;
  }

  unfoldable pub add_model : Provider → String → Registry → Registry
  add_model p model r =
      if is_pattern model
      then record r { patterns = r.patterns ++ pattern_entry p model ∷ [] }
      else record r { by_model = insert model p r.by_model }

  unfoldable pub add_models : Provider → List String → Registry → Registry
  unfolding add_model
  add_models p [] r = r
  add_models p (model ∷ models) r = add_models p models (add_model p model r)

  unfoldable pub add_provider : Provider → Registry → Registry
  unfolding add_models
  add_provider p r =
      add_models p p.models
        (record r { by_name = insert p.name p r.by_name; order = r.order ++ p ∷ [] })

  unfoldable pub add_providers : List Provider → Registry → Registry
  unfolding add_provider
  add_providers [] r = r
  add_providers (p ∷ ps) r = add_providers ps (add_provider p r)

  -- The entries of a model whose provider is registered.
  unfoldable pub weighted_entries : Dict Provider → List WeightedConfig → List WeightedEntry
  weighted_entries by_name [] = []
  weighted_entries by_name (e ∷ es) =
      let rest = weighted_entries by_name es in
      elim (lookup (provider_name e) by_name) [
        | some p ↦ (record { provider = p; weight = e.weight }) ∷ rest
        | none ↦ rest
      ]

  -- `r.weighted[model] = we`, if `we` is not empty
  unfoldable pub put_weighted : String → List WeightedEntry → Registry → Registry
  put_weighted model [] r = r
  put_weighted model (e ∷ es) r = record r { weighted = insert model (e ∷ es) r.weighted }

  unfoldable pub add_weighted : Dict (List WeightedConfig) → Registry → Registry
  unfolding put_weighted weighted_entries
  add_weighted [] r = r
  add_weighted ((model, es) ∷ ws) r =
      add_weighted ws (put_weighted model (weighted_entries r.by_name es) r)

  abbrev empty_registry : Dict (List String) → Registry
  empty_registry aliases = record {
    by_name = [];
    by_model = [];
    order = [];
    aliases = aliases;
    weighted = [];
    patterns = [];
  }

  -- `NewRegistryWithWeighted`, and `Reload`, which installs a registry that it builds in this way.
  unfoldable pub new_registry :
      List Provider → Dict (List String) → Dict (List WeightedConfig) → Registry
  unfolding add_providers add_weighted
  new_registry providers aliases weighted =
      add_weighted weighted (add_providers providers (empty_registry aliases))

-- `Get`
unfoldable pub get : String → Registry → Option Provider
get name r = lookup name r.by_name

-- `UpdateAliases`
unfoldable pub update_aliases : Dict (List String) → Registry → Registry
update_aliases aliases r = record r { aliases = aliases }
