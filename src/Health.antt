-- ===== src/Health.antt =====
-- internal/proxy/health.go: liveness, readiness and the report on providers. The checks of one refresh
-- run at once; here they are a list in the order in which they end, each with its error if it has
-- one. `now` is `time.Now()`; the zero time is `none`.
pub mod Ready
pub mod Fresh
use llm_api_gateway.Prelude.{
  ℕ, ◌+◌, ◌-◌, Bool, true, false, not, ◌&&◌, ◌||◌, ℤ, pos, pos_part, ltb, leb, leb_ℤ, ◌==◌, String,
  str_eq, Option, none, some, List, [], ◌∷◌, Dict, insert, length, if◌then◌else◌,
}

pub record HealthOptions : Type 0 where
  pub readiness_cache_ttl : ℤ
  pub check_timeout : ℤ
  pub provider_timeout : ℤ
  pub skip_expensive_checks : Bool

-- `DefaultHealthOptions`, with the three constants
abbrev pub default_health_options : HealthOptions
default_health_options = record {
  readiness_cache_ttl = pos 15_000_000_000;
  check_timeout = pos 10_000_000_000;
  provider_timeout = pos 3_000_000_000;
  skip_expensive_checks = false;
}

abbrev or_default : ℤ → ℤ → ℤ
or_default d n = if leb_ℤ n (pos 0) then d else n

unfoldable pub normalize_health_options : HealthOptions → HealthOptions
normalize_health_options o = record o {
  readiness_cache_ttl = or_default default_health_options.readiness_cache_ttl o.readiness_cache_ttl;
  check_timeout = or_default default_health_options.check_timeout o.check_timeout;
  provider_timeout = or_default default_health_options.provider_timeout o.provider_timeout;
}

-- The field `error` is empty where there is none.
pub record ProviderStatus : Type 0 where
  pub status : String
  pub error : String

pub record ReadinessSnapshot : Type 0 where
  pub at : Option ℕ
  pub healthy : ℕ
  pub total : ℕ
  pub providers : Dict ProviderStatus

abbrev pub empty_snapshot : ReadinessSnapshot
empty_snapshot = record { at = none; healthy = 0; total = 0; providers = [] }

-- `ready` is the flag of the `HealthHandler`; it is true where there is no such handler.
pub record ReadinessHandler : Type 0 where
  pub ready : Bool
  pub options : HealthOptions
  pub last : ReadinessSnapshot

-- `NewReadinessHandlerWithOptions`
unfoldable pub new_readiness_handler : HealthOptions → ReadinessHandler
unfolding normalize_health_options
new_readiness_handler o = record {
  ready = true;
  options = normalize_health_options o;
  last = empty_snapshot;
}

-- `SetReady`
unfoldable pub set_ready : Bool → ReadinessHandler → ReadinessHandler
set_ready v h = record h { ready = v }

unfoldable pub set_options : HealthOptions → ReadinessHandler → ReadinessHandler
unfolding normalize_health_options
set_options o h = record h { options = normalize_health_options o; last = empty_snapshot }

-- `h.last.at.IsZero() || time.Since(h.last.at) >= ttl`
unfoldable pub is_stale : ℕ → ℤ → Option ℕ → Bool
is_stale now ttl none = true
is_stale now ttl (some at) = leb_ℤ ttl (pos (now - at))

unfoldable pub cached_snapshot : ℕ → ReadinessHandler → Option ReadinessSnapshot
unfolding is_stale
cached_snapshot now h =
    if is_stale now h.options.readiness_cache_ttl h.last.at then none else some h.last

-- The outcome of one check: a provider, and the error of its `HealthCheck` (`none` is nil).
pub record Check : Type 0 where
  pub name : String
  pub error : Option String

unfoldable pub status_of : Option String → ProviderStatus
status_of none = record { status = "healthy"; error = "" }
status_of (some e) = record { status = "unhealthy"; error = e }

unfoldable pub is_skipped : Bool → Check → Bool
is_skipped skip c = skip && str_eq c.name "anthropic"

-- `results`
unfoldable pub results_of : Bool → List Check → Dict ProviderStatus → Dict ProviderStatus
unfolding status_of is_skipped
results_of skip [] d = d
results_of skip (c ∷ cs) d =
    let status : ProviderStatus =
      if is_skipped skip c then record { status = "skipped"; error = "" } else status_of c.error in
    results_of skip cs (insert c.name status d)

unfoldable pub passes : Option String → Bool
passes none = true
passes (some e) = false

-- `healthy`
unfoldable pub count_healthy : Bool → List Check → ℕ
unfolding is_skipped passes
count_healthy skip [] = 0
count_healthy skip (c ∷ cs) =
    let rest = count_healthy skip cs in
    if is_skipped skip c || passes c.error then rest + 1 else rest

unfoldable pub snapshot_of : Bool → ℕ → List Check → ReadinessSnapshot
unfolding results_of count_healthy
snapshot_of skip later checks = record {
  at = some later;
  healthy = count_healthy skip checks;
  total = length checks;
  providers = results_of skip checks [];
}

unfoldable pub refresh_from :
    ℕ
    → List Check
    → ReadinessHandler
    → Option ReadinessSnapshot
    → ReadinessHandler × ReadinessSnapshot
unfolding snapshot_of
refresh_from later checks h (some s) = (h, s)
refresh_from later checks h none =
    let s = snapshot_of h.options.skip_expensive_checks later checks in (record h { last = s }, s)

-- `refreshSnapshot`, after the lock: the checks end at the time `later`.
unfoldable pub refresh_snapshot :
    ℕ → ℕ → List Check → ReadinessHandler → ReadinessHandler × ReadinessSnapshot
unfolding cached_snapshot refresh_from
refresh_snapshot now later checks h = refresh_from later checks h (cached_snapshot now h)

pub data Readiness : Type 0 where
  draining : Readiness
  not_ready ready : ReadinessSnapshot → Readiness

-- `writeReadiness`; all but `ready` are sent with the status 503.
unfoldable pub write_readiness : ReadinessSnapshot → Readiness
write_readiness s = if s.healthy == 0 && ltb 0 s.total then not_ready s else ready s

unfoldable pub serve_from :
    ℕ → ℕ → List Check → ReadinessHandler → Option ReadinessSnapshot → ReadinessHandler × Readiness
unfolding refresh_snapshot write_readiness
serve_from now later checks h (some s) = (h, write_readiness s)
serve_from now later checks h none =
    let got = refresh_snapshot now later checks h in (got.0, write_readiness got.1)

-- `ServeHTTP` of the readiness handler, with the checks that a refresh would make.
unfoldable pub serve_ready : ℕ → ℕ → List Check → ReadinessHandler → ReadinessHandler × Readiness
unfolding serve_from
serve_ready now later checks h =
    if not h.ready then (h, draining) else serve_from now later checks h (cached_snapshot now h)

unfoldable pub is_degraded : Dict ProviderStatus → Bool
is_degraded [] = false
is_degraded ((name, v) ∷ rest) =
    let later = is_degraded rest in if not (str_eq v.status "healthy") then true else later

-- `ServeHTTP` of `HealthProvidersHandler`: the statuses, and whether "overall" is "degraded".
unfoldable pub serve_providers : HealthOptions → List Check → Dict ProviderStatus × Bool
unfolding results_of is_degraded
serve_providers o checks =
    let results = results_of o.skip_expensive_checks checks [] in (results, is_degraded results)
