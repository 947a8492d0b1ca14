-- ===== src/Health/Ready.antt =====
-- How long one refresh of the readiness decides.
use llm_api_gateway.Prelude.{
  ℕ, ◌+◌, ◌≤◌, ◌<◌, ◌≡◌, refl, true, pos_part, none, some, List, [], ◌∷◌, All, arith,
}
use llm_api_gateway.Health.{
  ReadinessHandler, Check, Readiness, is_stale, cached_snapshot, refresh_snapshot, snapshot_of,
  write_readiness, serve_from, refresh_from, serve_ready,
}

-- A later probe: its time, and the checks that it would find, were it to make them.
pub record Probe : Type 0 where
  pub now : ℕ
  pub later : ℕ
  pub checks : List Check

-- The answers to the probes, one after the other.
unfoldable pub run : ReadinessHandler → List Probe → List Readiness
run h [] = []
run h (p ∷ ps) = let got = serve_ready p.now p.later p.checks h in got.1 ∷ run got.0 ps

abbrev pub IsReady : ReadinessHandler → Type 0
IsReady h = h.ready ≡ true

cached_snapshot-last :
    (h : ReadinessHandler) (at now : ℕ)
    → h.last.at ≡ some at
    → at ≤ now
    → now < at + pos_part h.options.readiness_cache_ttl
    → cached_snapshot now h ≡ some h.last
unfolding cached_snapshot is_stale
cached_snapshot-last h at now e i k = ground (arith, e)

serve_ready-cached :
    (h : ReadinessHandler) (at : ℕ) (p : Probe)
    → IsReady h
    → h.last.at ≡ some at
    → at ≤ p.now
    → p.now < at + pos_part h.options.readiness_cache_ttl
    → serve_ready p.now p.later p.checks h ≡ (h, write_readiness h.last)
unfolding serve_ready serve_from
serve_ready-cached h at p r e i k = rw (cached_snapshot-last h at p.now e i k) (ground (arith, r))

run-cached :
    (h : ReadinessHandler) (at : ℕ) (ps : List Probe)
    → IsReady h
    → h.last.at ≡ some at
    → All (λ (p : Probe). (at ≤ p.now) × (p.now < at + pos_part h.options.readiness_cache_ttl)) ps
    → All (λ a. a ≡ write_readiness h.last) (run h ps)
unfolding run
run-cached h at [] r e k = tt
run-cached h at (p ∷ ps) r e ((i, k), ks) =
    rw (serve_ready-cached h at p r e i k) (refl, run-cached h at ps r e ks)

serve_ready-refreshed :
    (h : ReadinessHandler) (now later : ℕ) (checks : List Check)
    → IsReady h
    → cached_snapshot now h ≡ none
    → let s = snapshot_of h.options.skip_expensive_checks later checks in
      serve_ready now later checks h ≡ (record h { last = s }, write_readiness s)
unfolding serve_ready serve_from refresh_snapshot refresh_from
serve_ready-refreshed h now later checks r e = rw e (ground (arith, r))

-- When a probe refreshes the readiness, every later probe that comes before the lifetime of this refresh is over,
-- counted from the end of its checks, gets the same answer, whatever the providers would say by then: if all
-- checks of the refreshing probe failed, all of these probes are told that the gateway is not ready.
pub serve_ready-repeated :
    (h : ReadinessHandler) (now later : ℕ) (checks : List Check) (ps : List Probe)
    → IsReady h
    → cached_snapshot now h ≡ none
    → All
        (λ (p : Probe). (later ≤ p.now) × (p.now < later + pos_part h.options.readiness_cache_ttl))
        ps
    → let got = serve_ready now later checks h in All (λ a. a ≡ got.1) (run got.0 ps)
unfolding snapshot_of
serve_ready-repeated h now later checks ps r e k =
    rw (serve_ready-refreshed h now later checks r e) (
      run-cached (record h { last = snapshot_of h.options.skip_expensive_checks later checks })
        later ps r refl k)
