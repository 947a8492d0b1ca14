-- ===== src/Health/Fresh.antt =====
-- Which checks an answer of the readiness handler rests on.
use mathlib.Core.List.{Memᴰ}
use llm_api_gateway.Prelude.{
  ℕ, ◌-◌, ◌<◌, ◌≡◌, ◌≢◌, refl, ap, sym, subst, ◌∙◌, Bool, Bool-cases, true, false, not, ◌&&◌, ◌||◌,
  ◌⊎◌, inl, inr, pos_part, str_eq, eq_iff, Option, none, some, List, [], ◌∷◌, length, All, arith,
  if◌then◌else◌, ◌==◌,
}
use llm_api_gateway.Health.{
  HealthOptions, ReadinessHandler, ReadinessSnapshot, Check, Readiness, draining, not_ready, ready,
  is_stale, cached_snapshot, is_skipped, passes, count_healthy, snapshot_of, refresh_from,
  refresh_snapshot, write_readiness, serve_from, serve_ready, set_ready, set_options,
  new_readiness_handler,
}
use llm_api_gateway.Health.Ready.{Probe}

-- What happens to the handler: a probe, or a change of its flag or its options.
pub data Event : Type 0 where
  probes : Probe → Event
  sets_ready : Bool → Event
  sets_options : HealthOptions → Event

unfoldable pub step : ReadinessHandler → Event → ReadinessHandler
step h (probes p) = (serve_ready p.now p.later p.checks h).0
step h (sets_ready v) = set_ready v h
step h (sets_options o) = set_options o h

unfoldable pub run : ReadinessHandler → List Event → ReadinessHandler
unfolding step
run h [] = h
run h (e ∷ es) = run (step h e) es

-- The flag that was set last, or `v`.
unfoldable pub last_flag : Bool → List Event → Bool
last_flag v [] = v
last_flag v (sets_ready w ∷ es) = last_flag w es
last_flag v (_ ∷ es) = last_flag v es

-- A check that counts as healthy.
abbrev pub Passes : Bool → Check → Type 0
Passes skip c = (c.error ≡ none) ⊎ ((skip ≡ true) × (c.name ≡ "anthropic"))

-- What the checks of a probe say: not ready, if there are checks and none passes, and ready otherwise.
abbrev pub IsVerdict : Bool → List Check → Readiness → Type 0
IsVerdict skip cs a =
    ((cs ≢ [])
      × All (λ c. Passes skip c → ⊥) cs
      × ((s : ReadinessSnapshot) × (a ≡ not_ready s) × (s.total ≡ length cs)))
    ⊎ (((cs ≡ []) ⊎ ((c : Check) × Memᴰ c cs × Passes skip c))
        × ((s : ReadinessSnapshot) × (a ≡ ready s) × (s.total ≡ length cs)))

passes-error : (o : Option _) → ((passes o ≡ true) × (o ≡ none)) ⊎ ((passes o ≡ false) × (o ≢ none))
unfolding passes
passes-error none = inl (refl, refl)
passes-error (some e) = inr (refl, λ h. cc)

Passes-cases :
    (skip : Bool) (c : Check)
    → (((is_skipped skip c || passes c.error) ≡ true) × Passes skip c)
      ⊎ (((is_skipped skip c || passes c.error) ≡ false) × (Passes skip c → ⊥))
unfolding is_skipped
Passes-cases skip c = elim (passes-error c.error) [
  | inl (p, e) ↦ inl (ground (arith, p), inl e)
  | inr (p, n) ↦ elim (Bool-cases (skip && str_eq c.name "anthropic")) [
    | inl q ↦
        inl
          (ground (arith, q), inr (ground (arith, q), ground (arith, q, eq_iff c.name "anthropic")))
    | inr q ↦ inr (
      ground (arith, q, p),
      λ h. elim h [ inl e ↦ n e | inr (s, e) ↦ ground (arith, q, s, e, eq_iff c.name "anthropic") ],
    )
  ]
]

count_healthy-cases :
    (skip : Bool) (cs : List Check)
    → ((count_healthy skip cs ≡ 0) × All (λ c. Passes skip c → ⊥) cs)
      ⊎ (((count_healthy skip cs == 0) ≡ false) × ((c : Check) × Memᴰ c cs × Passes skip c))
unfolding count_healthy
count_healthy-cases skip [] = inl (refl, tt)
count_healthy-cases skip (c ∷ cs) = elim (Passes-cases skip c) [
  | inl (q, p) ↦ inr (rw q (ground arith), (c, Memᴰ.head refl, p))
  | inr (q, n) ↦ elim (count_healthy-cases skip cs) [
    | inl (z, ns) ↦ inl (rw q z, (n, ns))
    | inr (z, (d, m, p)) ↦ inr (rw q z, (d, Memᴰ.tail m, p))
  ]
]

snapshot_of-IsVerdict :
    (skip : Bool) (later : ℕ) (cs : List Check)
    → IsVerdict skip cs (write_readiness (snapshot_of skip later cs))
unfolding snapshot_of write_readiness count_healthy
snapshot_of-IsVerdict skip later [] = inr (inl refl, (snapshot_of skip later [], refl, refl))
snapshot_of-IsVerdict skip later (c ∷ cs) = elim (count_healthy-cases skip (c ∷ cs)) [
  | inl (z, ns) ↦ inl (λ e. cc, ns, (snapshot_of skip later (c ∷ cs), ground (arith, z), refl))
  | inr (z, found) ↦ inr (inr found, (snapshot_of skip later (c ∷ cs), ground (arith, z), refl))
]

-- The snapshot is that of a probe of the history, under the options in force, or there is none.
abbrev pub IsRecent : List Event → ReadinessHandler → Type 0
IsRecent es h =
    (h.last.at ≡ none)
    ⊎ ((q : Probe) × Memᴰ (probes q) es
        × (h.last ≡ snapshot_of h.options.skip_expensive_checks q.later q.checks))

serve_ready-last :
    (p : Probe) (h : ReadinessHandler)
    → let h' = (serve_ready p.now p.later p.checks h).0 in
      (h' ≡ h)
      ⊎ (h' ≡ record h { last = snapshot_of h.options.skip_expensive_checks p.later p.checks })
unfolding serve_ready serve_from refresh_snapshot refresh_from
serve_ready-last p h = from_cache h.ready (cached_snapshot p.now h) refl
  where
    from_cache :
        (flag : Bool) (o : Option ReadinessSnapshot)
        → cached_snapshot p.now h ≡ o
        → let h' = (if not flag then (h, draining) else serve_from p.now p.later p.checks h o).0 in
          (h' ≡ h)
          ⊎ (h' ≡ record h { last = snapshot_of h.options.skip_expensive_checks p.later p.checks })
    from_cache false o e = inl refl
    from_cache true (some s) e = inl refl
    from_cache true none e = inr (rw e refl)

step-IsRecent :
    (all : List Event) (h : ReadinessHandler) (e : Event)
    → Memᴰ e all
    → IsRecent all h
    → IsRecent all (step h e)
unfolding step set_ready set_options
step-IsRecent all h (probes p) m r = elim (serve_ready-last p h) [
  | inl same ↦ subst (IsRecent all) (sym same) r
  | inr new ↦ subst (IsRecent all) (sym new) (inr (p, m, refl))
]
step-IsRecent all h (sets_ready v) m r = r
step-IsRecent all h (sets_options o) m r = inl refl

run-IsRecent :
    (all es : List Event) (h : ReadinessHandler)
    → ((e : Event) → Memᴰ e es → Memᴰ e all)
    → IsRecent all h
    → IsRecent all (run h es)
unfolding run
run-IsRecent all [] h sub r = r
run-IsRecent all (e ∷ es) h sub r =
    run-IsRecent all es (step h e) (λ d m. sub d (Memᴰ.tail m))
      (step-IsRecent all h e (sub e (Memᴰ.head refl)) r)

run-flag : (es : List Event) (h : ReadinessHandler) → (run h es).ready ≡ last_flag h.ready es
unfolding run step last_flag set_ready set_options
run-flag [] h = refl
run-flag (sets_ready v ∷ es) h = run-flag es (set_ready v h)
run-flag (sets_options o ∷ es) h = run-flag es (set_options o h)
run-flag (probes p ∷ es) h =
    let h' = (serve_ready p.now p.later p.checks h).0 in
    let same : h'.ready ≡ h.ready = elim (serve_ready-last p h) [
      | inl e ↦ ap (λ (x : ReadinessHandler). x.ready) e
      | inr e ↦ ap (λ (x : ReadinessHandler). x.ready) e
    ] in
    run-flag es h' ∙ ap (λ v. last_flag v es) same

cached_snapshot-some :
    (now : ℕ) (h : ReadinessHandler) (s : ReadinessSnapshot)
    → cached_snapshot now h ≡ some s
    → (h.last ≡ s) × (is_stale now h.options.readiness_cache_ttl h.last.at ≡ false)
unfolding cached_snapshot
cached_snapshot-some now h s e = ground (arith, e)

-- The checks on which the answer `a` to the probe `p` rests, after a history: its own, or those of an
-- earlier probe that ended less than the lifetime of an entry ago.
abbrev pub IsFresh : List Event → ReadinessHandler → Probe → Readiness → Type 0
IsFresh es h p a =
    (q : Probe) × ((q ≡ p)
      ⊎ (Memᴰ (probes q) es × (p.now - q.later < pos_part h.options.readiness_cache_ttl)))
    × IsVerdict h.options.skip_expensive_checks q.checks a

-- The answer to the probe `p`.
abbrev pub IsFounded : List Event → ReadinessHandler → Bool → Probe → Readiness → Type 0
IsFounded es h flag p a = ((flag ≡ false) × (a ≡ draining)) ⊎ ((flag ≡ true) × IsFresh es h p a)

not_stale :
    (now later : ℕ) (h : ReadinessHandler)
    → is_stale now h.options.readiness_cache_ttl (some later) ≡ false
    → now - later < pos_part h.options.readiness_cache_ttl
unfolding is_stale
not_stale now later h e = ground (arith, e)

cached-IsFresh :
    (es : List Event) (h : ReadinessHandler) (p : Probe) (s : ReadinessSnapshot)
    → cached_snapshot p.now h ≡ some s
    → IsRecent es h
    → IsFresh es h p (write_readiness s)
unfolding is_stale snapshot_of
cached-IsFresh es h p s e r =
    let (same, fresh) = cached_snapshot-some p.now h s e in
    elim r [
      | inl n ↦ cc (sym (ap (is_stale p.now h.options.readiness_cache_ttl) n) ∙ fresh)
      | inr (q, m, l) ↦ (
        q,
        inr (
          m,
          not_stale p.now q.later h (
              sym (
                ap (λ (x : ReadinessSnapshot). is_stale p.now h.options.readiness_cache_ttl x.at) l)
              ∙ fresh),
        ),
        subst (λ x. IsVerdict h.options.skip_expensive_checks q.checks (write_readiness x))
            (sym l ∙ same) (snapshot_of-IsVerdict h.options.skip_expensive_checks q.later q.checks),
      )
    ]

serve_ready-IsFounded :
    (es : List Event) (h : ReadinessHandler) (p : Probe)
    → IsRecent es h
    → IsFounded es h h.ready p (serve_ready p.now p.later p.checks h).1
unfolding serve_ready serve_from refresh_snapshot refresh_from
serve_ready-IsFounded es h p r = from_cache h.ready (cached_snapshot p.now h) refl
  where
    from_cache :
        (flag : Bool) (o : Option ReadinessSnapshot)
        → cached_snapshot p.now h ≡ o
        → IsFounded es h flag p
            (if not flag then (h, draining) else serve_from p.now p.later p.checks h o).1
    from_cache false o e = inl (refl, refl)
    from_cache true (some s) e = inr (refl, cached-IsFresh es h p s e r)
    from_cache true none e = inr (
      refl,
      (p, inl refl, rw e (snapshot_of-IsVerdict h.options.skip_expensive_checks p.later p.checks)),
    )

-- After every history of probes, of changes of the flag by `SetReady` and of the options by
-- `SetOptions` on a new handler, a probe is told that the gateway is draining exactly if the flag was
-- last cleared. Otherwise the answer is the verdict, under the options in force, on the checks of this
-- probe or of one of the history whose checks ended less than the cache lifetime ago: not ready,
-- if there were checks and none passed, and ready otherwise.
pub run-IsFounded :
    (o : HealthOptions) (es : List Event) (p : Probe)
    → let h = run (new_readiness_handler o) es in
      IsFounded es h (last_flag true es) p (serve_ready p.now p.later p.checks h).1
unfolding new_readiness_handler
run-IsFounded o es p =
    let h = run (new_readiness_handler o) es in
    subst (λ flag. IsFounded es h flag p (serve_ready p.now p.later p.checks h).1)
      (run-flag es (new_readiness_handler o))
      (serve_ready-IsFounded es h p
        (run-IsRecent es es (new_readiness_handler o) (λ e m. m) (inl refl)))
