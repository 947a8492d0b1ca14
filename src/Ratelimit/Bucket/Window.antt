-- ===== src/Ratelimit/Bucket/Window.antt =====
-- How many tokens a bucket gives out in a stretch of time.
use llm_api_gateway.Prelude.{
  ℕ, ap, sym, subst, ℕ, ◌+◌, ◌-◌, ◌*◌, ◌≤◌, ◌≡◌, some, List, [], ◌∷◌, arith, if◌then◌else◌,
}
use native.Mathlib.Nat.{add-mul}
use llm_api_gateway.Ratelimit.Bucket.{Bucket, token, refill, take}

module _ (rpm burst : ℕ) where
  -- The bucket after the requests, each a time and a number of tokens.
  unfoldable pub serve : Bucket → List (ℕ × ℕ) → Bucket
  serve b [] = b
  serve b ((now, n) ∷ reqs) = serve (take rpm burst now n (some b)).0 reqs

  -- The tokens that the requests were granted.
  unfoldable pub granted : Bucket → List (ℕ × ℕ) → ℕ
  granted b [] = 0
  granted b ((now, n) ∷ reqs) =
      let r = take rpm burst now n (some b) in
      let rest = granted r.0 reqs in if r.1 then n + rest else rest

  -- Time does not run backwards from one request to the next.
  abbrev pub Ordered : ℕ → List (ℕ × ℕ) → Type 0
  Ordered t [] = Unit {0}
  Ordered t ((now, n) ∷ reqs) = (t ≤ now) × Ordered now reqs

  take_step :
      (b : Bucket) (now n : ℕ)
      → b.last_refill ≤ now
      → let r = take rpm burst now n (some b) in
        ((if r.1 then n else 0) * token + r.0.tokens ≤ b.tokens + (now - b.last_refill) * rpm)
        × (r.0.last_refill ≡ now)
        × (r.0.tokens ≤ burst * token)
  unfolding take refill
  take_step b now n h = ground arith

  span_add : (s t u : ℕ) → s ≤ t → t ≤ u → (t - s) * rpm + (u - t) * rpm ≡ (u - s) * rpm
  span_add s t u h k = rw (← add-mul (t - s) (u - t) rpm) (ap (λ (x : ℕ). x * rpm) (omega arith))

  serve-accounts :
      (b : Bucket) (reqs : List (ℕ × ℕ))
      → Ordered b.last_refill reqs
      → (granted b reqs * token + (serve b reqs).tokens
          ≤ b.tokens + ((serve b reqs).last_refill - b.last_refill) * rpm)
        × (b.last_refill ≤ (serve b reqs).last_refill)
  unfolding serve granted
  serve-accounts b [] o = (omega arith, omega arith)
  serve-accounts b ((now, n) ∷ reqs) o =
      let r = (take rpm burst now n (some b)).0 in
      let s = take_step b now n o.0 in
      let rest = serve-accounts r reqs (subst (λ (t : ℕ). Ordered t reqs) (sym s.1) o.1) in
      (ground (arith, span_add b.last_refill now (serve r reqs).last_refill), ground arith)

  -- From a bucket that is not overfull, requests in the order of their times are granted no more
  -- tokens than the burst and what the rate adds from the bucket's last refill to the last request.
  pub granted-bound :
      (b : Bucket) (reqs : List (ℕ × ℕ))
      → b.tokens ≤ burst * token
      → Ordered b.last_refill reqs
      → granted b reqs * token ≤ burst * token + ((serve b reqs).last_refill - b.last_refill) * rpm
  granted-bound b reqs h o = omega (arith, serve-accounts b reqs o)
