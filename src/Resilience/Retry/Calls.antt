-- ===== src/Resilience/Retry/Calls.antt =====
-- Which calls `Do` makes, and which error it returns.
use llm_api_gateway.Prelude.{
  ℕ, zero, suc, ◌==◌, Bool-cases, subst, ℕ_discrete, ◌+◌, ◌-◌, ◌≤◌, ◌<◌, ◌≡◌, refl, Bool, true,
  false, ℤ, Option, none, some, arith, inl, inr,
}
use llm_api_gateway.Resilience.Retry.{
  RetryConfig, Outcome, attempts_of, backoff, wait, after_call, retry_loop, do_retry,
}

module _ {E : Type 0} (cfg : RetryConfig) (is_retryable : E → Bool) (fn : ℕ → Option E)
    (interrupted : ℕ → ℤ → Option E) (rand : ℕ → ℕ → ℕ) where
  -- The k-th call failed in a way that `Do` tries again, and the wait after it ran to its end.
  abbrev pub Retries : ℕ → Type 0
  Retries k =
      (e : E) × (fn k ≡ some e)
      × (is_retryable e ≡ true)
      × (interrupted k (backoff cfg rand k) ≡ none)

  -- Why `Do` stopped with this error after the call `k`: the call succeeded, its error was final,
  -- it was the last attempt, or the context ended the wait after it.
  pub data Stops (k : ℕ) (error : Option E) : Type 0 where
    succeeded : fn k ≡ none → error ≡ none → Stops k error
    final : (e : E) → fn k ≡ some e → is_retryable e ≡ false → error ≡ some e → Stops k error
    exhausted : (e : E) → fn k ≡ some e → suc k ≡ attempts_of cfg → error ≡ some e → Stops k error
    cut :
        (c : E)
        → interrupted k (backoff cfg rand k) ≡ some c
        → suc k < attempts_of cfg
        → error ≡ some c
        → Stops k error

  -- `Do` stopped after the call `k`, and tried again after each call from `a` up to `k`.
  pub record Explained (a : ℕ) (r : Outcome E) : Type 0 where
    pub k : ℕ
    pub calls_eq : r.calls ≡ suc k
    pub first : a ≤ k
    pub within : k < attempts_of cfg
    pub retried : (j : ℕ) → a ≤ j → j < k → Retries j
    pub stop : Stops k r.error

  stop_at :
      (a : ℕ) (o : Option E)
      → a < attempts_of cfg
      → Stops a o
      → Explained a (record { error = o; calls = a + 1 })
  stop_at a o h s = record {
    k = a;
    calls_eq = omega arith;
    first = omega arith;
    within = h;
    retried = λ j p q. absurd (omega arith);
    stop = s;
  }

  -- One retried call more, at the front.
  Explained-earlier : (a : ℕ) (r : Outcome E) → Retries a → Explained (suc a) r → Explained a r
  Explained-earlier a r t x = record {
    k = x.k;
    calls_eq = x.calls_eq;
    first = omega (arith, x.first);
    within = x.within;
    retried = λ j p q. elim (ℕ_discrete a j) [
      | yes e ↦ subst Retries e t
      | no n ↦ x.retried j (omega arith) q
    ];
    stop = x.stop;
  }

  wait-Explained :
      (a : ℕ) (e : E) (o : Option E) (next : Outcome E)
      → fn a ≡ some e
      → is_retryable e ≡ true
      → interrupted a (backoff cfg rand a) ≡ o
      → suc a < attempts_of cfg
      → Explained (suc a) next
      → Explained a (wait cfg is_retryable fn interrupted rand a o next)
  unfolding wait
  wait-Explained a e none next f y w h x = Explained-earlier a next (e, f, y, w) x
  wait-Explained a e (some c) next f y w h x = stop_at a (some c) (omega arith) (cut c w h refl)

  after_call-Explained :
      (a : ℕ) (o : Option E) (next : Outcome E)
      → fn a ≡ o
      → a < attempts_of cfg
      → (suc a < attempts_of cfg → Explained (suc a) next)
      → Explained a (after_call cfg is_retryable fn interrupted rand a o next)
  unfolding after_call
  after_call-Explained a none next f h x = stop_at a none h (succeeded f refl)
  after_call-Explained a (some e) next f h x = elim (Bool-cases (is_retryable e)) [
    | inl y ↦ elim (Bool-cases (a + 1 == attempts_of cfg)) [
      | inl z ↦ rw (y, z) (stop_at a (some e) h (exhausted e f (ground arith) refl))
      | inr z ↦ rw (y, z) (wait-Explained a e _ next f y refl (ground arith) (x (ground arith)))
    ]
    | inr y ↦ rw y (stop_at a (some e) h (final e f y refl))
  ]

  retry_loop-Explained :
      (left a : ℕ) (last : Option E)
      → a + suc left ≡ attempts_of cfg
      → Explained a (retry_loop cfg is_retryable fn interrupted rand (suc left) a last)
  unfolding retry_loop
  retry_loop-Explained zero a last h =
      after_call-Explained a (fn a) _ refl (omega arith) (λ p. absurd (omega arith))
  retry_loop-Explained (suc left) a last h =
      after_call-Explained a (fn a) _ refl (omega arith)
        (λ p. retry_loop-Explained left (suc a) (fn a) (omega arith))

  attempts_pos : (n : ℕ) × (attempts_of cfg ≡ suc n)
  attempts_pos = (attempts_of cfg - 1, ground arith)

  -- `Do` calls the function at least once and at most `attempts_of cfg` times. It tries again only
  -- after errors that are retryable, and it stops because a call succeeded, with a nil error;
  -- because an error was not retryable or the attempts were used up, with that error; or because
  -- the context ended a wait, with the context's error.
  pub do_retry-Explained : Explained 0 (do_retry cfg is_retryable fn interrupted rand)
  unfolding do_retry
  do_retry-Explained =
      rw (attempts_pos.1)
        (retry_loop-Explained attempts_pos.0 0 none (omega (arith, attempts_pos.1)))
