-- ===== src/Resilience/Hedge.antt =====
-- internal/resilience/hedge.go. `DoHedge` is a machine over the events that its `select` statements
-- receive, in the order in which they receive them: where several are ready at once, any order may
-- come. An event that the current `select` does not wait for stays in its channel and changes nothing.
use mathlib.Core.List.{Memᴰ}
use llm_api_gateway.Prelude.{◌≡◌, refl, List, [], ◌∷◌, ◌⊎◌, inl, inr, ℤ, pos, leb_ℤ, if◌then◌else◌}

pub data Result (E A : Type 0) : Type 0 where
  ok : A → Result E A
  err : E → Result E A

pub data Event (E A : Type 0) : Type 0 where
  primary_done : Result E A → Event E A
  timer : Event E A
  fallback_done : Result E A → Event E A
  ctx_done : E → Event E A

-- Where `DoHedge` waits: in the first `select`, in the race, for the fallback after the primary
-- failed, for the primary after the fallback failed; or it has returned.
pub data Phase (E A : Type 0) : Type 0 where
  waiting racing primary_failed fallback_failed : Phase E A
  returned : Result E A → Phase E A

-- `if delay <= 0 { delay = 300 * time.Millisecond }`, when the timer event comes.
abbrev pub hedge_delay : ℤ → ℤ
hedge_delay delay = if leb_ℤ delay (pos 0) then pos 300_000_000 else delay

module _ {B : Type 0} where
  either_tail : {x y z : B} {l : List B} → Memᴰ x l ⊎ Memᴰ y l → Memᴰ x (z ∷ l) ⊎ Memᴰ y (z ∷ l)
  either_tail (inl m) = inl (Memᴰ.tail m)
  either_tail (inr m) = inr (Memᴰ.tail m)

module _ {E A : Type 0} where
  unfoldable pub step : Phase E A → Event E A → Phase E A
  step waiting (primary_done r) = returned r
  step waiting timer = racing
  step waiting (ctx_done e) = returned (err e)
  step racing (primary_done (ok a)) = returned (ok a)
  step racing (primary_done (err e)) = primary_failed
  step racing (fallback_done (ok a)) = returned (ok a)
  step racing (fallback_done (err e)) = fallback_failed
  step racing (ctx_done e) = returned (err e)
  step primary_failed (fallback_done r) = returned r
  step primary_failed (ctx_done e) = returned (err e)
  step fallback_failed (primary_done r) = returned r
  step fallback_failed (ctx_done e) = returned (err e)
  step p _ = p

  unfoldable pub run : Phase E A → List (Event E A) → Phase E A
  run p [] = p
  run p (e ∷ es) = run (step p e) es

  -- `DoHedge`
  unfoldable pub do_hedge : List (Event E A) → Phase E A
  unfolding run step
  do_hedge es = run waiting es

  run-returned : (r : Result E A) (es : List (Event E A)) → run (returned r) es ≡ returned r
  unfolding run step
  run-returned r [] = refl
  run-returned r (primary_done _ ∷ es) = run-returned r es
  run-returned r (timer ∷ es) = run-returned r es
  run-returned r (fallback_done _ ∷ es) = run-returned r es
  run-returned r (ctx_done _ ∷ es) = run-returned r es

  -- An error returned from one of the last two phases is the context's or the awaited call's.
  primary_failed_error :
      (e : E) (es : List (Event E A))
      → run primary_failed es ≡ returned (err e)
      → Memᴰ (ctx_done e) es ⊎ Memᴰ (fallback_done (err e)) es
  unfolding run step
  primary_failed_error e [] h = cc
  primary_failed_error e (primary_done _ ∷ es) h = either_tail (primary_failed_error e es h)
  primary_failed_error e (timer ∷ es) h = either_tail (primary_failed_error e es h)
  primary_failed_error e (fallback_done r ∷ es) h = inr (Memᴰ.head (cc (run-returned r es)))
  primary_failed_error e (ctx_done c ∷ es) h = inl (Memᴰ.head (cc (run-returned (err c) es)))

  fallback_failed_error :
      (e : E) (es : List (Event E A))
      → run fallback_failed es ≡ returned (err e)
      → Memᴰ (ctx_done e) es ⊎ Memᴰ (primary_done (err e)) es
  unfolding run step
  fallback_failed_error e [] h = cc
  fallback_failed_error e (fallback_done _ ∷ es) h = either_tail (fallback_failed_error e es h)
  fallback_failed_error e (timer ∷ es) h = either_tail (fallback_failed_error e es h)
  fallback_failed_error e (primary_done r ∷ es) h = inr (Memᴰ.head (cc (run-returned r es)))
  fallback_failed_error e (ctx_done c ∷ es) h = inl (Memᴰ.head (cc (run-returned (err c) es)))

  -- Both calls have failed, one of them with `e`.
  abbrev pub BothFailed : E → List (Event E A) → Type 0
  BothFailed e es =
      (e' : E) × ((Memᴰ (primary_done (err e)) es × Memᴰ (fallback_done (err e')) es)
        ⊎ (Memᴰ (primary_done (err e')) es × Memᴰ (fallback_done (err e)) es))

  BothFailed-tail :
      (e : E) (v : Event E A) (es : List (Event E A)) → BothFailed e es → BothFailed e (v ∷ es)
  BothFailed-tail e v es (e', inl (p, f)) = (e', inl (Memᴰ.tail p, Memᴰ.tail f))
  BothFailed-tail e v es (e', inr (p, f)) = (e', inr (Memᴰ.tail p, Memᴰ.tail f))

  later :
      (e : E) (v : Event E A) (es : List (Event E A))
      → Memᴰ (ctx_done e) es ⊎ BothFailed e es
      → Memᴰ (ctx_done e) (v ∷ es) ⊎ BothFailed e (v ∷ es)
  later e v es (inl m) = inl (Memᴰ.tail m)
  later e v es (inr b) = inr (BothFailed-tail e v es b)

  after_primary :
      (e c : E) (es : List (Event E A))
      → Memᴰ (ctx_done e) es ⊎ Memᴰ (fallback_done (err e)) es
      → Memᴰ (ctx_done e) (primary_done (err c) ∷ es) ⊎ BothFailed e (primary_done (err c) ∷ es)
  after_primary e c es (inl m) = inl (Memᴰ.tail m)
  after_primary e c es (inr m) = inr (c, inr (Memᴰ.head refl, Memᴰ.tail m))

  after_fallback :
      (e c : E) (es : List (Event E A))
      → Memᴰ (ctx_done e) es ⊎ Memᴰ (primary_done (err e)) es
      → Memᴰ (ctx_done e) (fallback_done (err c) ∷ es) ⊎ BothFailed e (fallback_done (err c) ∷ es)
  after_fallback e c es (inl m) = inl (Memᴰ.tail m)
  after_fallback e c es (inr m) = inr (c, inl (Memᴰ.tail m, Memᴰ.head refl))

  -- Once the race is on, an error is returned only if the context ended with that error, or both
  -- calls have failed, one of them with that error: the failure of one call never hides the other.
  pub race_error :
      (e : E) (es : List (Event E A))
      → run racing es ≡ returned (err e)
      → Memᴰ (ctx_done e) es ⊎ BothFailed e es
  unfolding run step
  race_error e [] h = cc
  race_error e (primary_done (ok a) ∷ es) h = cc (run-returned (ok a) es)
  race_error e (primary_done (err c) ∷ es) h = after_primary e c es (primary_failed_error e es h)
  race_error e (timer ∷ es) h = later e timer es (race_error e es h)
  race_error e (fallback_done (ok a) ∷ es) h = cc (run-returned (ok a) es)
  race_error e (fallback_done (err c) ∷ es) h = after_fallback e c es (fallback_failed_error e es h)
  race_error e (ctx_done c ∷ es) h = inl (Memᴰ.head (cc (run-returned (err c) es)))

  -- Why the whole call may return the error `e`.
  abbrev pub Failed : E → List (Event E A) → Type 0
  Failed e es = Memᴰ (ctx_done e) es ⊎ Memᴰ (primary_done (err e)) es ⊎ BothFailed e es

  Failed-tail : (e : E) (v : Event E A) (es : List (Event E A)) → Failed e es → Failed e (v ∷ es)
  Failed-tail e v es (inl m) = inl (Memᴰ.tail m)
  Failed-tail e v es (inr (inl m)) = inr (inl (Memᴰ.tail m))
  Failed-tail e v es (inr (inr b)) = inr (inr (BothFailed-tail e v es b))

  Failed-race :
      (e : E) (es : List (Event E A))
      → Memᴰ (ctx_done e) es ⊎ BothFailed e es
      → Failed e (timer ∷ es)
  Failed-race e es (inl m) = inl (Memᴰ.tail m)
  Failed-race e es (inr b) = inr (inr (BothFailed-tail e timer es b))

  -- `DoHedge` returns an error only if the context ended with it, the primary call failed with it,
  -- or both calls failed, one of them with it. So an error of the fallback alone is never returned.
  pub do_hedge_error :
      (e : E) (es : List (Event E A)) → do_hedge es ≡ returned (err e) → Failed e es
  unfolding do_hedge
  do_hedge_error e [] h = cc
  do_hedge_error e (primary_done r ∷ es) h = inr (inl (Memᴰ.head (cc (run-returned r es))))
  do_hedge_error e (timer ∷ es) h = Failed-race e es (race_error e es h)
  do_hedge_error e (fallback_done r ∷ es) h =
      Failed-tail e (fallback_done r) es (do_hedge_error e es h)
  do_hedge_error e (ctx_done c ∷ es) h = inl (Memᴰ.head (cc (run-returned (err c) es)))
