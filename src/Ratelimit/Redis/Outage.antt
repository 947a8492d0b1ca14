-- ===== src/Ratelimit/Redis/Outage.antt =====
-- The limiter while Redis does not answer.
use llm_api_gateway.Prelude.{
  ℕ, ◌≡◌, refl, sym, ap, All, pos_part, Bool, ℤ, pos, String, Option, none, some, List, [], ◌∷◌,
  arith,
}
use llm_api_gateway.Ratelimit.Limiter as Local
use llm_api_gateway.Ratelimit.Limiter.{Limiter, requested}
use llm_api_gateway.Ratelimit.Redis.{
  Commands, Link, answers, no_client, lost_before, lost_after, garbled, RedisLimiter, through,
  lua_script, fall_back, use_reply, allow_with_limits,
}

-- A call of `AllowWithLimits`, with what happens to its Redis call.
pub record Request : Type 0 where
  pub now : ℕ
  pub link : Link
  pub key : String
  pub n : ℤ
  pub rpm : ℤ
  pub burst : ℤ

abbrev pub IsUnanswered : Link → Type 0
IsUnanswered answers = ⊥
IsUnanswered _ = Unit

through-unanswered :
    {S : Type 0} (link : Link) (s : S) (done : S × Option Bool)
    → IsUnanswered link
    → (through link s done).1 ≡ none
unfolding through
through-unanswered answers s (s', v) h = absurd h
through-unanswered no_client s (s', v) h = refl
through-unanswered lost_before s (s', v) h = refl
through-unanswered lost_after s (s', v) h = refl
through-unanswered garbled s (s', v) h = refl

module _ (hash : String → ℕ) where
  -- The local limiter alone.
  unfoldable pub run_local : Limiter → List Request → Limiter × List Bool
  run_local l [] = (l, [])
  run_local l (q ∷ qs) =
      let (l', v) = Local.allow_with_limits hash q.now q.key q.n q.rpm q.burst l in
      let (l'', vs) = run_local l' qs in (l'', v ∷ vs)

  module _ (r : Commands) where
    unfoldable pub run : RedisLimiter r.Store → List Request → RedisLimiter r.Store × List Bool
    run l [] = (l, [])
    run l (q ∷ qs) =
        let (l', v) = allow_with_limits r hash q.now q.link q.key q.n q.rpm q.burst l in
        let (l'', vs) = run l' qs in (l'', v ∷ vs)

    use_reply-unanswered :
        (now : ℕ) (key : String) (n : ℤ) (rpm burst : ℤ) (l : RedisLimiter r.Store)
        (reply : r.Store × Option Bool)
        → reply.1 ≡ none
        → let got = use_reply r hash now key (pos (requested n)) rpm burst l reply in
          let local = Local.allow_with_limits hash now key n rpm burst l.fallback in
          (got.0.fallback ≡ local.0) × (got.1 ≡ local.1)
    unfolding use_reply fall_back Local.allow_with_limits
    use_reply-unanswered now key n rpm burst l (s, some v) h = cc
    use_reply-unanswered now key n rpm burst l (s, none) h = ground arith

    allow_with_limits-unanswered :
        (q : Request) (l : RedisLimiter r.Store)
        → IsUnanswered q.link
        → let got = allow_with_limits r hash q.now q.link q.key q.n q.rpm q.burst l in
          let local = Local.allow_with_limits hash q.now q.key q.n q.rpm q.burst l.fallback in
          (got.0.fallback ≡ local.0) × (got.1 ≡ local.1)
    unfolding allow_with_limits Local.allow_with_limits
    allow_with_limits-unanswered q l h =
        let script =
          lua_script r q.key (pos_part q.rpm) (pos_part q.burst) q.now (requested q.n) l.redis in
        ground (
          arith,
          use_reply-unanswered q.now q.key q.n q.rpm q.burst l (through q.link l.redis script)
              (through-unanswered q.link l.redis script h),
        )

    -- While no Redis call of a sequence of requests brings a usable reply, whatever the reason, each
    -- request is answered as the local limiter alone answers the same sequence, which is left with
    -- the same buckets: an outage never lifts the limits, and never refuses more than they do.
    pub run-run_local :
        (qs : List Request) (l : RedisLimiter r.Store)
        → All (λ q. IsUnanswered q.link) qs
        → ((run l qs).0.fallback ≡ (run_local l.fallback qs).0)
          × ((run l qs).1 ≡ (run_local l.fallback qs).1)
    unfolding run run_local
    run-run_local [] l h = (refl, refl)
    run-run_local (q ∷ qs) l (h, hs) =
        let (e, v) = allow_with_limits-unanswered q l h in
        let got = allow_with_limits r hash q.now q.link q.key q.n q.rpm q.burst l in
        let (same, vs) = run-run_local qs got.0 hs in
        rw (sym e, sym v) (same, ap (λ w. got.1 ∷ w) vs)
