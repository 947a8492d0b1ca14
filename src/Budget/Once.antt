-- ===== src/Budget/Once.antt =====
-- A reservation is settled once, and on the backend that is installed at that time.
use llm_api_gateway.Prelude.{
  ℕ, ◌+◌, ◌-◌, ◌≡◌, refl, ap, subst, ◌∙◌, true, false, ℤ, sub_ℕ, String, eq_refl, List, [], ◌∷◌,
  arith,
}
use llm_api_gateway.Budget.Account.{add_clamped}
use llm_api_gateway.Budget.Script.{Commands, adjust_script}
use llm_api_gateway.Budget.Refine.{Account, adjust_account, redis_account, adjust_script-refines}
use llm_api_gateway.Budget.Ledger.Reserve.{account, Took, reserve-Took}
use llm_api_gateway.Budget.Manager.{
  Reservation, Reserved, Link, answers, World, adjust, adjust_redis, through, budget_key, finalize,
  commit, cancel, reserve, reserved, set_redis,
}

-- One call of `Commit` or `Cancel`.
pub data Settle : Type 0 where
  commits : Link → ℤ → ℤ → Settle
  cancels : Link → Settle

module _ (r : Commands) (sha256_hex : String → String) where
  unfoldable pub settle :
      Settle → Reservation → World r sha256_hex → World r sha256_hex × Reservation
  settle (commits link t u) res m = commit r sha256_hex link t u res m
  settle (cancels link) res m = cancel r sha256_hex link res m

  -- Calls one after the other on one reservation.
  unfoldable pub settle_all :
      List Settle → Reservation → World r sha256_hex → World r sha256_hex × Reservation
  settle_all [] res m = (m, res)
  settle_all (c ∷ cs) res m = let (m', res') = settle c res m in settle_all cs res' m'

  settle-settled :
      (c : Settle) (res : Reservation) (m : World r sha256_hex)
      → res.once ≡ true
      → settle c res m ≡ (m, res)
  unfolding settle commit cancel finalize
  settle-settled (commits link t u) res m e = ground arith
  settle-settled (cancels link) res m e = ground arith

  settle-once :
      (c : Settle) (res : Reservation) (m : World r sha256_hex) → (settle c res m).1.once ≡ true
  unfolding settle commit cancel finalize
  settle-once (commits link t u) res m = ground arith
  settle-once (cancels link) res m = ground arith

  settle_all-settled :
      (cs : List Settle) (res : Reservation) (m : World r sha256_hex)
      → res.once ≡ true
      → settle_all cs res m ≡ (m, res)
  unfolding settle_all
  settle_all-settled [] res m e = refl
  settle_all-settled (c ∷ cs) res m e =
      rw (settle-settled c res m e) (settle_all-settled cs res m e)

  -- Of all the calls of `Commit` and `Cancel` on a reservation only the first has an effect: the
  -- accounts and the error of the reservation are then what the first call made them.
  pub settle_all-first :
      (c : Settle) (cs : List Settle) (res : Reservation) (m : World r sha256_hex)
      → settle_all (c ∷ cs) res m ≡ settle c res m
  unfolding settle_all
  settle_all-first c cs res m =
      settle_all-settled cs (settle c res m).1 (settle c res m).0 (settle-once c res m)

  module _ (tenant month : String) where
    abbrev pub key : String
    key = budget_key sha256_hex tenant month

    -- After the cancellation of `res` on a Redis client that holds the store `s`: the account in memory is
    -- charged with the reservation, and that of Redis is lower by it, down to 0.
    pub record IsSplit (before after : World r sha256_hex) (s : r.Store) (res : Reservation)
        : Type 0 where
      pub mem_tokens :
          (account r sha256_hex tenant month after).tokens
          ≡ (account r sha256_hex tenant month before).tokens + res.reserved_tokens
      pub mem_usd :
          (account r sha256_hex tenant month after).usd
          ≡ (account r sha256_hex tenant month before).usd + res.reserved_usd
      pub redis_tokens :
          (redis_account r key after.redis).tokens
          ≡ (redis_account r key s).tokens - res.reserved_tokens
      pub redis_usd :
          (redis_account r key after.redis).usd ≡ (redis_account r key s).usd - res.reserved_usd

    add_clamped-minus : (a n : ℕ) → add_clamped a (sub_ℕ 0 n) ≡ a - n
    unfolding add_clamped
    add_clamped-minus a n = ground arith

    -- A cancellation with a Redis client, of a reservation of this account that is still to be settled.
    cancel-installed :
        (m : World r sha256_hex) (res : Reservation) (s : r.Store)
        → res.once ≡ false
        → cancel r sha256_hex answers res (set_redis true s m) ≡ (
          record (set_redis true s m) {
            redis =
                (adjust_script r
                  (budget_key sha256_hex res.tenant res.month)
                  m.limits
                  (sub_ℕ 0 res.reserved_tokens)
                  (sub_ℕ 0 res.reserved_usd)
                  s).0;
          },
          (cancel r sha256_hex answers res (set_redis true s m)).1,
        )
    unfolding cancel finalize adjust adjust_redis set_redis through
    cancel-installed m res s e = ground (arith, e)

    refunded :
        (m : World r sha256_hex) (res : Reservation) (s : r.Store)
        → res.tenant ≡ tenant
        → res.month ≡ month
        → let got =
            adjust_script r
              (budget_key sha256_hex res.tenant res.month)
              m.limits
              (sub_ℕ 0 res.reserved_tokens)
              (sub_ℕ 0 res.reserved_usd)
              s in
          ((redis_account r key got.0).tokens
            ≡ (redis_account r key s).tokens - res.reserved_tokens)
          × ((redis_account r key got.0).usd ≡ (redis_account r key s).usd - res.reserved_usd)
    unfolding adjust_account
    refunded m res s t n =
        let a = redis_account r key s in
        let same =
          (adjust_script-refines r key key m.limits (sub_ℕ 0 res.reserved_tokens)
            (sub_ℕ 0 res.reserved_usd) s).1
          ∙ rw (eq_refl key) refl in
        rw (t, n)
          (
            ap (λ (x : Account). x.tokens) same ∙ add_clamped-minus a.tokens res.reserved_tokens,
            ap (λ (x : Account). x.usd) same ∙ add_clamped-minus a.usd res.reserved_usd,
          )

    taken :
        (m : World r sha256_hex) (x : Reserved) (res : Reservation) (a : Account)
        → x ≡ reserved res
        → Took r sha256_hex tenant month a m x
        → Took r sha256_hex tenant month a m (reserved res)
    taken m x res a e k = subst (Took r sha256_hex tenant month a m) e k

    -- If a Redis client is installed after a reservation was taken in memory, `Cancel` refunds it on
    -- Redis, whatever is there: that account falls by the reservation, down to 0, and the account
    -- in memory stays charged with the cancelled reservation.
    pub cancel-other_backend :
        (t u : ℤ) (m : World r sha256_hex) (res : Reservation) (s : r.Store)
        → m.active ≡ false
        → (reserve r sha256_hex answers tenant month t u m).1 ≡ reserved res
        → let charged = (reserve r sha256_hex answers tenant month t u m).0 in
          IsSplit m (cancel r sha256_hex answers res (set_redis true s charged)).0 s res
    unfolding set_redis
    cancel-other_backend t u m res s off e =
        let charged = (reserve r sha256_hex answers tenant month t u m).0 in
        let (o, p, tokens, usd) =
          taken charged _ res (account r sha256_hex tenant month m) e
            (reserve-Took r sha256_hex tenant month t u m off) in
        let (a, b) = refunded charged res s p.of_tenant p.of_month in
        rw (cancel-installed charged res s p.unsettled)
          (record { mem_tokens = tokens; mem_usd = usd; redis_tokens = a; redis_usd = b })
