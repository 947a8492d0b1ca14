-- ===== src/Budget/Refine.antt =====
-- The account that both backends keep: what a tenant has used in a month, and the two decisions
-- on it. The map in memory and the Redis scripts implement it.
use llm_api_gateway.Prelude.{
  ℕ, ◌+◌, ◌≡◌, refl, Bool, true, false, not, ◌&&◌, ◌||◌, ℤ, pos, ltb_ℤ, String, str_eq, Option,
  none, some, if◌then◌else◌, Dict, lookup, lookup-insert, arith, eq_iff,
}
use llm_api_gateway.Budget.Account.{
  Usage, BudgetError, Limits, reservation_quota_error, add_clamped, mem_key, usage_or_new,
  reserve_mem, adjust_mem,
}
use llm_api_gateway.Budget.Script.{
  Commands, Field, read, reserve_script, adjust_script, or_zero, same_field, budget_ttl_seconds,
}

pub record Account : Type 0 where
  pub tokens : ℕ
  pub usd : ℕ

-- A positive limit is passed.
unfoldable pub exceeds : Limits → Account → Bool
exceeds l a =
    (ltb_ℤ (pos 0) l.tokens && ltb_ℤ l.tokens (pos a.tokens))
    || (ltb_ℤ (pos 0) l.usd && ltb_ℤ l.usd (pos a.usd))

-- A reservation is taken if the account stays within its limits, and changes nothing otherwise.
unfoldable pub reserve_account : Limits → ℕ → ℕ → Account → Account × Bool
reserve_account l t u a =
    let b : Account = record { tokens = a.tokens + t; usd = a.usd + u } in
    if exceeds l b then (a, false) else (b, true)

-- A change is always made; the answer is whether the account is within its limits after it.
unfoldable pub adjust_account : Limits → ℤ → ℤ → Account → Account × Bool
adjust_account l t u a =
    let b : Account = record { tokens = add_clamped a.tokens t; usd = add_clamped a.usd u } in
    (b, not (exceeds l b))

-- What the map holds under a key.
abbrev pub account_of : Option Usage → Account
account_of none = record { tokens = 0; usd = 0 }
account_of (some u) = record { tokens = u.tokens; usd = u.usd }

abbrev pub mem_account : String → Dict Usage → Account
mem_account key mem = account_of (lookup key mem)

-- No error.
abbrev pub is_nil : Option BudgetError → Bool
is_nil none = true
is_nil (some e) = false

quota-exceeds :
    (l : Limits) (a : Account)
    → is_nil (reservation_quota_error l a.tokens a.usd) ≡ not (exceeds l a)
unfolding reservation_quota_error exceeds
quota-exceeds l a = ground arith

usage-account :
    (month : String) (o : Option Usage)
    → ((usage_or_new month o).tokens ≡ (account_of o).tokens)
      × ((usage_or_new month o).usd ≡ (account_of o).usd)
unfolding usage_or_new
usage-account month none = (refl, refl)
usage-account month (some u) = (refl, refl)

module _ (l : Limits) (tenant month other : String) where
  -- `reserveMem` takes the decision of `reserve_account` on the account of its tenant and month,
  -- with a nil error exactly if the reservation is taken, and leaves every other account as it was.
  pub reserve_mem-refines :
      (t u : ℕ) (mem : Dict Usage)
      → let want = reserve_account l t u (mem_account (mem_key tenant month) mem) in
        let got = reserve_mem l tenant month t u mem in
        (is_nil got.1 ≡ want.1)
        × (mem_account other got.0
            ≡ (if str_eq (mem_key tenant month) other then want.0 else mem_account other mem))
  unfolding reserve_mem reserve_account
  reserve_mem-refines t u mem =
      let v = usage_or_new month (lookup (mem_key tenant month) mem) in
      let w : Usage = record v { tokens = v.tokens + t; usd = v.usd + u } in
      ground (
        arith,
        usage-account month (lookup (mem_key tenant month) mem),
        quota-exceeds l (record { tokens = v.tokens + t; usd = v.usd + u }),
        lookup-insert (mem_key tenant month) other v mem,
        lookup-insert (mem_key tenant month) other w mem,
        eq_iff (mem_key tenant month) other,
      )

  -- `adjust` in memory makes the change of `adjust_account` on the account of its tenant and month,
  -- with a nil error exactly if the account is within its limits after it, and leaves every other
  -- account as it was.
  pub adjust_mem-refines :
      (t u : ℤ) (mem : Dict Usage)
      → let want = adjust_account l t u (mem_account (mem_key tenant month) mem) in
        let got = adjust_mem l tenant month t u mem in
        (is_nil got.1 ≡ want.1)
        × (mem_account other got.0
            ≡ (if str_eq (mem_key tenant month) other then want.0 else mem_account other mem))
  unfolding adjust_mem adjust_account exceeds add_clamped usage_or_new
  adjust_mem-refines t u mem =
      let v = usage_or_new month (lookup (mem_key tenant month) mem) in
      let w : Usage = record v { tokens = add_clamped v.tokens t; usd = add_clamped v.usd u } in
      ground (
        arith,
        usage-account month (lookup (mem_key tenant month) mem),
        quota-exceeds l (record { tokens = w.tokens; usd = w.usd }),
        lookup-insert (mem_key tenant month) other w mem,
        eq_iff (mem_key tenant month) other,
      )

abbrev field_of : Field → ℕ → ℕ → ℕ
field_of Field.tokens t u = t
field_of Field.usd t u = u

module _ (c : Commands) where
  open c use {Store, hget, hincrby, hset, expire, hget-hset, hget-hincrby, hget-expire}

  abbrev pub redis_account : String → Store → Account
  redis_account key s = record { tokens = read c key Field.tokens s; usd = read c key Field.usd s }

  read-reserved :
      (key other : String) (f : Field) (t u ttl : ℕ) (s : Store)
      → read c other f (expire key ttl (hincrby key Field.usd u (hincrby key Field.tokens t s)))
        ≡ read c other f s + (if str_eq key other then field_of f t u else 0)
  unfolding read
  read-reserved key other f t u ttl s =
      rw
        (
          hget-expire key other f ttl (hincrby key Field.usd u (hincrby key Field.tokens t s)),
          hget-hincrby key other Field.usd f u (hincrby key Field.tokens t s),
          hget-hincrby key other Field.tokens f t s,
        )
        (by_field key other f (hget other f s))
    where
      by_field :
          (key other : String) (f : Field) (o : Option ℕ)
          → or_zero (
              if str_eq key other && same_field Field.usd f
              then some (
                  or_zero (
                    if str_eq key other && same_field Field.tokens f
                    then some (or_zero o + t)
                    else o)
                  + u)
              else if str_eq key other && same_field Field.tokens f
              then some (or_zero o + t)
              else o)
            ≡ or_zero o + (if str_eq key other then field_of f t u else 0)
      by_field key other Field.tokens o = ground arith
      by_field key other Field.usd o = ground arith

  read-adjusted :
      (key other : String) (f : Field) (t u ttl : ℕ) (s : Store)
      → read c other f (expire key ttl (hset key Field.usd u (hset key Field.tokens t s)))
        ≡ (if str_eq key other then field_of f t u else read c other f s)
  unfolding read
  read-adjusted key other f t u ttl s =
      rw
        (
          hget-expire key other f ttl (hset key Field.usd u (hset key Field.tokens t s)),
          hget-hset key other Field.usd f u (hset key Field.tokens t s),
          hget-hset key other Field.tokens f t s,
        )
        (by_field key other f (hget other f s))
    where
      by_field :
          (key other : String) (f : Field) (o : Option ℕ)
          → or_zero (
              if str_eq key other && same_field Field.usd f
              then some u
              else if str_eq key other && same_field Field.tokens f
              then some t
              else o)
            ≡ (if str_eq key other then field_of f t u else or_zero o)
      by_field key other Field.tokens o = ground arith
      by_field key other Field.usd o = ground arith

  -- The reserve script takes the decision of `reserve_account` on the hash of its key, answers 1
  -- exactly if the reservation is taken, and leaves every other hash as it was.
  pub reserve_script-refines :
      (key other : String) (l : Limits) (t u : ℕ) (s : Store)
      → let want = reserve_account l t u (redis_account key s) in
        let got = reserve_script c key l t u s in
        (got.1 ≡ want.1)
        × (redis_account other got.0 ≡ (if str_eq key other then want.0 else redis_account other s))
  unfolding reserve_script reserve_account exceeds
  reserve_script-refines key other l t u s = ground (
    arith,
    read-reserved key other Field.tokens t u budget_ttl_seconds s,
    read-reserved key other Field.usd t u budget_ttl_seconds s,
    eq_iff key other,
  )

  -- The adjust script makes the change of `adjust_account` on the hash of its key, answers 1
  -- exactly if the account is over its limits after it, and leaves every other hash as it was.
  pub adjust_script-refines :
      (key other : String) (l : Limits) (t u : ℤ) (s : Store)
      → let want = adjust_account l t u (redis_account key s) in
        let got = adjust_script c key l t u s in
        (not got.1 ≡ want.1)
        × (redis_account other got.0 ≡ (if str_eq key other then want.0 else redis_account other s))
  unfolding adjust_script adjust_account exceeds
  adjust_script-refines key other l t u s =
      let a = redis_account key s in
      ground (
        arith,
        read-adjusted key other Field.tokens (add_clamped a.tokens t) (add_clamped a.usd u)
            budget_ttl_seconds s,
        read-adjusted key other Field.usd (add_clamped a.tokens t) (add_clamped a.usd u)
            budget_ttl_seconds s,
        eq_iff key other,
      )
