-- ===== src/Budget/Manager.antt =====
-- The manager of internal/budget/budget.go and the reservations that it hands out. The state is one
-- record: the map in memory, the Redis store, whether a Redis client is installed, and the
-- configuration. The month of a call is its argument (`monthKey()` reads the clock); the hash in the
-- Redis key is a parameter. What may happen to one Redis call is its argument, a `Link`.
use Prim.Native.String.{◌++◌ as append}
use llm_api_gateway.Prelude.{
  ℕ, ◌*◌, Bool, true, false, not, ◌||◌, ℤ, pos, pos_part, sub_ℕ, leb_ℤ, String, str_eq, Option,
  none, some, if◌then◌else◌, Dict,
}
use llm_api_gateway.Pricing.{Catalog}
use llm_api_gateway.Budget.Account.{
  Usage, BudgetError, denied, unavailable, exceeded_after_adjustment, Limits, quota_error,
  check_mem, reserve_mem, adjust_mem,
}
use llm_api_gateway.Budget.Script.{Commands, Field, read, reserve_script, adjust_script}

-- The reply arrives; the call fails before or after the script ran; the reply has another type.
pub data Link : Type 0 where
  answers lost_before lost_after garbled : Link

pub record Manager (S : Type 0) : Type 0 where
  pub mem : Dict Usage
  pub redis : S
  pub active : Bool
  pub enabled : Bool
  pub limits : Limits
  pub cost_per_token : ℕ
  pub catalog : Catalog

-- `once` is whether `sync.Once` has run.
pub record Reservation : Type 0 where
  pub tenant : String
  pub month : String
  pub reserved_tokens : ℕ
  pub reserved_usd : ℕ
  pub once : Bool
  pub err : Option BudgetError

-- What `Reserve` returns: two nils, a reservation, or an error.
pub data Reserved : Type 0 where
  not_enforced : Reserved
  reserved : Reservation → Reserved
  refused : BudgetError → Reserved

unfoldable pub budget_key : (String → String) → String → String → String
budget_key sha256_hex tenant month =
    append "budget:" (append (sha256_hex tenant) (append ":" month))

-- What a Redis path makes of a script: `true` is the reply for which it returns no error.
unfoldable pub through : {S : Type 0} → Link → S → S × Bool → BudgetError → S × Option BudgetError
through answers s (s', good) reason = (s', if good then none else some reason)
through lost_before s (s', good) reason = (s, some unavailable)
through lost_after s (s', good) reason = (s', some unavailable)
through garbled s (s', good) reason = (s', some unavailable)

abbrev put_redis :
    {S : Type 0} → Manager S → S × Option BudgetError → Manager S × Option BudgetError
put_redis m (s, e) = (record m { redis = s }, e)

abbrev put_mem :
    {S : Type 0} → Manager S → Dict Usage × Option BudgetError → Manager S × Option BudgetError
put_mem m (mem, e) = (record m { mem = mem }, e)

-- `UpdateConfig`, with a catalog
unfoldable pub update_config : {S : Type 0} → Bool → Limits → ℤ → Catalog → Manager S → Manager S
update_config enabled limits cost catalog m = record m {
  enabled = enabled;
  limits = limits;
  cost_per_token = pos_part cost;
  catalog = catalog;
}

-- `SetRedisStore`, and the replacement of the client by the shared store
unfoldable pub set_redis : {S : Type 0} → Bool → S → Manager S → Manager S
set_redis active store m = record m { active = active; redis = store }

-- `CostForTokens`, in millionths of the unit of `cost_per_token`
unfoldable pub cost_for_tokens : {S : Type 0} → Manager S → ℤ → ℕ
cost_for_tokens m tokens =
    if leb_ℤ tokens (pos 0) then 0 else pos_part tokens * m.cost_per_token * 1_000_000

module _ (r : Commands) (sha256_hex : String → String) where
  abbrev pub World : Type 0
  World = Manager r.Store

  unfoldable pub reserve_redis :
      Link → String → String → ℕ → ℕ → World → r.Store × Option BudgetError
  unfolding through
  reserve_redis link tenant month t u m =
      through link m.redis
        (reserve_script r (budget_key sha256_hex tenant month) m.limits t u m.redis) denied

  unfoldable pub adjust_redis :
      Link → String → String → ℤ → ℤ → World → r.Store × Option BudgetError
  unfolding through
  adjust_redis link tenant month t u m =
      let (s, over) = adjust_script r (budget_key sha256_hex tenant month) m.limits t u m.redis in
      through link m.redis (s, not over) exceeded_after_adjustment

  -- `checkRedis`: HMGET changes nothing, so only a reply that arrives matters.
  unfoldable pub check_redis : Link → String → String → World → Option BudgetError
  check_redis answers tenant month m =
      let key = budget_key sha256_hex tenant month in
      quota_error m.limits (read r key Field.tokens m.redis) (read r key Field.usd m.redis)
  check_redis garbled tenant month m = quota_error m.limits 0 0
  check_redis link tenant month m = some unavailable

  unfoldable pub check : Link → String → String → World → Option BudgetError
  unfolding check_redis
  check link tenant month m =
      if not m.enabled || str_eq tenant ""
      then none
      else if m.active
      then check_redis link tenant month m
      else check_mem m.limits tenant month m.mem

  -- `adjust`: the backend is the one that is installed when it is called.
  unfoldable pub adjust : Link → String → String → ℤ → ℤ → World → World × Option BudgetError
  unfolding adjust_redis
  adjust link tenant month t u m =
      if m.active
      then put_redis m (adjust_redis link tenant month t u m)
      else put_mem m (adjust_mem m.limits tenant month t u m.mem)

  -- The two backends of `Reserve`, below its early return and its clamping.
  unfoldable pub reserve_on : Link → String → String → ℕ → ℕ → World → World × Option BudgetError
  unfolding reserve_redis
  reserve_on link tenant month t u m =
      if m.active
      then put_redis m (reserve_redis link tenant month t u m)
      else put_mem m (reserve_mem m.limits tenant month t u m.mem)

  -- What `Reserve` returns after the error of the backend.
  unfoldable pub reserved_of : String → String → ℕ → ℕ → Option BudgetError → Reserved
  reserved_of tenant month t u (some e) = refused e
  reserved_of tenant month t u none = reserved (record {
    tenant = tenant;
    month = month;
    reserved_tokens = t;
    reserved_usd = u;
    once = false;
    err = none;
  })

  unfoldable pub reserve : Link → String → String → ℤ → ℤ → World → World × Reserved
  unfolding reserve_on reserved_of
  reserve link tenant month t u m =
      if not m.enabled || str_eq tenant ""
      then (m, not_enforced)
      else let (m', e) = reserve_on link tenant month (pos_part t) (pos_part u) m in
        (m', reserved_of tenant month (pos_part t) (pos_part u) e)

  -- `r.once.Do(...)`, with the change as the argument
  unfoldable pub finalize : Link → ℤ → ℤ → Reservation → World → World × Reservation
  finalize link t u res m =
      if res.once
      then (m, res)
      else let (m', e) = adjust link res.tenant res.month t u m in
        (m', record res { once = true; err = e })

  -- The error of `Commit` is the `err` of the reservation after it.
  unfoldable pub commit : Link → ℤ → ℤ → Reservation → World → World × Reservation
  unfolding finalize
  commit link actual_tokens actual_usd res m =
      finalize link (sub_ℕ (pos_part actual_tokens) res.reserved_tokens)
        (sub_ℕ (pos_part actual_usd) res.reserved_usd) res m

  unfoldable pub cancel : Link → Reservation → World → World × Reservation
  unfolding finalize
  cancel link res m = finalize link (sub_ℕ 0 res.reserved_tokens) (sub_ℕ 0 res.reserved_usd) res m

  -- `Record`: the error is dropped.
  unfoldable pub record_usage : Link → String → String → ℤ → ℤ → World → World
  record_usage link tenant month t u m =
      if not m.enabled || str_eq tenant "" then m else (adjust link tenant month t u m).0
