-- ===== src/Budget/Script.antt =====
-- The two Lua scripts of internal/budget/budget.go, over the Redis commands that they call. Redis
-- is a parameter: `Commands` states what the documentation says of HGET, HINCRBY, HINCRBYFLOAT, HSET
-- and EXPIRE on the fields of a hash. A script runs atomically, so it is one function on the store.
use llm_api_gateway.Prelude.{
  ℕ, ◌+◌, Bool, true, false, ◌&&◌, ◌||◌, ℤ, pos, ltb_ℤ, String, str_eq, Option, none, some, ◌≡◌,
  if◌then◌else◌,
}
use llm_api_gateway.Budget.Account.{Limits, add_clamped}

-- The two fields of a budget hash.
pub data Field : Type 0 where
  tokens usd : Field

abbrev pub or_zero : Option ℕ → ℕ
or_zero none = 0
or_zero (some n) = n

abbrev pub same_field : Field → Field → Bool
same_field tokens tokens = true
same_field usd usd = true
same_field _ _ = false

pub record Commands : Type 1 where
  pub Store : Type 0
  pub hget : String → Field → Store → Option ℕ
  -- HINCRBY and HINCRBYFLOAT
  pub hincrby : String → Field → ℕ → Store → Store
  pub hset : String → Field → ℕ → Store → Store
  pub expire : String → ℕ → Store → Store
  pub hget-hset :
      (k j : String) (f g : Field) (n : ℕ) (s : Store)
      → hget j g (hset k f n s) ≡ (if str_eq k j && same_field f g then some n else hget j g s)
  pub hget-hincrby :
      (k j : String) (f g : Field) (n : ℕ) (s : Store)
      → hget j g (hincrby k f n s)
        ≡ (if str_eq k j && same_field f g then some (or_zero (hget j g s) + n) else hget j g s)
  -- The expiry lies in the future: what is read right after it is what was there.
  pub hget-expire :
      (k j : String) (g : Field) (ttl : ℕ) (s : Store) → hget j g (expire k ttl s) ≡ hget j g s

-- `budgetTTLSeconds`
abbrev pub budget_ttl_seconds : ℕ
budget_ttl_seconds = 3_024_000

abbrev over : ℤ → ℕ → Bool
over limit n = ltb_ℤ (pos 0) limit && ltb_ℤ limit (pos n)

module _ (r : Commands) where
  open r use {Store, hget, hincrby, hset, expire}

  -- `tonumber(redis.call("HGET", key, field)) or 0`
  unfoldable pub read : String → Field → Store → ℕ
  read key f s = or_zero (hget key f s)

  -- `budgetReserveScript`: true stands for 1.
  unfoldable pub reserve_script : String → Limits → ℕ → ℕ → Store → Store × Bool
  reserve_script key l reserve_tokens reserve_usd s =
      if over l.tokens (read key tokens s + reserve_tokens)
      then (s, false)
      else if over l.usd (read key usd s + reserve_usd)
      then (s, false)
      else (
        expire key budget_ttl_seconds
            (hincrby key usd reserve_usd (hincrby key tokens reserve_tokens s)),
        true,
      )

  -- `budgetAdjustScript`: true stands for 1, over the limit.
  unfoldable pub adjust_script : String → Limits → ℤ → ℤ → Store → Store × Bool
  adjust_script key l delta_tokens delta_usd s =
      let t = add_clamped (read key tokens s) delta_tokens in
      let u = add_clamped (read key usd s) delta_usd in
      (
        expire key budget_ttl_seconds (hset key usd u (hset key tokens t s)),
        over l.tokens t || over l.usd u,
      )
