-- ===== src/Budget/Account.antt =====
-- The monthly accounts of internal/budget/budget.go that are kept in memory. A USD amount is a
-- whole number of a fixed small unit where the code has a float64. What an account holds is never
-- negative (`adjust` sets it to 0), so it is a number; limits and changes are integers.
use Prim.Native.String.{◌++◌ as append}
use llm_api_gateway.Prelude.{
  ℕ, ◌+◌, ◌-◌, suc, ◌&&◌, ℤ, pos, negsuc, leb_ℤ, ltb_ℤ, String, Dict, lookup, insert, Option, none,
  some, if◌then◌else◌,
}

pub record Usage : Type 0 where
  pub tokens : ℕ
  pub usd : ℕ
  pub month : String

-- `none` is the nil error. `unavailable` wraps `ErrUnavailable`; the first two are the messages of
-- `quotaError` and `reservationQuotaError`, the last two those of the Redis paths.
pub data BudgetError : Type 0 where
  tokens_exceeded usd_exceeded unavailable denied exceeded_after_adjustment : BudgetError

pub record Limits : Type 0 where
  pub tokens : ℤ
  pub usd : ℤ

-- `quotaError`
unfoldable pub quota_error : Limits → ℕ → ℕ → Option BudgetError
quota_error l tokens usd =
    if ltb_ℤ (pos 0) l.tokens && leb_ℤ l.tokens (pos tokens)
    then some tokens_exceeded
    else if ltb_ℤ (pos 0) l.usd && leb_ℤ l.usd (pos usd)
    then some usd_exceeded
    else none

unfoldable pub reservation_quota_error : Limits → ℕ → ℕ → Option BudgetError
reservation_quota_error l tokens usd =
    if ltb_ℤ (pos 0) l.tokens && ltb_ℤ l.tokens (pos tokens)
    then some tokens_exceeded
    else if ltb_ℤ (pos 0) l.usd && ltb_ℤ l.usd (pos usd)
    then some usd_exceeded
    else none

-- `u.tokens += delta; if u.tokens < 0 { u.tokens = 0 }`
unfoldable pub add_clamped : ℕ → ℤ → ℕ
add_clamped n (pos k) = n + k
add_clamped n (negsuc k) = n - suc k

unfoldable pub mem_key : String → String → String
mem_key tenant month = append tenant (append "\0" month)

-- `m.mem[key]`, or the new `&usage{month: month}` if there is none
unfoldable pub usage_or_new : String → Option Usage → Usage
usage_or_new month none = record { tokens = 0; usd = 0; month = month }
usage_or_new month (some u) = u

unfoldable pub check_mem : Limits → String → String → Dict Usage → Option BudgetError
check_mem l tenant month mem = elim (lookup (mem_key tenant month) mem) [
  | none ↦ none
  | some u ↦ quota_error l u.tokens u.usd
]

-- `reserveMem`: a new entry stays in the map also if the reservation is refused.
unfoldable pub reserve_mem :
    Limits → String → String → ℕ → ℕ → Dict Usage → Dict Usage × Option BudgetError
reserve_mem l tenant month tokens usd mem =
    let key = mem_key tenant month in
    let u = usage_or_new month (lookup key mem) in
    elim (reservation_quota_error l (u.tokens + tokens) (u.usd + usd)) [
      | some err ↦ (insert key u mem, some err)
      | none ↦ (insert key (record u { tokens = u.tokens + tokens; usd = u.usd + usd }) mem, none)
    ]

-- The part of `adjust` below the lock.
adjust_entry :
    Limits → String → String → ℤ → ℤ → Usage → Dict Usage → Dict Usage × Option BudgetError
adjust_entry l tenant month tokens usd u mem =
    let v = record u { tokens = add_clamped u.tokens tokens; usd = add_clamped u.usd usd } in
    (insert (mem_key tenant month) v mem, reservation_quota_error l v.tokens v.usd)

unfoldable pub adjust_mem :
    Limits → String → String → ℤ → ℤ → Dict Usage → Dict Usage × Option BudgetError
unfolding adjust_entry
adjust_mem l tenant month tokens usd mem = elim (lookup (mem_key tenant month) mem) [
  | some u ↦ adjust_entry l tenant month tokens usd u mem
  | none ↦
      if leb_ℤ tokens (pos 0) && leb_ℤ usd (pos 0)
      then (mem, none)
      else adjust_entry l tenant month tokens usd (usage_or_new month none) mem
]
