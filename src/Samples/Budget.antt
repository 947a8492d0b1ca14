-- ===== src/Samples/Budget.antt =====
-- Accounts and reservations on concrete inputs, with a store that is a function.
use llm_api_gateway.Prelude.{
  ℕ, ◌+◌, ◌≡◌, refl, true, false, not, ◌&&◌, pos, negsuc, String, str_eq, Option, none, some, [],
  ◌∷◌, if◌then◌else◌, lookup,
}
use llm_api_gateway.Pricing.{Catalog}
use llm_api_gateway.Budget.Account.{
  Limits, mem_key, reserve_mem, adjust_mem, usage_or_new, reservation_quota_error,
}
use llm_api_gateway.Budget.Script.{
  Commands, Field, or_zero, same_field, reserve_script, adjust_script,
}
use llm_api_gateway.Budget.Refine.{
  reserve_account, adjust_account, mem_account, redis_account, is_nil, reserve_mem-refines,
  adjust_mem-refines, reserve_script-refines, adjust_script-refines,
}
use llm_api_gateway.Budget.Manager.{
  Reservation, answers, World, reserved, reserve, reserve_on, reserved_of, cancel, set_redis,
}
use llm_api_gateway.Budget.Once.{IsSplit, cancel-other_backend}
use llm_api_gateway.Budget.Ledger as Ledger
use llm_api_gateway.Budget.Ledger.Balance.{IsBalanced, run-IsBalanced}

abbrev store_set : String → Field → ℕ → (String → Field → Option ℕ) → String → Field → Option ℕ
store_set k f n s j g = if str_eq k j && same_field f g then some n else s j g

abbrev store_add : String → Field → ℕ → (String → Field → Option ℕ) → String → Field → Option ℕ
store_add k f n s j g = if str_eq k j && same_field f g then some (or_zero (s j g) + n) else s j g

abbrev pub commands : Commands
commands = record {
  Store = String → Field → Option ℕ;
  hget = λ k f s. s k f;
  hincrby = store_add;
  hset = store_set;
  expire = λ k ttl s. s;
  hget-hset = λ k j f g n s. refl;
  hget-hincrby = λ k j f g n s. refl;
  hget-expire = λ k j g ttl s. refl;
}

abbrev empty_store : String → Field → Option ℕ
empty_store k f = none

abbrev limits : Limits
limits = record { tokens = pos 100; usd = pos 0 }

abbrev pub plain : String → String
plain tenant = tenant

abbrev catalog : Catalog
catalog = record { rules = []; fallback = 0; currency = "USD"; version = ""; unknown = "fallback" }

abbrev pub manager : World commands plain
manager = record {
  mem = [];
  redis = empty_store;
  active = false;
  enabled = true;
  limits = limits;
  cost_per_token = 0;
  catalog = catalog;
}

reserve_mem-refines_example :
    let want = reserve_account limits 60 7 (mem_account (mem_key "acme" "2026-01") []) in
    let got = reserve_mem limits "acme" "2026-01" 60 7 [] in
    (is_nil got.1 ≡ want.1)
    × (mem_account (mem_key "acme" "2026-01") got.0 ≡ (
        if str_eq (mem_key "acme" "2026-01") (mem_key "acme" "2026-01")
        then want.0
        else mem_account (mem_key "acme" "2026-01") []))
reserve_mem-refines_example =
    reserve_mem-refines limits "acme" "2026-01" (mem_key "acme" "2026-01") 60 7 []

adjust_mem-refines_example :
    let want =
      adjust_account limits (negsuc 4) (pos 7) (mem_account (mem_key "acme" "2026-01") []) in
    let got = adjust_mem limits "acme" "2026-01" (negsuc 4) (pos 7) [] in
    (is_nil got.1 ≡ want.1)
    × (mem_account (mem_key "acme" "2026-01") got.0 ≡ (
        if str_eq (mem_key "acme" "2026-01") (mem_key "acme" "2026-01")
        then want.0
        else mem_account (mem_key "acme" "2026-01") []))
adjust_mem-refines_example =
    adjust_mem-refines limits "acme" "2026-01" (mem_key "acme" "2026-01") (negsuc 4) (pos 7) []

reserve_script-refines_example :
    let want = reserve_account limits 60 7 (redis_account commands "k" empty_store) in
    let got = reserve_script commands "k" limits 60 7 empty_store in
    (got.1 ≡ want.1) × (redis_account commands "k" got.0 ≡ want.0)
reserve_script-refines_example = reserve_script-refines commands "k" "k" limits 60 7 empty_store

adjust_script-refines_example :
    let want = adjust_account limits (pos 160) (pos 7) (redis_account commands "k" empty_store) in
    let got = adjust_script commands "k" limits (pos 160) (pos 7) empty_store in
    (not got.1 ≡ want.1) × (redis_account commands "k" got.0 ≡ want.0)
adjust_script-refines_example =
    adjust_script-refines commands "k" "k" limits (pos 160) (pos 7) empty_store

abbrev reservation : Reservation
reservation = record {
  tenant = "acme";
  month = "2026-01";
  reserved_tokens = 60;
  reserved_usd = 7;
  once = false;
  err = none;
}

reserve-manager :
    (reserve commands plain answers "acme" "2026-01" (pos 60) (pos 7) manager).1
    ≡ reserved reservation
unfolding reserve reserve_on reserved_of reserve_mem usage_or_new reservation_quota_error lookup
reserve-manager = refl

cancel-other_backend_example :
    let charged = (reserve commands plain answers "acme" "2026-01" (pos 60) (pos 7) manager).0 in
    IsSplit commands plain "acme" "2026-01" manager
      (cancel commands plain answers reservation (set_redis true empty_store charged)).0
      empty_store
      reservation
cancel-other_backend_example =
    cancel-other_backend commands plain "acme" "2026-01" (pos 60) (pos 7) manager reservation
      empty_store refl reserve-manager

abbrev ledger : Ledger.Ledger commands plain "acme" "2026-01"
ledger = record { world = manager; pending = []; spent_tokens = 0; spent_usd = 0 }

ledger-IsBalanced : IsBalanced commands plain "acme" "2026-01" ledger
unfolding Ledger.total lookup
ledger-IsBalanced = record { in_memory = refl; all_pending = tt; tokens = refl; usd = refl }

run-IsBalanced_example : IsBalanced commands plain "acme" "2026-01" (
    Ledger.run commands plain "acme" "2026-01" ledger
      (Ledger.reserves (pos 60) (pos 7) ∷ Ledger.commits 0 (pos 80) (pos 9) ∷ []))
run-IsBalanced_example =
    run-IsBalanced commands plain "acme" "2026-01" ledger
      (Ledger.reserves (pos 60) (pos 7) ∷ Ledger.commits 0 (pos 80) (pos 9) ∷ []) ledger-IsBalanced
