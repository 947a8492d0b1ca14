-- ===== src/Budget/Ledger.antt =====
-- A history of the reservations of one tenant in one month, as steps of the manager.
pub mod Reserve
pub mod Balance
use llm_api_gateway.Prelude.{
  ℕ, Bool-cases, not, ◌||◌, zero, suc, ◌+◌, ◌≤◌, ◌≡◌, refl, ap, ◌∙◌, Bool, true, false, ℤ, pos_part,
  String, Option, some, none, List, [], ◌∷◌, arith, All, get_elem?, ◌⊎◌, inl, inr, Option-cases,
  ◌-◌, str_eq, eq_refl, sub_ℕ, if◌then◌else◌,
}
use llm_api_gateway.Budget.Account.{
  BudgetError, mem_key, add_clamped, reserve_mem, adjust_mem, Limits,
}
use llm_api_gateway.Budget.Script.{Commands}
use llm_api_gateway.Budget.Refine.{
  Account, mem_account, exceeds, reserve_account, adjust_account, is_nil, reserve_mem-refines,
  adjust_mem-refines,
}
use llm_api_gateway.Budget.Manager.{
  Manager, Reservation, Reserved, not_enforced, reserved, refused, Link, answers, World, adjust,
  finalize, commit, cancel, reserve, reserve_on, reserved_of,
}

-- The list without its i-th element.
unfoldable pub drop_at {ℓ} : {A : Type ℓ} → ℕ → List A → List A
drop_at i [] = []
drop_at zero (x ∷ xs) = xs
drop_at (suc i) (x ∷ xs) = x ∷ drop_at i xs

unfoldable pub total : (Reservation → ℕ) → List Reservation → ℕ
total f [] = 0
total f (x ∷ xs) = f x + total f xs

-- A call about the tenant and the month: the number names one of the open reservations.
pub data Call : Type 0 where
  reserves : ℤ → ℤ → Call
  commits : ℕ → ℤ → ℤ → Call
  cancels : ℕ → Call

module _ (r : Commands) (sha256_hex : String → String) (tenant month : String) where
  -- The manager, the reservations that are still to be settled, and what has been committed.
  pub record Ledger : Type 0 where
    pub world : World r sha256_hex
    pub pending : List Reservation
    pub spent_tokens : ℕ
    pub spent_usd : ℕ

  unfoldable pub after_reserve : Ledger → World r sha256_hex × Reserved → Ledger
  after_reserve l (m, reserved res) = record l { world = m; pending = res ∷ l.pending }
  after_reserve l (m, other) = record l { world = m }

  unfoldable pub after_commit : Ledger → ℕ → ℤ → ℤ → Option Reservation → Ledger
  after_commit l i t u none = l
  after_commit l i t u (some res) = record {
    world = (commit r sha256_hex answers t u res l.world).0;
    pending = drop_at i l.pending;
    spent_tokens = l.spent_tokens + pos_part t;
    spent_usd = l.spent_usd + pos_part u;
  }

  unfoldable pub after_cancel : Ledger → ℕ → Option Reservation → Ledger
  after_cancel l i none = l
  after_cancel l i (some res) = record l {
    world = (cancel r sha256_hex answers res l.world).0;
    pending = drop_at i l.pending;
  }

  unfoldable pub step : Ledger → Call → Ledger
  step l (reserves t u) = after_reserve l (reserve r sha256_hex answers tenant month t u l.world)
  step l (commits i t u) = after_commit l i t u (get_elem? l.pending i)
  step l (cancels i) = after_cancel l i (get_elem? l.pending i)

  unfoldable pub run : Ledger → List Call → Ledger
  run l [] = l
  run l (c ∷ cs) = run (step l c) cs
