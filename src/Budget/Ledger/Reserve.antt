-- ===== src/Budget/Ledger/Reserve.antt =====
-- What one call of `Reserve`, `Commit` or `Cancel` does to an account in memory.
use llm_api_gateway.Prelude.{
  ℕ, Bool-cases, not, ◌||◌, ◌+◌, ◌≤◌, ◌≡◌, refl, ap, ◌∙◌, true, false, ℤ, pos_part, String, Option,
  some, none, arith, ◌⊎◌, inl, inr, str_eq, eq_refl, sub_ℕ, if◌then◌else◌,
}
use llm_api_gateway.Budget.Account.{
  BudgetError, mem_key, add_clamped, reserve_mem, adjust_mem, Limits,
}
use llm_api_gateway.Budget.Script.{Commands}
use llm_api_gateway.Budget.Refine.{
  Account, mem_account, reserve_account, adjust_account, is_nil, reserve_mem-refines,
  adjust_mem-refines,
}
use llm_api_gateway.Budget.Manager.{
  Reservation, Reserved, not_enforced, reserved, refused, answers, World, adjust, finalize, reserve,
  reserve_on, reserved_of,
}

pub add_clamped-sub_ℕ :
    (n held actual : ℕ) → held ≤ n → add_clamped n (sub_ℕ actual held) + held ≡ n + actual
unfolding add_clamped
add_clamped-sub_ℕ n held actual h = ground arith

module _ (r : Commands) (sha256_hex : String → String) (tenant month : String) where
  abbrev pub account : World r sha256_hex → Account
  account m = mem_account (mem_key tenant month) m.mem

  -- A reservation of this account that is still to be settled.
  pub record IsPending (res : Reservation) : Type 0 where
    pub of_tenant : res.tenant ≡ tenant
    pub of_month : res.month ≡ month
    pub unsettled : res.once ≡ false

  reserve_account-cases :
      (l : Limits) (t u : ℕ) (a : Account)
      → ((reserve_account l t u a).1 ≡ true)
          × ((reserve_account l t u a).0 ≡ record { tokens = a.tokens + t; usd = a.usd + u })
        ⊎ ((reserve_account l t u a).1 ≡ false) × ((reserve_account l t u a).0 ≡ a)
  unfolding reserve_account
  reserve_account-cases l t u a = ground arith

  -- What a call of `Reserve` did to the account `a`: it took the reservation that it returned, or
  -- it returned none and changed nothing.
  abbrev pub Took : Account → World r sha256_hex → Reserved → Type 0
  Took a m (reserved res) =
      (m.active ≡ false)
      × IsPending res
      × ((account m).tokens ≡ a.tokens + res.reserved_tokens)
      × ((account m).usd ≡ a.usd + res.reserved_usd)
  Took a m not_enforced = (m.active ≡ false) × (account m ≡ a)
  Took a m (refused e) = (m.active ≡ false) × (account m ≡ a)

  reserved_of-Took :
      (l : Limits) (t u : ℕ) (a : Account) (m : World r sha256_hex) (e : Option BudgetError)
      → m.active ≡ false
      → is_nil e ≡ (reserve_account l t u a).1
      → account m ≡ (reserve_account l t u a).0
      → Took a m (reserved_of r sha256_hex tenant month t u e)
  unfolding reserved_of
  reserved_of-Took l t u a m none off e f = elim (reserve_account-cases l t u a) [
    | inl (_, g) ↦ (
      off,
      record { of_tenant = refl; of_month = refl; unsettled = refl },
      ap (λ (b : Account). b.tokens) (f ∙ g),
      ap (λ (b : Account). b.usd) (f ∙ g),
    )
    | inr (n, _) ↦ cc
  ]
  reserved_of-Took l t u a m (some err) off e f = elim (reserve_account-cases l t u a) [
    | inl (y, _) ↦ cc
    | inr (_, g) ↦ (off, f ∙ g)
  ]

  pub reserve-off :
      (t u : ℤ) (m : World r sha256_hex)
      → m.active ≡ false
      → (not m.enabled || str_eq tenant "") ≡ false
      → let got = reserve_mem m.limits tenant month (pos_part t) (pos_part u) m.mem in
        reserve r sha256_hex answers tenant month t u m ≡ (
          record m { mem = got.0 },
          reserved_of r sha256_hex tenant month (pos_part t) (pos_part u) got.1,
        )
  unfolding reserve reserve_on
  reserve-off t u m off q = ground arith

  pub reserve-not_enforced :
      (t u : ℤ) (m : World r sha256_hex)
      → (not m.enabled || str_eq tenant "") ≡ true
      → reserve r sha256_hex answers tenant month t u m ≡ (m, not_enforced)
  unfolding reserve
  reserve-not_enforced t u m q = rw q

  if_self :
      {A : Type 0} (x y : A)
      → (if str_eq (mem_key tenant month) (mem_key tenant month) then x else y) ≡ x
  if_self x y = rw (eq_refl (mem_key tenant month))

  pub reserve-Took :
      (t u : ℤ) (m : World r sha256_hex)
      → m.active ≡ false
      → let got = reserve r sha256_hex answers tenant month t u m in Took (account m) got.0 got.1
  reserve-Took t u m off = elim (Bool-cases (not m.enabled || str_eq tenant "")) [
    | inl q ↦ rw (reserve-not_enforced t u m q) (off, refl)
    | inr q ↦
        let refines =
          reserve_mem-refines m.limits tenant month (mem_key tenant month) (pos_part t) (pos_part u)
            m.mem in
        rw (reserve-off t u m off q) (
          reserved_of-Took m.limits (pos_part t) (pos_part u) (account m)
            (record m {
              mem = (reserve_mem m.limits tenant month (pos_part t) (pos_part u) m.mem).0;
            })
            _ off refines.0 (refines.1 ∙ if_self _ _))
  ]

  finalize-off :
      (t u : ℤ) (res : Reservation) (m : World r sha256_hex)
      → m.active ≡ false
      → IsPending res
      → (finalize r sha256_hex answers t u res m).0
        ≡ record m { mem = (adjust_mem m.limits tenant month t u m.mem).0 }
  unfolding finalize adjust
  finalize-off t u res m off p = ground arith

  -- What settling a pending reservation by the changes `t` and `u` does to the account.
  pub finalize-account :
      (t u : ℤ) (res : Reservation) (m : World r sha256_hex)
      → m.active ≡ false
      → IsPending res
      → let got = (finalize r sha256_hex answers t u res m).0 in
        (got.active ≡ false)
        × ((account got).tokens ≡ add_clamped (account m).tokens t)
        × ((account got).usd ≡ add_clamped (account m).usd u)
  unfolding adjust_account
  finalize-account t u res m off p =
      let refines = adjust_mem-refines m.limits tenant month (mem_key tenant month) t u m.mem in
      let e = refines.1 ∙ if_self _ _ in
      rw (finalize-off t u res m off p)
        (off, ap (λ (b : Account). b.tokens) e, ap (λ (b : Account). b.usd) e)
