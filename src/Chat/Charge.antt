-- ===== src/Chat/Charge.antt =====
-- What a chat request costs its tenant, with the accounts in memory.
pub mod Outcome
pub mod Total
use llm_api_gateway.Prelude.{
  ℕ, ◌+◌, ◌≡◌, refl, ap, sym, ◌∙◌, Bool, true, false, not, ◌&&◌, ◌||◌, ℤ, pos, pos_part, sub_ℕ,
  String, str_eq, Option, none, some, List, [], ◌∷◌, if◌then◌else◌, arith, Bool-cases, inl, inr,
}
use llm_api_gateway.Types.{ChatRequest, ChatResponse}
use llm_api_gateway.Pricing.{Priced, priced, unknown_price, estimate_of}
use llm_api_gateway.Budget.Account.{add_clamped}
use llm_api_gateway.Budget.Refine.{Account}
use llm_api_gateway.Budget.Script.{Commands}
use llm_api_gateway.Budget.Manager.{
  Manager, Reservation, Reserved, not_enforced, reserved, refused, answers, World, reserve,
  finalize, commit, cancel, reserved_of,
}
use llm_api_gateway.Budget.Ledger.Reserve.{
  account, IsPending, Took, reserve-Took, reserve-off, reserve-not_enforced, finalize-account,
  add_clamped-sub_ℕ,
}
use llm_api_gateway.Chat.{
  Claimed, claimed, unpriced, rejected, claim_of, commit_if, cancel_if, actual_usd, estimate_for,
  estimated_tokens, reserve_priced, reserve_chat_budget,
}

module _ (r : Commands) (sha256_hex : String → String) (path_match : String → String → Option Bool)
    (tenant month : String) where
  -- The budget applies to the tenant.
  abbrev pub is_enforced : Bool → World r sha256_hex → Bool
  is_enforced budgeted m = budgeted && not (not m.enabled || str_eq tenant "")

  -- `m` differs from `m0` in what is in memory at most, and Redis is off.
  pub record IsKept (m0 m : World r sha256_hex) : Type 0 where
    pub off : m.active ≡ false
    pub catalog : m.catalog ≡ m0.catalog
    pub cost : m.cost_per_token ≡ m0.cost_per_token

  -- What the account holds, `t` tokens and `u` of cost more than in `m0`.
  abbrev pub Holds : World r sha256_hex → ℕ → ℕ → World r sha256_hex → Type 0
  Holds m0 t u m =
      let a : World r sha256_hex → Account = account r sha256_hex tenant month in
      ((a m).tokens ≡ (a m0).tokens + t) × ((a m).usd ≡ (a m0).usd + u)

  -- What `reserveChatBudget` did, for an estimate of `cost`.
  abbrev pub Claims : World r sha256_hex → ℕ → Bool → World r sha256_hex → Claimed → Type 0
  Claims m0 cost enforced m (claimed (some res) usd) =
      IsKept m0 m
      × IsPending r sha256_hex tenant month res
      × (enforced ≡ true)
      × (usd ≡ cost)
      × Holds m0 res.reserved_tokens res.reserved_usd m
  Claims m0 cost enforced m (claimed none usd) = IsKept m0 m × (enforced ≡ false) × Holds m0 0 0 m
  Claims m0 cost enforced m other = IsKept m0 m × Holds m0 0 0 m

  pub same-Holds :
      (m0 m : World r sha256_hex)
      → account r sha256_hex tenant month m ≡ account r sha256_hex tenant month m0
      → Holds m0 0 0 m
  same-Holds m0 m e = (
    omega (arith, ap (λ (a : Account). a.tokens) e),
    omega (arith, ap (λ (a : Account). a.usd) e),
  )

  claim_of-Claims :
      (m0 m : World r sha256_hex) (usd : ℕ) (x : Reserved) (enforced : Bool)
      → IsKept m0 m
      → Took r sha256_hex tenant month (account r sha256_hex tenant month m0) m x
      → ((res : Reservation) → x ≡ reserved res → enforced ≡ true)
      → (x ≡ not_enforced → enforced ≡ false)
      → Claims m0 usd enforced m (claim_of usd x)
  unfolding claim_of
  claim_of-Claims m0 m usd (reserved res) enforced k (off, p, t, u) yes_if no_if =
      (k, p, yes_if res refl, refl, (t, u))
  claim_of-Claims m0 m usd not_enforced enforced k (off, e) yes_if no_if =
      (k, no_if refl, same-Holds m0 m e)
  claim_of-Claims m0 m usd (refused e) enforced k (off, same) yes_if no_if =
      (k, same-Holds m0 m same)

  reserved_of-ne :
      (t u : ℕ) (e : _) → reserved_of r sha256_hex tenant month t u e ≡ not_enforced → ⊥
  unfolding reserved_of
  reserved_of-ne t u none h = cc
  reserved_of-ne t u (some e) h = cc

  reserve-IsKept :
      (t u : ℤ) (m : World r sha256_hex)
      → m.active ≡ false
      → (not m.enabled || str_eq tenant "") ≡ false
      → IsKept m (reserve r sha256_hex answers tenant month t u m).0
  reserve-IsKept t u m off q =
      rw (reserve-off r sha256_hex tenant month t u m off q)
        (record { off = off; catalog = refl; cost = refl })

  reserve-Claims :
      (t u : ℤ) (usd : ℕ) (m : World r sha256_hex)
      → m.active ≡ false
      → let got = reserve r sha256_hex answers tenant month t u m in
        Claims m usd (not (not m.enabled || str_eq tenant "")) got.0 (claim_of usd got.1)
  unfolding claim_of
  reserve-Claims t u usd m off = elim (Bool-cases (not m.enabled || str_eq tenant "")) [
    | inl q ↦
        rw (reserve-not_enforced r sha256_hex tenant month t u m q)
          (record { off = off; catalog = refl; cost = refl }, ap not q, same-Holds m m refl)
    | inr q ↦
        claim_of-Claims m _ usd _ _ (reserve-IsKept t u m off q)
          (reserve-Took r sha256_hex tenant month t u m off) (λ res e. ap not q)
          (λ e. absurd (
            reserved_of-ne _ _ _
              (sym (ap (λ p. p.1) (reserve-off r sha256_hex tenant month t u m off q)) ∙ e)))
  ]

  pub reserve_priced-Claims :
      (tokens : ℕ) (p : Priced) (m : World r sha256_hex)
      → m.active ≡ false
      → let got = reserve_priced r sha256_hex path_match answers answers tenant month tokens p m in
        Claims m (estimate_of p).usd (not (not m.enabled || str_eq tenant "")) got.0 got.1
  unfolding reserve_priced
  reserve_priced-Claims tokens (priced e) m off =
      reserve-Claims (pos tokens) (pos e.usd) e.usd m off
  reserve_priced-Claims tokens (unknown_price e) m off =
      (record { off = off; catalog = refl; cost = refl }, same-Holds m m refl)

  -- The estimated cost of a request.
  abbrev pub estimated_usd : {F V : Type 0} → ChatRequest F V → World r sha256_hex → ℕ
  estimated_usd q m = (estimate_of (estimate_for r sha256_hex path_match answers q m)).usd

  pub reserve_chat_budget-Claims :
      {F V : Type 0} (budgeted : Bool) (q : ChatRequest F V) (m : World r sha256_hex)
      → m.active ≡ false
      → let got =
          reserve_chat_budget r sha256_hex path_match answers budgeted answers tenant month q m in
        Claims m (estimated_usd q m) (is_enforced budgeted m) got.0 got.1
  unfolding reserve_chat_budget
  reserve_chat_budget-Claims true q m off = reserve_priced-Claims _ _ m off
  reserve_chat_budget-Claims false q m off =
      (record { off = off; catalog = refl; cost = refl }, refl, same-Holds m m refl)

  -- Settling a pending reservation leaves what was there before it, and the actual usage.
  settle-Holds :
      (m0 m : World r sha256_hex) (res : Reservation) (t u : ℕ)
      → IsKept m0 m
      → IsPending r sha256_hex tenant month res
      → Holds m0 res.reserved_tokens res.reserved_usd m
      → Holds m0 t u
          (finalize r sha256_hex answers
            (sub_ℕ t res.reserved_tokens)
            (sub_ℕ u res.reserved_usd)
            res
            m).0
  settle-Holds m0 m res t u k p (ht, hu) =
      let (off, ft, fu) =
        finalize-account r sha256_hex tenant month (sub_ℕ t res.reserved_tokens)
          (sub_ℕ u res.reserved_usd) res m k.off p in
      let a = account r sha256_hex tenant month m in
      (
        omega (arith, ft, ht, add_clamped-sub_ℕ a.tokens res.reserved_tokens t (omega (arith, ht))),
        omega (arith, fu, hu, add_clamped-sub_ℕ a.usd res.reserved_usd u (omega (arith, hu))),
      )

  -- What is charged of `t`, for the answer of a provider or a stream.
  abbrev pub charged : Bool → ℕ → ℕ
  charged enforced t = if enforced then t else 0

  pub commit_if-Holds :
      (m0 m : World r sha256_hex) (enforced : Bool) (res : Option Reservation) (cost usd : ℕ)
      (t u : ℤ)
      → Claims m0 cost enforced m (claimed res usd)
      → Holds m0
          (charged enforced (pos_part t))
          (charged enforced (pos_part u))
          (commit_if r sha256_hex path_match answers res t u m)
  unfolding commit_if commit
  commit_if-Holds m0 m enforced none cost usd t u (k, e, h) = rw e h
  commit_if-Holds m0 m enforced (some res) cost usd t u (k, p, e, c, h) =
      rw e (settle-Holds m0 m res (pos_part t) (pos_part u) k p h)

  pub cancel_if-Holds :
      (m0 m : World r sha256_hex) (enforced : Bool) (res : Option Reservation) (cost usd : ℕ)
      → Claims m0 cost enforced m (claimed res usd)
      → Holds m0 0 0 (cancel_if r sha256_hex path_match answers res m)
  unfolding cancel_if cancel
  cancel_if-Holds m0 m enforced none cost usd (k, e, h) = h
  cancel_if-Holds m0 m enforced (some res) cost usd (k, p, e, c, h) =
      settle-Holds m0 m res 0 0 k p h
