-- ===== src/Budget/Ledger/Balance.antt =====
-- The account of one tenant in one month, kept in memory, against the history of its reservations.
use llm_api_gateway.Prelude.{
  ℕ, zero, suc, ◌+◌, ◌≡◌, refl, ap, ◌∙◌, false, ℤ, pos_part, String, Option, some, none, List, [],
  ◌∷◌, arith, All, get_elem?, sub_ℕ,
}
use llm_api_gateway.Budget.Script.{Commands}
use llm_api_gateway.Budget.Refine.{Account}
use llm_api_gateway.Budget.Manager.{
  Reservation, Reserved, not_enforced, reserved, refused, answers, World, finalize, commit, cancel,
}
use llm_api_gateway.Budget.Ledger.{
  Call, reserves, commits, cancels, Ledger, after_reserve, after_commit, after_cancel, step, run,
  drop_at, total,
}
use llm_api_gateway.Budget.Ledger.Reserve.{
  account, IsPending, Took, reserve-Took, finalize-account, add_clamped-sub_ℕ,
}

total-drop_at :
    (f : Reservation → ℕ) (i : ℕ) (xs : List Reservation) (x : Reservation)
    → get_elem? xs i ≡ some x
    → total f xs ≡ f x + total f (drop_at i xs)
unfolding total drop_at
total-drop_at f i [] x e = cc
total-drop_at f zero (y ∷ xs) x e = ground arith
total-drop_at f (suc i) (y ∷ xs) x e = omega (arith, total-drop_at f i xs x e)

All-drop_at {ℓ} :
    (P : Reservation → Type ℓ) (i : ℕ) (xs : List Reservation) → All P xs → All P (drop_at i xs)
unfolding drop_at
All-drop_at P i [] h = h
All-drop_at P zero (x ∷ xs) h = h.1
All-drop_at P (suc i) (x ∷ xs) h = (h.0, All-drop_at P i xs h.1)

some_inj : {A : Type 0} {x y : A} → some x ≡ some y → x ≡ y
some_inj e = cc

All-get_elem? {ℓ} :
    (P : Reservation → Type ℓ) (i : ℕ) (xs : List Reservation) (x : Reservation)
    → All P xs
    → get_elem? xs i ≡ some x
    → P x
All-get_elem? P i [] x h e = cc
All-get_elem? P zero (y ∷ xs) x h e = rw (← some_inj e) h.0
All-get_elem? P (suc i) (y ∷ xs) x h e = All-get_elem? P i xs x h.1 e

module _ (r : Commands) (sha256_hex : String → String) (tenant month : String) where
  -- Redis is off, and the account holds what was committed and what is pending, and no more.
  pub record IsBalanced (l : Ledger r sha256_hex tenant month) : Type 0 where
    pub in_memory : l.world.active ≡ false
    pub all_pending : All (IsPending r sha256_hex tenant month) l.pending
    pub tokens :
        (account r sha256_hex tenant month l.world).tokens
        ≡ l.spent_tokens + total (λ x. x.reserved_tokens) l.pending
    pub usd :
        (account r sha256_hex tenant month l.world).usd
        ≡ l.spent_usd + total (λ x. x.reserved_usd) l.pending

  -- Settling the i-th pending reservation for `t` tokens and `u` of cost keeps the balance.
  settle-IsBalanced :
      (l : Ledger r sha256_hex tenant month) (i t u : ℕ) (res : Reservation)
      → IsBalanced l
      → get_elem? l.pending i ≡ some res
      → IsBalanced (record {
        world =
            (finalize r sha256_hex answers
              (sub_ℕ t res.reserved_tokens)
              (sub_ℕ u res.reserved_usd)
              res
              l.world).0;
        pending = drop_at i l.pending;
        spent_tokens = l.spent_tokens + t;
        spent_usd = l.spent_usd + u;
      })
  settle-IsBalanced l i t u res b e =
      let p = All-get_elem? (IsPending r sha256_hex tenant month) i l.pending res b.all_pending e in
      let (off, ft, fu) =
        finalize-account r sha256_hex tenant month (sub_ℕ t res.reserved_tokens)
          (sub_ℕ u res.reserved_usd) res l.world b.in_memory p in
      let dt = total-drop_at (λ x. x.reserved_tokens) i l.pending res e in
      let du = total-drop_at (λ x. x.reserved_usd) i l.pending res e in
      record {
        in_memory = off;
        all_pending = All-drop_at (IsPending r sha256_hex tenant month) i l.pending b.all_pending;
        tokens = omega (
          arith,
          b.tokens,
          dt,
          ft,
          add_clamped-sub_ℕ (account r sha256_hex tenant month l.world).tokens res.reserved_tokens t
              (omega (arith, b.tokens, dt)),
        );
        usd = omega (
          arith,
          b.usd,
          du,
          fu,
          add_clamped-sub_ℕ (account r sha256_hex tenant month l.world).usd res.reserved_usd u
              (omega (arith, b.usd, du)),
        );
      }

  unchanged :
      (l : Ledger r sha256_hex tenant month) (m : World r sha256_hex)
      → IsBalanced l
      → m.active ≡ false
      → account r sha256_hex tenant month m ≡ account r sha256_hex tenant month l.world
      → IsBalanced (record l { world = m })
  unchanged l m b off e = record {
    in_memory = off;
    all_pending = b.all_pending;
    tokens = ap (λ (a : Account). a.tokens) e ∙ b.tokens;
    usd = ap (λ (a : Account). a.usd) e ∙ b.usd;
  }

  after_reserve-IsBalanced :
      (l : Ledger r sha256_hex tenant month) (m : World r sha256_hex) (x : Reserved)
      → IsBalanced l
      → Took r sha256_hex tenant month (account r sha256_hex tenant month l.world) m x
      → IsBalanced (after_reserve r sha256_hex tenant month l (m, x))
  unfolding after_reserve total
  after_reserve-IsBalanced l m (reserved res) b (off, p, t, u) = record {
    in_memory = off;
    all_pending = (p, b.all_pending);
    tokens = omega (arith, b.tokens);
    usd = omega (arith, b.usd);
  }
  after_reserve-IsBalanced l m not_enforced b (off, e) = unchanged l m b off e
  after_reserve-IsBalanced l m (refused _) b (off, e) = unchanged l m b off e

  after_commit-IsBalanced :
      (l : Ledger r sha256_hex tenant month) (i : ℕ) (t u : ℤ) (o : Option Reservation)
      → IsBalanced l
      → get_elem? l.pending i ≡ o
      → IsBalanced (after_commit r sha256_hex tenant month l i t u o)
  unfolding after_commit commit
  after_commit-IsBalanced l i t u none b e = b
  after_commit-IsBalanced l i t u (some res) b e =
      settle-IsBalanced l i (pos_part t) (pos_part u) res b e

  after_cancel-IsBalanced :
      (l : Ledger r sha256_hex tenant month) (i : ℕ) (o : Option Reservation)
      → IsBalanced l
      → get_elem? l.pending i ≡ o
      → IsBalanced (after_cancel r sha256_hex tenant month l i o)
  unfolding after_cancel cancel
  after_cancel-IsBalanced l i none b e = b
  after_cancel-IsBalanced l i (some res) b e =
      let s = settle-IsBalanced l i 0 0 res b e in
      record {
        in_memory = s.in_memory;
        all_pending = s.all_pending;
        tokens = omega (arith, s.tokens);
        usd = omega (arith, s.usd);
      }

  step-IsBalanced :
      (l : Ledger r sha256_hex tenant month) (c : Call)
      → IsBalanced l
      → IsBalanced (step r sha256_hex tenant month l c)
  unfolding step
  step-IsBalanced l (reserves t u) b =
      after_reserve-IsBalanced l _ _ b
        (reserve-Took r sha256_hex tenant month t u l.world b.in_memory)
  step-IsBalanced l (commits i t u) b = after_commit-IsBalanced l i t u _ b refl
  step-IsBalanced l (cancels i) b = after_cancel-IsBalanced l i _ b refl

  -- From a ledger that balances, without Redis, after every history of reservations, commits and
  -- cancellations the account in memory holds exactly what was committed and what the reservations
  -- that are still pending hold back.
  pub run-IsBalanced :
      (l : Ledger r sha256_hex tenant month) (cs : List Call)
      → IsBalanced l
      → IsBalanced (run r sha256_hex tenant month l cs)
  unfolding run
  run-IsBalanced l [] b = b
  run-IsBalanced l (c ∷ cs) b =
      run-IsBalanced (step r sha256_hex tenant month l c) cs (step-IsBalanced l c b)
