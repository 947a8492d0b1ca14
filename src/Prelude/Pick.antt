-- ===== src/Prelude/Pick.antt =====
-- The loop `for x in xs { if !test(x) { continue }; if best == nil || better(x, best) { best = x } }`.
use llm_api_gateway.Prelude.Tests.{if◌then◌else◌, Bool-cases}
use llm_api_gateway.Prelude.Lists.{All}
use mathlib.Core.Path.{◌≡◌, refl, sym, subst}
use mathlib.Core.Bool.{Bool, true, false, ◌&&◌}
use mathlib.Core.Logic.{◌⊎◌, inl, inr}
use mathlib.Core.List.{List, [], ◌∷◌, Memᴰ}
use mathlib.Core.Option.{Option, none, some}

module _ {A : Type 0} (test : A → Bool) (better : A → A → Bool) where
  unfoldable pub pick : A → Option A → Option A
  pick x none = if test x then some x else none
  pick x (some best) = if test x && better x best then some x else some best

  unfoldable pub pick_loop : List A → Option A → Option A
  unfolding pick
  pick_loop [] best = best
  pick_loop (x ∷ xs) best = pick_loop xs (pick x best)

module _ {A : Type 0} {b a : A} (x : A) (xs : List A) where
  later : (b ≡ a) ⊎ Memᴰ b xs → (b ≡ a) ⊎ Memᴰ b (x ∷ xs)
  later (inl e) = inl e
  later (inr m) = inr (Memᴰ.tail m)

here : {A : Type 0} {b : A} (x : A) (xs : List A) → (b ≡ x) ⊎ Memᴰ b xs → Memᴰ b (x ∷ xs)
here x xs (inl e) = Memᴰ.head e
here x xs (inr m) = Memᴰ.tail m

-- `Le x y`: `y` is at least as good as `x`.
module _ {A : Type 0} (test : A → Bool) (Le : A → A → Type 0) where
  -- `b` is one of the elements that pass the test, and the best of them.
  pub record IsPick (xs : List A) (b : A) : Type 0 where
    pub passes : test b ≡ true
    pub member : Memᴰ b xs
    pub best : All (λ x. test x ≡ true → Le x b) xs

  record FromBest (xs : List A) (a b : A) : Type 0 where
    passes : test b ≡ true
    above : Le a b
    member : (b ≡ a) ⊎ Memᴰ b xs
    best : All (λ x. test x ≡ true → Le x b) xs

module _ {A : Type 0} (test : A → Bool) (better : A → A → Bool) (Le : A → A → Type 0)
    (Le-refl : (x : A) → Le x x) (Le-trans : (x y z : A) → Le x y → Le y z → Le x z)
    (sound : (x y : A) → better x y ≡ true → Le y x)
    (complete : (x y : A) → better x y ≡ false → Le x y) where
  pick_loop-some :
      (xs : List A) (a : A)
      → test a ≡ true
      → (b : A) × (pick_loop test better xs (some a) ≡ some b) × FromBest test Le xs a b
  unfolding pick_loop
  pick_loop-some [] a t =
      (a, refl, record { passes = t; above = Le-refl a; member = inl refl; best = tt })
  pick_loop-some (x ∷ xs) a t = elim (Bool-cases (test x)) [
    | inr q ↦
        let (b, e, f) = pick_loop-some xs a t in
        (
          b,
          rw q e,
          record {
            passes = f.passes;
            above = f.above;
            member = later x xs f.member;
            best = (λ p. cc, f.best);
          },
        )
    | inl q ↦ elim (Bool-cases (better x a)) [
      | inl w ↦
          let (b, e, f) = pick_loop-some xs x q in
          (
            b,
            rw (q, w) e,
            record {
              passes = f.passes;
              above = Le-trans a x b (sound x a w) f.above;
              member = inr (here x xs f.member);
              best = (λ p. f.above, f.best);
            },
          )
      | inr w ↦
          let (b, e, f) = pick_loop-some xs a t in
          (
            b,
            rw (q, w) e,
            record {
              passes = f.passes;
              above = f.above;
              member = later x xs f.member;
              best = (λ p. Le-trans x a b (complete x a w) f.above, f.best);
            },
          )
    ]
  ]

  -- The loop finds nothing exactly if nothing passes the test, and otherwise a best element.
  pub pick_loop-cases :
      (xs : List A)
      → ((pick_loop test better xs none ≡ none) × All (λ x. test x ≡ false) xs)
        ⊎ ((b : A) × (pick_loop test better xs none ≡ some b) × IsPick test Le xs b)
  unfolding pick_loop
  pick_loop-cases [] = inl (refl, tt)
  pick_loop-cases (x ∷ xs) = elim (Bool-cases (test x)) [
    | inr q ↦ elim (pick_loop-cases xs) [
      | inl (e, none_pass) ↦ inl (rw q e, (q, none_pass))
      | inr (b, e, p) ↦ inr (
        b,
        rw q e,
        record { passes = p.passes; member = Memᴰ.tail p.member; best = (λ r. cc, p.best) },
      )
    ]
    | inl q ↦
        let (b, e, f) = pick_loop-some xs x q in
        inr (
          b,
          rw q e,
          record { passes = f.passes; member = here x xs f.member; best = (λ r. f.above, f.best) },
        )
  ]

pub All-Memᴰ {κ} : {A : Type 0} (P : A → Type κ) (x : A) (xs : List A) → All P xs → Memᴰ x xs → P x
All-Memᴰ P x [] h m = elim m [ ]
All-Memᴰ P x (y ∷ xs) h (Memᴰ.head e) = subst P (sym e) h.0
All-Memᴰ P x (y ∷ xs) h (Memᴰ.tail m) = All-Memᴰ P x xs h.1 m
