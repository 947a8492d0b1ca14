-- ===== src/Ratelimit/Limiter/Cleanup.antt =====
use native.Mathlib.Nat.{mul-le-mul_right}
-- What the removal of idle buckets does to the limits.
use llm_api_gateway.Prelude.{
  ℕ, ap, sym, ◌∙◌, inl, inr, retain-Distinct, leb_ℤ, ◌||◌, ◌*◌, ◌≤◌, ◌≡◌, refl, not, ℤ, pos, suc,
  String, str_eq, Option, some, none, arith, Distinct, keep, lookup-retain, insert-Distinct,
  Bool-cases, ◌-◌, ◌==◌,
}
use llm_api_gateway.Ratelimit.Bucket.{Bucket, refill, take, token}
use llm_api_gateway.Ratelimit.Limiter.{
  Limiter, shard_for, entry_of, put_entry, allow_with_limits, requested, cleanup, expired, ttl,
}
use llm_api_gateway.Ratelimit.Limiter.Keys.{entry_of-put_entry, allow_with_limits-take}

-- The two times of a bucket are written together.
abbrev pub SeenAtRefill : Option Bucket → Type 0
SeenAtRefill none = Unit {0}
SeenAtRefill (some b) = b.last_seen ≡ b.last_refill

idle_fills : (rpm burst e : ℕ) → ttl ≤ e → burst ≤ 10 * rpm → burst * token ≤ e * rpm
idle_fills rpm burst e h k = omega (arith, mul-le-mul_right rpm h)

-- Forgetting a bucket that has been idle for the TTL changes nothing if ten minutes at the rate
-- fill it.
refill-expired :
    (rpm burst t now : ℕ) (entry : Option Bucket)
    → SeenAtRefill entry
    → t ≤ now
    → burst ≤ 10 * rpm
    → refill rpm burst now (keep (λ b. not (expired t b)) entry) ≡ refill rpm burst now entry
unfolding refill
refill-expired rpm burst t now none s h k = refl
refill-expired rpm burst t now (some b) s h k =
    ground (arith, idle_fills rpm burst (now - b.last_refill))

take-forget :
    (rpm burst t now n : ℕ) (entry : Option Bucket)
    → SeenAtRefill entry
    → t ≤ now
    → burst ≤ 10 * rpm
    → (take rpm burst now n (keep (λ b. not (expired t b)) entry)).1
      ≡ (take rpm burst now n entry).1
unfolding take
take-forget rpm burst t now n entry s h k = rw (refill-expired rpm burst t now entry s h k)

take_times :
    (rpm burst now n : ℕ) (entry : Option Bucket)
    → (take rpm burst now n entry).0.last_seen ≡ (take rpm burst now n entry).0.last_refill
unfolding take refill
take_times rpm burst now n none = ground arith
take_times rpm burst now n (some b) = ground arith

keep-SeenAtRefill :
    (t : ℕ) (entry : Option Bucket)
    → SeenAtRefill entry
    → SeenAtRefill (keep (λ b. not (expired t b)) entry)
keep-SeenAtRefill t none s = tt
keep-SeenAtRefill t (some b) s = elim (Bool-cases (not (expired t b))) [
  | inl q ↦ rw q s
  | inr q ↦ rw q tt
]

module _ (hash : String → ℕ) where
  pub record IsWf (l : Limiter) : Type 0 where
    pub distinct : (i : ℕ) → Distinct (l.shards i)
    pub seen : (key : String) → SeenAtRefill (entry_of hash key l)

  entry_of-cleanup :
      (t : ℕ) (key : String) (l : Limiter)
      → IsWf l
      → entry_of hash key (cleanup t l) ≡ keep (λ b. not (expired t b)) (entry_of hash key l)
  unfolding entry_of cleanup
  entry_of-cleanup t key l w = lookup-retain _ key _ (w.distinct (shard_for hash key))

  put-Distinct_at :
      (key : String) (b : Bucket) (l : Limiter)
      → ((i : ℕ) → Distinct (l.shards i))
      → (i : ℕ) → Distinct ((put_entry hash key b l).shards i)
  unfolding put_entry
  put-Distinct_at key b l d i = elim (Bool-cases (i == shard_for hash key)) [
    | inl q ↦ rw q (insert-Distinct key b _ (d i))
    | inr q ↦ rw q (d i)
  ]

  -- The invariant of the limiter: a key stands once in its shard, and the times of a bucket agree.
  pub put_entry-IsWf :
      (key : String) (b : Bucket) (l : Limiter)
      → b.last_seen ≡ b.last_refill
      → IsWf l
      → IsWf (put_entry hash key b l)
  put_entry-IsWf key b l e w = record {
    distinct = put_distinct;
    seen = λ other.
        rw (entry_of-put_entry hash key other b l)
          (elim (Bool-cases (str_eq key other)) [ inl q ↦ rw q e | inr q ↦ rw q (w.seen other) ]);
  }
    where
      put_distinct : (i : ℕ) → Distinct ((put_entry hash key b l).shards i)
      put_distinct i = put-Distinct_at key b l w.distinct i

  pub allow_with_limits-IsWf :
      (now : ℕ) (key : String) (n rpm burst : ℤ) (l : Limiter)
      → IsWf l
      → IsWf (allow_with_limits hash now key n rpm burst l).0
  unfolding allow_with_limits
  allow_with_limits-IsWf now key n rpm burst l w =
      elim (Bool-cases (leb_ℤ rpm (pos 0) || leb_ℤ burst (pos 0))) [
        | inl q ↦ rw q w
        | inr q ↦ rw q (put_entry-IsWf key _ l (take_times _ _ now _ (entry_of hash key l)) w)
      ]

  pub cleanup-IsWf : (t : ℕ) (l : Limiter) → IsWf l → IsWf (cleanup t l)
  unfolding cleanup
  cleanup-IsWf t l w = record {
    distinct = λ i. retain-Distinct _ _ (w.distinct i);
    seen = λ key.
        rw (entry_of-cleanup t key l w) (keep-SeenAtRefill t (entry_of hash key l) (w.seen key));
  }

  -- In a limiter that keeps the invariant `IsWf`, if ten minutes at the rate fill the bucket, a
  -- request after a removal of idle buckets is answered as if none had been removed.
  pub allow-cleanup :
      (t now : ℕ) (key : String) (n : ℤ) (r b : ℕ) (l : Limiter)
      → IsWf l
      → t ≤ now
      → suc b ≤ 10 * suc r
      → (allow_with_limits hash now key n (pos (suc r)) (pos (suc b)) (cleanup t l)).1
        ≡ (allow_with_limits hash now key n (pos (suc r)) (pos (suc b)) l).1
  allow-cleanup t now key n r b l w h k =
      let forget = λ (e : Option Bucket). (take (suc r) (suc b) now (requested n) e).1 in
      (allow_with_limits-take hash now key key n r b (cleanup t l)).0
      ∙ ap forget (entry_of-cleanup t key l w)
      ∙ take-forget (suc r) (suc b) t now (requested n) (entry_of hash key l) (w.seen key) h k
      ∙ sym (allow_with_limits-take hash now key key n r b l).0
