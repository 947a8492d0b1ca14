-- ===== src/Ratelimit/Limiter/Keys.antt =====
-- Each key has its own bucket.
use llm_api_gateway.Prelude.{
  ℕ, ◌%◌, ◌≡◌, ℤ, pos, suc, String, lookup-insert, eq_iff, str_eq, some, arith, if◌then◌else◌,
}
use llm_api_gateway.Ratelimit.Bucket.{Bucket, take}
use llm_api_gateway.Ratelimit.Limiter.{
  Limiter, shard_for, entry_of, put_entry, allow_with_limits, requested,
}

module _ (hash : String → ℕ) where
  pub entry_of-put_entry :
      (key other : String) (b : Bucket) (l : Limiter)
      → entry_of hash other (put_entry hash key b l)
        ≡ (if str_eq key other then some b else entry_of hash other l)
  unfolding entry_of put_entry shard_for
  entry_of-put_entry key other b l =
      ground (arith, eq_iff key other, lookup-insert key other b (l.shards (hash other % 16)))

  -- For positive limits, a request takes its tokens from the bucket of its own key, and answers as
  -- that bucket does; the bucket of every other key stays as it was.
  pub allow_with_limits-take :
      (now : ℕ) (key other : String) (n : ℤ) (r b : ℕ) (l : Limiter)
      → let got = take (suc r) (suc b) now (requested n) (entry_of hash key l) in
        ((allow_with_limits hash now key n (pos (suc r)) (pos (suc b)) l).1 ≡ got.1)
        × (entry_of hash other (allow_with_limits hash now key n (pos (suc r)) (pos (suc b)) l).0
            ≡ (if str_eq key other then some got.0 else entry_of hash other l))
  unfolding allow_with_limits
  allow_with_limits-take now key other n r b l = ground (
    arith,
    entry_of-put_entry key other (take (suc r) (suc b) now (requested n) (entry_of hash key l)).0 l,
  )
