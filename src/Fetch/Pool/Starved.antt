-- ===== src/Fetch/Pool/Starved.antt =====
-- The pool of crates/ingest-core/src/block_fetch.rs under a rate limiter whose bucket never holds a
-- whole token.
use tenso.Prelude.{ℕ, ◌≡◌, false, Option, none, some, List, [], All}
use tenso.Floats.{Floats}
use tenso.Types.{DecodedBlock}
use tenso.Rpc.{RpcError}
use tenso.Retry.{Answer}
use tenso.Fetch.{FetchOutcome, Acquire, fetch_one}
use tenso.Fetch.Pool.{Pool, start, Step, completes, Reach, here, next}
use tenso.Fetch.Pool.Outcomes.{no_outcome-start}
use tenso.RateLimiter.{TokenBucketLimiter, acquire}
use tenso.RateLimiter.Bounds.{RateLaws, Inv, acquire-starved}

-- A request that is granted no token has no outcome.
module _ (grants : ℕ → Acquire) (server : ℕ → ℕ → Answer RpcError DecodedBlock)
    (never : (slot : ℕ) → grants slot ≡ none) where
  starved-Step : {p q : Pool} → ¬ Step grants server p q
  unfolding fetch_one
  starved-Step (completes before after slot o at ran) =
      absurd
        (let bad : ◌≡◌ {A = Option FetchOutcome} none (some o) = rw (never slot) at ran in cc (bad))

  starved-Reach :
      (start_slot count max_concurrency : ℕ) {p : Pool}
      → Reach grants server (start start_slot count max_concurrency) p
      → p.outcomes ≡ []
  starved-Reach start_slot count max_concurrency here =
      no_outcome-start start_slot count max_concurrency
  starved-Reach start_slot count max_concurrency (next r s) = absurd (starved-Step s)

module _ (f : Floats) (secs : ℕ → f.F64) (from_secs : f.F64 → Option ℕ) (l : RateLaws f secs) where
  -- Where every request finds a bucket, at each of its rounds, whose tokens lie between 0 and its
  -- capacity, whose rate is finite and not negative, and whose capacity is below 1, the pool hands
  -- on no outcome, whatever the server answers.
  pub starved_lem :
      (rounds : ℕ → List (TokenBucketLimiter f secs from_secs × ℕ))
      (server : ℕ → ℕ → Answer RpcError DecodedBlock) (start_slot count max_concurrency : ℕ)
      {p : Pool}
      → ((slot : ℕ)
          → All (λ r. Inv f secs from_secs l r.0 × (f.le f.one r.0.capacity ≡ false)) (rounds slot))
      → Reach
          (λ slot. acquire f secs from_secs (rounds slot))
          server
          (start start_slot count max_concurrency)
          p
      → p.outcomes ≡ []
  starved_lem rounds server start_slot count max_concurrency starving r =
      starved-Reach _ server
        (λ slot. acquire-starved f secs from_secs l (rounds slot) (starving slot)) start_slot count
        max_concurrency r
