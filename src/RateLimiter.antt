-- ===== src/RateLimiter.antt =====
-- crates/ingest-core/src/rate_limiter.rs: the token bucket. An instant, and a duration, is a number
-- of nanoseconds. `secs` is `Duration::as_secs_f64`, and `from_secs` is `Duration::from_secs_f64`,
-- which panics (`none`) on a length that is negative, not a number, or too large.
pub mod Bounds
use tenso.Prelude.{ℕ, ◌-◌, ◌+◌, Option, none, some, List, [], ◌∷◌, if◌then◌else◌}
use tenso.Floats.{Floats}

module _ (f : Floats) (secs : ℕ → f.F64) (from_secs : f.F64 → Option ℕ) where
  open f use {F64, add, sub, mul, div, min, le, one}

  -- `tokens` and `last_refill` are those behind the lock, which all clones share.
  pub record TokenBucketLimiter : Type 0 where
    pub tokens : F64
    pub last_refill : ℕ
    pub capacity : F64
    pub refill_per_sec : F64

  unfoldable pub new : F64 → F64 → ℕ → TokenBucketLimiter
  new rate_per_sec burst now = record {
    tokens = burst;
    last_refill = now;
    capacity = burst;
    refill_per_sec = rate_per_sec;
  }

  pub data Attempt : Type 0 where
    granted : Attempt
    sleeps : ℕ → Attempt
    panics : Attempt

  -- Time since an instant is zero before it.
  unfoldable pub refilled : TokenBucketLimiter → ℕ → F64
  refilled l now = min (add l.tokens (mul (secs (now - l.last_refill)) l.refill_per_sec)) l.capacity

  abbrev sleep_of : Option ℕ → Attempt
  sleep_of none = panics
  sleep_of (some d) = sleeps d

  -- One round of the loop of `acquire`, under the lock.
  unfoldable pub attempt : TokenBucketLimiter → ℕ → Attempt × TokenBucketLimiter
  attempt l now =
      let tokens = refilled l now in
      if le one tokens
      then (granted, record l { tokens = sub tokens one; last_refill = now })
      else (
        sleep_of (from_secs (div (sub one tokens) l.refill_per_sec)),
        record l { tokens = tokens; last_refill = now },
      )

  -- The loop of one `acquire`: its rounds, each with the bucket as it finds it then (the other tasks
  -- use it too) and the instant. `none` is to wait on, or a panic.
  unfoldable pub acquire : List (TokenBucketLimiter × ℕ) → Option (Unit {0})
  acquire [] = none
  acquire ((l, now) ∷ rounds) =
      let rest = acquire rounds in
      elim (attempt l now).0 [ granted ↦ some tt | sleeps d ↦ rest | panics ↦ none ]

  abbrev grants_of : Attempt → ℕ
  grants_of granted = 1
  grants_of (sleeps d) = 0
  grants_of panics = 0

  -- The rounds of all tasks, at the instants at which they take the lock: how many were granted.
  unfoldable pub run : TokenBucketLimiter → List ℕ → ℕ × TokenBucketLimiter
  run l [] = (0, l)
  run l (now ∷ instants) =
      let (a, l') = attempt l now in let (n, l'') = run l' instants in (grants_of a + n, l'')
