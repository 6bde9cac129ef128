-- ===== src/RateLimiter/Bounds.antt =====
-- The bounds of the bucket: its tokens, the burst at one instant, and a bucket that is too small.
use mathlib.Core.Path.{subst}
use tenso.Prelude.{
  ℕ, suc, ◌-◌, ◌^◌, ◌≤◌, ◌<◌, ◌≡◌, refl, sym, ap, ◌∙◌, true, false, Option, none, some, List, [],
  ◌∷◌, Bool-cases, Option-cases, inl, inr, All, arith,
}
use tenso.Floats.{Floats}
use tenso.RateLimiter.{
  TokenBucketLimiter, new, refilled, Attempt, attempt, acquire, run, granted, grants_of, sleep_of,
}

-- What `f64` guarantees. A comparison with NaN is false, so `le zero a` holds of no NaN.
module _ (f : Floats) (secs : ℕ → f.F64) where
  open f use {F64, add, sub, mul, min, le, one}

  pub record RateLaws : Type 1 where
    pub IsFinite : F64 → Type 0
    pub secs_finite : (d : ℕ) → IsFinite (secs d)
    pub secs_nonneg : (d : ℕ) → le f.zero (secs d) ≡ true
    pub add_nonneg :
        (a b : F64) → le f.zero a ≡ true → le f.zero b ≡ true → le f.zero (add a b) ≡ true
    pub mul_nonneg :
        (a b : F64)
        → IsFinite a
        → IsFinite b
        → le f.zero a ≡ true
        → le f.zero b ≡ true
        → le f.zero (mul a b) ≡ true
    pub min_nonneg :
        (a b : F64) → le f.zero a ≡ true → le f.zero b ≡ true → le f.zero (min a b) ≡ true
    pub min_le : (a b : F64) → le f.zero a ≡ true → le f.zero b ≡ true → le (min a b) b ≡ true
    pub min_le_left : (a b : F64) → le f.zero a ≡ true → le f.zero b ≡ true → le (min a b) a ≡ true
    pub sub_nonneg : (a : F64) → le one a ≡ true → le f.zero (sub a one) ≡ true
    pub sub_le : (a b : F64) → le one a ≡ true → le a b ≡ true → le (sub a one) b ≡ true
    pub le_refl : (a : F64) → le f.zero a ≡ true → le a a ≡ true
    -- A number that reaches 1 and is at most `b` makes `b` reach 1.
    pub one_le : (a b : F64) → le one a ≡ true → le a b ≡ true → le one b ≡ true
    -- The integer part, for numbers that are not negative. From 2^53 on, subtracting 1 may round.
    pub floor : F64 → ℕ
    pub floor_one :
        (a : F64) → le one a ≡ true → floor a < 2 ^ 53 → suc (floor (sub a one)) ≡ floor a
    pub floor_le : (a b : F64) → le f.zero a ≡ true → le a b ≡ true → floor a ≤ floor b
    -- No time brings no tokens.
    pub no_time :
        (a r : F64) → IsFinite r → le f.zero a ≡ true → le (add a (mul (secs 0) r)) a ≡ true

module _ (f : Floats) (secs : ℕ → f.F64) (from_secs : f.F64 → Option ℕ) (l : RateLaws f secs) where
  open f use {F64, add, sub, mul, min, le, one}

  -- The tokens are numbers from 0 to the capacity, and the rate is finite and not negative.
  pub record Inv (b : TokenBucketLimiter f secs from_secs) : Type 0 where
    pub tokens_nonneg : le f.zero b.tokens ≡ true
    pub tokens_le : le b.tokens b.capacity ≡ true
    pub capacity_nonneg : le f.zero b.capacity ≡ true
    pub rate_finite : l.IsFinite b.refill_per_sec
    pub rate_nonneg : le f.zero b.refill_per_sec ≡ true

  refilled_lem :
      (b : TokenBucketLimiter f secs from_secs) (now : ℕ)
      → Inv b
      → (le f.zero (refilled f secs from_secs b now) ≡ true)
        × (le (refilled f secs from_secs b now) b.capacity ≡ true)
  unfolding refilled
  refilled_lem b now v =
      let d = now - b.last_refill in
      let more = l.add_nonneg b.tokens (mul (secs d) b.refill_per_sec) v.tokens_nonneg (
        l.mul_nonneg (secs d) b.refill_per_sec (l.secs_finite d) v.rate_finite (l.secs_nonneg d)
          v.rate_nonneg) in
      (
        l.min_nonneg _ b.capacity more v.capacity_nonneg,
        l.min_le _ b.capacity more v.capacity_nonneg,
      )

  attempt-Inv :
      (b : TokenBucketLimiter f secs from_secs) (now : ℕ)
      → Inv b
      → Inv (attempt f secs from_secs b now).1
  unfolding attempt
  attempt-Inv b now v =
      let t = refilled f secs from_secs b now in
      let (nonneg, bounded) = refilled_lem b now v in
      elim (Bool-cases (le one t)) [
        | inl e ↦
            rw (attempt, e)
              (record {
                tokens_nonneg = l.sub_nonneg t e;
                tokens_le = l.sub_le t b.capacity e bounded;
                capacity_nonneg = v.capacity_nonneg;
                rate_finite = v.rate_finite;
                rate_nonneg = v.rate_nonneg;
              })
        | inr e ↦
            rw (attempt, e)
              (record {
                tokens_nonneg = nonneg;
                tokens_le = bounded;
                capacity_nonneg = v.capacity_nonneg;
                rate_finite = v.rate_finite;
                rate_nonneg = v.rate_nonneg;
              })
      ]

  run-Inv :
      (b : TokenBucketLimiter f secs from_secs) (instants : List ℕ)
      → Inv b
      → Inv (run f secs from_secs b instants).1
  unfolding run
  run-Inv b [] v = v
  run-Inv b (now ∷ instants) v =
      run-Inv (attempt f secs from_secs b now).1 instants (attempt-Inv b now v)

  -- However the tasks that share a bucket take turns, and at whatever instants: a new bucket, whose
  -- burst and rate are numbers that are not negative, and whose rate is finite, holds from 0 tokens
  -- to its capacity after any number of rounds.
  pub run-new-Inv :
      (rate_per_sec burst : F64) (start : ℕ) (instants : List ℕ)
      → le f.zero burst ≡ true
      → le f.zero rate_per_sec ≡ true
      → l.IsFinite rate_per_sec
      → Inv (run f secs from_secs (new f secs from_secs rate_per_sec burst start) instants).1
  unfolding new
  run-new-Inv rate_per_sec burst start instants some_burst some_rate finite =
      run-Inv (new f secs from_secs rate_per_sec burst start) instants (record {
        tokens_nonneg = some_burst;
        tokens_le = l.le_refl burst some_burst;
        capacity_nonneg = some_burst;
        rate_finite = finite;
        rate_nonneg = some_rate;
      })

  attempt-grants :
      (b : TokenBucketLimiter f secs from_secs) (now : ℕ)
      → le one (refilled f secs from_secs b now) ≡ true
      → attempt f secs from_secs b now ≡ (
        granted,
        record b { tokens = sub (refilled f secs from_secs b now) one; last_refill = now },
      )
  unfolding attempt
  attempt-grants b now e = rw (attempt, e) refl

  grants_of-sleep_of : (d : Option ℕ) → grants_of f secs from_secs (sleep_of f secs from_secs d) ≡ 0
  grants_of-sleep_of none = refl
  grants_of-sleep_of (some d) = refl

  attempt-waits :
      (b : TokenBucketLimiter f secs from_secs) (now : ℕ)
      → le one (refilled f secs from_secs b now) ≡ false
      → (a : Attempt f secs from_secs) × (grants_of f secs from_secs a ≡ 0)
        × (attempt f secs from_secs b now
            ≡ (a, record b { tokens = refilled f secs from_secs b now; last_refill = now }))
  unfolding attempt
  attempt-waits b now e =
      let d = from_secs (f.div (sub one (refilled f secs from_secs b now)) b.refill_per_sec) in
      (sleep_of f secs from_secs d, grants_of-sleep_of d, rw (attempt, e) refl)

  -- A round at the instant of the last one adds no token.
  refilled_again :
      (b : TokenBucketLimiter f secs from_secs) (now : ℕ)
      → Inv b
      → b.last_refill ≡ now
      → l.floor (refilled f secs from_secs b now) ≤ l.floor b.tokens
  unfolding refilled
  refilled_again b now v same =
      let no_wait : now - b.last_refill ≡ 0 = omega (arith, same) in
      let s = add b.tokens (mul (secs 0) b.refill_per_sec) in
      let more = l.add_nonneg b.tokens (mul (secs 0) b.refill_per_sec) v.tokens_nonneg (
        l.mul_nonneg (secs 0) b.refill_per_sec (l.secs_finite 0) v.rate_finite (l.secs_nonneg 0)
          v.rate_nonneg) in
      let plain : refilled f secs from_secs b now ≡ min s b.capacity =
        ap (λ d. min (add b.tokens (mul (secs d) b.refill_per_sec)) b.capacity) no_wait in
      let capped =
        l.floor_le (min s b.capacity) s (l.min_nonneg s b.capacity more v.capacity_nonneg)
          (l.min_le_left s b.capacity more v.capacity_nonneg) in
      let same_tokens =
        l.floor_le s b.tokens more
          (l.no_time b.tokens b.refill_per_sec v.rate_finite v.tokens_nonneg) in
      rw plain (omega (arith, capped, same_tokens))

  run-refilled :
      (b : TokenBucketLimiter f secs from_secs) (now : ℕ) (instants : List ℕ)
      → Inv b
      → l.floor b.capacity < 2 ^ 53
      → All (λ i. i ≡ now) instants
      → (run f secs from_secs b instants).0 ≤ l.floor (refilled f secs from_secs b now)
  unfolding run attempt
  run-refilled b now [] v small at = omega arith
  run-refilled b now (i ∷ instants) v small (here, at) =
      rw here (elim (Bool-cases (le one (refilled f secs from_secs b now))) [
        | inl e ↦
            let t = refilled f secs from_secs b now in
            let b' = record b { tokens = sub t one; last_refill = now } in
            let (nonneg, bounded) = refilled_lem b now v in
            let ran = attempt-grants b now e in
            let v' : Inv b' = subst (λ r. Inv r.1) ran (attempt-Inv b now v) in
            let rest = run-refilled b' now instants v' small at in
            let again = refilled_again b' now v' refl in
            let down =
              l.floor_one t e (omega (arith, l.floor_le t b.capacity nonneg bounded, small)) in
            rw ran (omega (arith, rest, again, down))
        | inr e ↦
            let t = refilled f secs from_secs b now in
            let b' = record b { tokens = t; last_refill = now } in
            let (a, zero_granted, ran) = attempt-waits b now e in
            let v' : Inv b' = subst (λ r. Inv r.1) ran (attempt-Inv b now v) in
            let rest = run-refilled b' now instants v' small at in
            let again = refilled_again b' now v' refl in
            rw ran (omega (arith, zero_granted, rest, again))
      ])

  -- A bucket whose tokens lie between 0 and its capacity, whose rate is finite and not negative,
  -- and whose capacity is below 2^53, grants at one instant, to all tasks together, no more
  -- requests than the integer part of its capacity.
  pub run-burst :
      (b : TokenBucketLimiter f secs from_secs) (now : ℕ) (instants : List ℕ)
      → Inv b
      → l.floor b.capacity < 2 ^ 53
      → All (λ i. i ≡ now) instants
      → (run f secs from_secs b instants).0 ≤ l.floor b.capacity
  run-burst b now instants v small at =
      let (nonneg, bounded) = refilled_lem b now v in
      omega (
        arith,
        run-refilled b now instants v small at,
        l.floor_le (refilled f secs from_secs b now) b.capacity nonneg bounded,
      )

  -- A bucket whose tokens lie between 0 and its capacity, whose rate is finite and not negative,
  -- and whose capacity is below 1, grants nothing, however many rounds are tried and at whatever
  -- instants.
  pub run-starved :
      (b : TokenBucketLimiter f secs from_secs) (instants : List ℕ)
      → Inv b
      → le one b.capacity ≡ false
      → (run f secs from_secs b instants).0 ≡ 0
  unfolding run attempt
  run-starved b [] v small = refl
  run-starved b (now ∷ instants) v small =
      let t = refilled f secs from_secs b now in
      let (nonneg, bounded) = refilled_lem b now v in
      elim (Bool-cases (le one t)) [
        | inl e ↦ absurd (
            let reaches = l.one_le t b.capacity e bounded in
            let bad : true ≡ false = sym reaches ∙ small in cc (bad))
        | inr e ↦
            let b' = record b { tokens = t; last_refill = now } in
            let (a, zero_granted, ran) = attempt-waits b now e in
            let v' : Inv b' = subst (λ r. Inv r.1) ran (attempt-Inv b now v) in
            rw ran (omega (arith, zero_granted, run-starved b' instants v' small))
      ]

  -- Where the bucket, as each round of an `acquire` finds it, has its tokens between 0 and its
  -- capacity, a rate that is finite and not negative, and a capacity below 1, the `acquire` never
  -- returns, however many rounds it takes.
  pub acquire-starved :
      (rounds : List (TokenBucketLimiter f secs from_secs × ℕ))
      → All (λ r. Inv r.0 × (le one r.0.capacity ≡ false)) rounds
      → acquire f secs from_secs rounds ≡ none
  unfolding acquire attempt
  acquire-starved [] a = refl
  acquire-starved ((b, now) ∷ rounds) ((v, small), a) =
      let t = refilled f secs from_secs b now in
      let (nonneg, bounded) = refilled_lem b now v in
      let rest = acquire-starved rounds a in
      elim (Bool-cases (le one t)) [
        | inl e ↦ absurd (
            let reaches = l.one_le t b.capacity e bounded in
            let bad : true ≡ false = sym reaches ∙ small in cc (bad))
        | inr e ↦ elim (Option-cases (from_secs (f.div (sub one t) b.refill_per_sec))) [
          | inl d ↦ rw (acquire, e, d) refl
          | inr (d, given) ↦ rw (acquire, e, given) rest
        ]
      ]
