-- ===== src/Retry.antt =====
-- crates/ingest-core/src/retry.rs: the loop of `retry_with_backoff`. `op n` is what the call of
-- number `n` answers. The sleeps between the calls change no answer: they are the subject of
-- Delay.
pub mod Delay
use mathlib.Core.Path.{subst}
use tenso.Prelude.{
  ℕ, zero, suc, ◌+◌, ◌≤◌, ◌≡◌, refl, ◌⊎◌, inl, inr, Bool, true, false, not, ◌||◌, Option, none,
  some, if◌then◌else◌, leb, Bool-cases, arith,
}

pub data Answer (E A : Type 0) : Type 0 where
  ok : A → Answer E A
  err : E → Answer E A

pub Answer-cases :
    {E A : Type 0} (a : Answer E A) → ((v : A) × (a ≡ ok v)) ⊎ ((e : E) × (a ≡ err e))
Answer-cases (ok v) = inl (v, refl)
Answer-cases (err e) = inr (e, refl)

module _ {E A : Type 0} (max_retries : ℕ) (should_retry : E → Bool) (op : ℕ → Answer E A) where
  -- The loop from an attempt on: the answer, and the number of calls.
  unfoldable pub retry_loop : ℕ → ℕ → Option (Answer E A × ℕ)
  retry_loop zero attempt = none
  retry_loop (suc fuel) attempt = elim (op attempt) [
    | ok v ↦ some (ok v, suc attempt)
    | err e ↦
        let rest = retry_loop fuel (suc attempt) in
        if leb max_retries attempt || not (should_retry e) then some (err e, suc attempt) else rest
  ]

  unfoldable pub retry_with_backoff : Option (Answer E A × ℕ)
  retry_with_backoff = retry_loop (suc max_retries) 0

  -- The call fails, and the error is worth a retry.
  abbrev pub IsTransientAt : ℕ → Type 0
  IsTransientAt n = (e : E) × (op n ≡ err e) × (should_retry e ≡ true)

  -- The same of the `n` calls from an attempt on.
  pub TransientFor : ℕ → ℕ → Type 0
  TransientFor attempt zero = Unit {0}
  TransientFor attempt (suc n) = IsTransientAt attempt × TransientFor (suc attempt) n

  -- The call ends the loop: it succeeds, it is the last, or its error is terminal.
  abbrev pub IsLast : ℕ → Type 0
  IsLast n =
      ((v : A) × (op n ≡ ok v))
      ⊎ ((e : E) × (op n ≡ err e) × ((max_retries ≤ n) ⊎ (should_retry e ≡ false)))

  retry_loop_lem :
      (fuel attempt : ℕ)
      → attempt + fuel ≡ suc max_retries
      → attempt ≤ max_retries
      → (n : ℕ) × (last : ℕ) × (last ≡ attempt + n)
        × (last ≤ max_retries)
        × (retry_loop fuel attempt ≡ some (op last, suc last))
        × TransientFor attempt n
        × IsLast last
  unfolding retry_loop TransientFor
  retry_loop_lem zero attempt h le = absurd (omega arith)
  retry_loop_lem (suc fuel) attempt h le = elim (Answer-cases (op attempt)) [
    | inl (v, o) ↦ (0, attempt, omega arith, le, rw (retry_loop, o) refl, tt, inl (v, o))
    | inr (e, o) ↦ elim (Bool-cases (leb max_retries attempt)) [
      | inl full ↦ (
        0,
        attempt,
        omega arith,
        le,
        rw (retry_loop, o, full) refl,
        tt,
        inr (e, o, inl (ground (arith, full))),
      )
      | inr more ↦ elim (Bool-cases (should_retry e)) [
        | inr terminal ↦ (
          0,
          attempt,
          omega arith,
          le,
          rw (retry_loop, o, more, terminal) refl,
          tt,
          inr (e, o, inr terminal),
        )
        | inl again ↦
            let (n, last, eq, bound, ran, calls, end) =
              retry_loop_lem fuel (suc attempt) (omega arith) (ground (arith, more)) in
            (
              suc n,
              last,
              omega arith,
              bound,
              rw (retry_loop, o, more, again) ran,
              ((e, o, again), calls),
              end,
            )
      ]
    ]
  ]

  -- The fuel of `max_retries + 1` is enough: the loop returns. It returns the answer of its last
  -- call, which is at most call `max_retries`, so there are at most `max_retries + 1` calls. All
  -- calls before it failed with an error worth a retry, and the last one succeeded, or failed with
  -- a terminal error, or used up the retries.
  pub retry_with_backoff_lem :
      (last : ℕ) × (last ≤ max_retries)
      × (retry_with_backoff ≡ some (op last, suc last))
      × TransientFor 0 last
      × IsLast last
  unfolding retry_with_backoff
  retry_with_backoff_lem =
      let (n, last, eq, bound, ran, calls, end) =
        retry_loop_lem (suc max_retries) 0 (omega arith) (omega arith) in
      let same : n ≡ last = omega arith in
      (last, bound, ran, subst (TransientFor 0) same calls, end)
