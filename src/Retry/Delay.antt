-- ===== src/Retry/Delay.antt =====
-- crates/ingest-core/src/retry.rs: the delays between the calls. A duration is a number of
-- milliseconds. `two_powi` is `2f64.powi`, `to_u64` the cast `as u64`, which stays within its type,
-- and `gen_range` what `rand` draws from a closed range, by the number of the draw: `none` is its
-- panic, on a range that is empty, or whose ends or width are not finite.
use tenso.Prelude.{
  ℕ, zero, suc, ◌+◌, ◌*◌, ◌≤◌, ◌≡◌, refl, ◌∙◌, Bool, true, not, ◌||◌, Option, none, some, leb,
  if◌then◌else◌, Bool-cases, inl, inr, arith,
}
use tenso.Floats.{Floats}
use tenso.Retry.{
  Answer, ok, err, Answer-cases, retry_loop, retry_with_backoff, TransientFor, IsLast,
  retry_with_backoff_lem,
}

module _ (f : Floats) where
  open f use {F64, from_u64, add, sub, mul, max, min, le, zero as nought}

  pub record Draws : Type 0 where
    pub two_powi : ℕ → F64
    pub neg : F64 → F64
    pub to_u64 : F64 → ℕ
    pub gen_range : F64 → F64 → ℕ → Option F64
    -- 0.2
    pub two_tenths : F64

  pub record RetryConfig : Type 0 where
    pub max_retries : ℕ
    pub base_delay : ℕ
    pub max_delay : ℕ
    pub jitter_factor : F64

  module _ (r : Draws) where
    -- RetryConfig::default()
    abbrev pub default_config : RetryConfig
    default_config = record {
      max_retries = 5;
      base_delay = 250;
      max_delay = 10_000;
      jitter_factor = r.two_tenths;
    }

    unfoldable pub capped : RetryConfig → ℕ → F64
    capped config attempt =
        let exp_delay = mul (from_u64 config.base_delay) (r.two_powi attempt) in
        min exp_delay (from_u64 config.max_delay)

    -- The delay after attempt number `attempt`.
    unfoldable pub delay_ms : RetryConfig → ℕ → Option ℕ
    delay_ms config attempt =
        let capped = capped config attempt in
        let jitter_range = mul capped config.jitter_factor in
        elim (r.gen_range (r.neg jitter_range) jitter_range attempt) [
          | none ↦ none
          | some jitter ↦ some (r.to_u64 (max (add capped jitter) nought))
        ]

    -- The call before a sleep, and the sleep: the answer, the number of calls, and the time slept.
    abbrev pub after_sleep :
        {E A : Type 0} → Option ℕ → Option (Answer E A × ℕ × ℕ) → Option (Answer E A × ℕ × ℕ)
    after_sleep none rest = none
    after_sleep (some ms) none = none
    after_sleep (some ms) (some (answer, calls, slept)) = some (answer, calls, ms + slept)

    module _ {E A : Type 0} (config : RetryConfig) (should_retry : E → Bool)
        (op : ℕ → Answer E A) where
      -- The loop with its sleeps, from an attempt on; `none` is a panic, or to run out of fuel.
      unfoldable pub sleeping_loop : ℕ → ℕ → Option (Answer E A × ℕ × ℕ)
      sleeping_loop zero attempt = none
      sleeping_loop (suc fuel) attempt = elim (op attempt) [
        | ok v ↦ some (ok v, suc attempt, 0)
        | err e ↦
            let rest = after_sleep (delay_ms config attempt) (sleeping_loop fuel (suc attempt)) in
            if leb config.max_retries attempt || not (should_retry e)
            then some (err e, suc attempt, 0)
            else rest
      ]

      unfoldable pub sleeping_retry : Option (Answer E A × ℕ × ℕ)
      sleeping_retry = sleeping_loop (suc config.max_retries) 0

    -- What the bound rests on: rounding keeps the order, `min` passes over NaN and infinity, a draw
    -- from a range that is not empty, with finite ends and a finite width, does not panic and is at
    -- most the end of the range, and the cast keeps the order.
    pub record DelayLaws : Type 1 where
      pub IsFinite : F64 → Type 0
      pub from_u64_finite : (n : ℕ) → IsFinite (from_u64 n)
      pub from_u64_nonneg : (n : ℕ) → le nought (from_u64 n) ≡ true
      pub min_powi_finite :
          (n k m : ℕ) → IsFinite (min (mul (from_u64 n) (r.two_powi k)) (from_u64 m))
      pub min_powi_nonneg :
          (n k m : ℕ) → le nought (min (mul (from_u64 n) (r.two_powi k)) (from_u64 m)) ≡ true
      pub min_le_right : (a b : F64) → IsFinite b → le (min a b) b ≡ true
      pub mul_mono :
          (a b c : F64)
          → IsFinite a
          → IsFinite b
          → IsFinite c
          → le nought c ≡ true
          → le a b ≡ true
          → le (mul a c) (mul b c) ≡ true
      pub mul_nonneg :
          (a b : F64)
          → IsFinite a
          → IsFinite b
          → le nought a ≡ true
          → le nought b ≡ true
          → le nought (mul a b) ≡ true
      pub add_mono :
          (a b c d : F64)
          → IsFinite a
          → IsFinite b
          → le a b ≡ true
          → le c d ≡ true
          → le (add a c) (add b d) ≡ true
      pub add_nonneg :
          (a b : F64) → le nought a ≡ true → le nought b ≡ true → le nought (add a b) ≡ true
      pub le_trans : (a b c : F64) → le a b ≡ true → le b c ≡ true → le a c ≡ true
      pub draw_le :
          (low high : F64) (n : ℕ)
          → IsFinite low
          → IsFinite high
          → IsFinite (sub high low)
          → le low high ≡ true
          → (x : F64) × (r.gen_range low high n ≡ some x) × (le x high ≡ true)
      pub neg_finite : (a : F64) → IsFinite a → IsFinite (r.neg a)
      pub neg_le : (a : F64) → IsFinite a → le nought a ≡ true → le (r.neg a) a ≡ true
      -- What lies between zero and a finite number is finite, and so with twice such numbers.
      pub finite_below : (a b : F64) → le nought a ≡ true → le a b ≡ true → IsFinite b → IsFinite a
      pub width_below :
          (a b : F64)
          → le nought a ≡ true
          → le a b ≡ true
          → IsFinite (sub b (r.neg b))
          → IsFinite (sub a (r.neg a))
      pub max_le : (a b c : F64) → le a c ≡ true → le b c ≡ true → le (max a b) c ≡ true
      pub to_u64_mono : (a b : F64) → le a b ≡ true → r.to_u64 a ≤ r.to_u64 b

    -- The longest delay, jitter included.
    abbrev pub longest : RetryConfig → ℕ
    longest config =
        r.to_u64
          (add (from_u64 config.max_delay) (mul (from_u64 config.max_delay) config.jitter_factor))

    -- The greatest range of the jitter.
    abbrev pub widest : RetryConfig → F64
    widest config = mul (from_u64 config.max_delay) config.jitter_factor

    module _ (laws : DelayLaws) (config : RetryConfig)
        (bounded : laws.IsFinite config.jitter_factor)
        (positive : le nought config.jitter_factor ≡ true)
        (widest_finite : laws.IsFinite (widest config))
        (width_finite : laws.IsFinite (sub (widest config) (r.neg (widest config)))) where
      delay_ms-le :
          (attempt : ℕ) → (ms : ℕ) × (delay_ms config attempt ≡ some ms) × (ms ≤ longest config)
      unfolding delay_ms capped
      delay_ms-le attempt =
          let most = from_u64 config.max_delay in
          let cap = capped config attempt in
          let finite = laws.from_u64_finite config.max_delay in
          let cap_finite : laws.IsFinite cap =
            laws.min_powi_finite config.base_delay attempt config.max_delay in
          let cap_nonneg : le nought cap ≡ true =
            laws.min_powi_nonneg config.base_delay attempt config.max_delay in
          let cap_le : le cap most ≡ true = laws.min_le_right _ most finite in
          let range_le =
            laws.mul_mono cap most config.jitter_factor cap_finite finite bounded positive cap_le in
          let jitter_range = mul cap config.jitter_factor in
          let range_nonneg =
            laws.mul_nonneg cap config.jitter_factor cap_finite bounded cap_nonneg positive in
          let range_finite = laws.finite_below jitter_range _ range_nonneg range_le widest_finite in
          let (jitter, ran, drawn) =
            laws.draw_le (r.neg jitter_range) jitter_range attempt
              (laws.neg_finite jitter_range range_finite) range_finite
              (laws.width_below jitter_range _ range_nonneg range_le width_finite)
              (laws.neg_le jitter_range range_finite range_nonneg) in
          let most_nonneg = laws.from_u64_nonneg config.max_delay in
          (
            _,
            rw (ran, delay_ms) refl,
            laws.to_u64_mono _ _ (
                laws.max_le _ _ _
                  (laws.add_mono _ _ _ _ cap_finite finite cap_le
                    (laws.le_trans _ _ _ drawn range_le))
                  (laws.add_nonneg _ _ most_nonneg
                    (laws.mul_nonneg _ _ finite bounded most_nonneg positive))),
          )

      ends :
          {E A : Type 0} {run : Option (Answer E A × ℕ × ℕ)} (a : Answer E A) (attempt : ℕ)
          (answer : Answer E A) (last : ℕ)
          → ◌≡◌ {A = Option (Answer E A × ℕ)} (some (a, suc attempt)) (some (answer, suc last))
          → run ≡ some (a, suc attempt, 0)
          → (slept : ℕ) × (run ≡ some (answer, suc last, slept))
            × (slept + attempt * longest config ≤ last * longest config)
      ends a attempt answer last same ran =
          let number : suc attempt ≡ suc last = cc (same) in
          let kept : a ≡ answer = cc (same) in
          let now : attempt ≡ last = omega (arith, number) in
          (0, ran ∙ rw (kept, now) refl, rw now (omega arith))

      -- The sleeps change no answer and no number of calls.
      sleeping_loop_lem :
          {E A : Type 0} (should_retry : E → Bool) (op : ℕ → Answer E A) (fuel attempt : ℕ)
          (answer : Answer E A) (last : ℕ)
          → retry_loop config.max_retries should_retry op fuel attempt ≡ some (answer, suc last)
          → (slept : ℕ) × (sleeping_loop config should_retry op fuel attempt
              ≡ some (answer, suc last, slept))
            × (slept + attempt * longest config ≤ last * longest config)
      unfolding retry_loop sleeping_loop
      sleeping_loop_lem should_retry op zero attempt answer last h = absurd (cc (h))
      sleeping_loop_lem should_retry op (suc fuel) attempt answer last h =
          elim (Answer-cases (op attempt)) [
            | inl (v, o) ↦
                ends (ok v) attempt answer last (rw (o, retry_loop) at h)
                  (rw (sleeping_loop, o) refl)
            | inr (e, o) ↦
                elim (Bool-cases (leb config.max_retries attempt || not (should_retry e))) [
                  | inl stop ↦
                      ends (err e) attempt answer last (rw (o, stop, retry_loop) at h)
                        (rw (sleeping_loop, o, stop) refl)
                  | inr again ↦
                      let (slept, ran, short) =
                        sleeping_loop_lem should_retry op fuel (suc attempt) answer last
                          (rw (o, again, retry_loop) at h) in
                      let (ms, drawn, le) = delay_ms-le attempt in
                      (
                        ms + slept,
                        rw (sleeping_loop, o, again, drawn, ran) refl,
                        omega (arith, short, le),
                      )
                ]
          ]

      -- Where rounding, draws and the cast follow `DelayLaws`, and with a jitter factor that is
      -- finite and not negative, and with which the greatest range of the jitter has finite ends
      -- and a finite width: `retry_with_backoff`, its sleeps included, does not panic, and returns
      -- the answer of call number `last`, at most `max_retries`. All calls before it failed with
      -- an error worth a retry, and the last one succeeded, or failed with a terminal error, or
      -- used up the retries; and the sleeps between them take at most `last` times the greatest
      -- delay and its jitter.
      pub retry_with_backoff-slept :
          {E A : Type 0} (should_retry : E → Bool) (op : ℕ → Answer E A)
          → (last : ℕ) × (slept : ℕ) × (last ≤ config.max_retries)
            × (sleeping_retry config should_retry op ≡ some (op last, suc last, slept))
            × TransientFor config.max_retries should_retry op 0 last
            × IsLast config.max_retries should_retry op last
            × (slept ≤ last * longest config)
      unfolding sleeping_retry retry_with_backoff
      retry_with_backoff-slept should_retry op =
          let (last, bound, ran, transient, end) =
            retry_with_backoff_lem config.max_retries should_retry op in
          let (slept, slept_ran, short) =
            sleeping_loop_lem should_retry op (suc config.max_retries) 0 (op last) last ran in
          (last, slept, bound, slept_ran, transient, end, omega (arith, short))
