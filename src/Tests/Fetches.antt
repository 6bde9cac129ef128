-- ===== src/Tests/Fetches.antt =====
-- A slot that answers after two failed calls.
use native.Mathlib.Nat.{mul-le-mul_right}
use tenso.Prelude.{
  ℕ, zero, suc, ◌*◌, ◌^◌, ◌≤◌, ◌≡◌, refl, none, some, if◌then◌else◌, [], ◌∷◌, true, not, arith,
}
use tenso.Prelude.Int.{ℤ, pos, negsuc, neg, pos_part, ltb_ℤ, ◌+ℤ◌, ◌*ℤ◌}
use tenso.Types.{DecodedBlock}
use tenso.Rpc.{RpcError, transport, is_transient}
use tenso.Retry.{Answer, ok, err, retry_with_backoff, TransientFor, IsLast}
use tenso.Retry.Delay.{
  Draws, RetryConfig, default_config, delay_ms, capped, sleeping_loop, sleeping_retry, DelayLaws,
  longest, retry_with_backoff-slept,
}
use tenso.Tests.Trades.{whole}
use tenso.Tests.Limits.{add_nonneg_ℤ, mul_nonneg_ℤ}
use tenso.Fetch.{FetchOutcome, fetch_one}

abbrev block : DecodedBlock
block = record { slot = 7; block_time = none; transactions = [] }

abbrev answers : ℕ → Answer RpcError DecodedBlock
answers zero = err (transport "reset")
answers (suc zero) = err (transport "reset")
answers (suc (suc n)) = ok block

third_call : fetch_one (some tt) answers 7 ≡ some (FetchOutcome.ingested block)
unfolding fetch_one retry_with_backoff tenso.Retry.retry_loop is_transient
third_call = refl

right_slot : (n : ℕ) (b : DecodedBlock) → answers n ≡ ok b → b.slot ≡ 7
right_slot zero b h = absurd (cc (h))
right_slot (suc zero) b h = absurd (cc (h))
right_slot (suc (suc n)) b h = cc (h)

abbrev draws : Draws whole
draws = record {
  two_powi = λ k. pos (2 ^ k);
  neg = neg;
  to_u64 = pos_part;
  gen_range = λ low high n. if ltb_ℤ high low then none else some high;
  two_tenths = pos 1;
}

abbrev config : RetryConfig whole
config = default_config whole draws

delays :
    delay_ms whole draws config 0 ∷ delay_ms whole draws config 6 ∷ [] ≡ some 500 ∷ some 20_000 ∷ []
unfolding delay_ms capped ◌+ℤ◌ ◌*ℤ◌
delays = refl

-- A negative factor gives an empty range, on which the draw panics.
negative :
    sleeping_retry whole draws (record config { jitter_factor = negsuc 0 }) is_transient answers
    ≡ none
unfolding sleeping_retry sleeping_loop delay_ms capped ◌+ℤ◌ ◌*ℤ◌ is_transient
negative = refl

drawn :
    (low high : ℤ)
    → not (ltb_ℤ high low) ≡ true
    → (x : ℤ) × ((if ltb_ℤ high low then none else some high) ≡ some x)
      × (not (ltb_ℤ high x) ≡ true)
drawn low high h = (high, ground (arith, h), ground arith)

add_mono_ℤ :
    (a b c d : ℤ)
    → Unit {0}
    → Unit {0}
    → not (ltb_ℤ b a) ≡ true
    → not (ltb_ℤ d c) ≡ true
    → not (ltb_ℤ (b +ℤ d) (a +ℤ c)) ≡ true
unfolding ◌+ℤ◌
add_mono_ℤ a b c d fa fb h k = ground arith

mul_mono_ℤ :
    (a b c : ℤ)
    → not (ltb_ℤ c (pos 0)) ≡ true
    → not (ltb_ℤ b a) ≡ true
    → not (ltb_ℤ (b *ℤ c) (a *ℤ c)) ≡ true
unfolding ◌*ℤ◌
mul_mono_ℤ (pos a) (pos b) (pos c) p h =
    let le : a * c ≤ b * c = mul-le-mul_right c (ground (arith, h)) in ground (arith, le)
mul_mono_ℤ (negsuc a) (pos b) (pos c) p h = ground arith
mul_mono_ℤ (negsuc a) (negsuc b) (pos c) p h =
    let le : suc b * c ≤ suc a * c = mul-le-mul_right c (ground (arith, h)) in ground (arith, le)
mul_mono_ℤ (pos a) (negsuc b) (pos c) p h = absurd (ground (arith, h))
mul_mono_ℤ a b (negsuc c) p h = absurd (ground (arith, p))

capped_nonneg :
    (p : ℤ) (m : ℕ) → not (ltb_ℤ p (pos 0)) ≡ true → whole.le (pos 0) (whole.min p (pos m)) ≡ true
capped_nonneg p m h = ground arith

abbrev laws : DelayLaws whole draws
laws = record {
  IsFinite = λ a. Unit;
  from_u64_finite = λ n. tt;
  from_u64_nonneg = λ n. ground arith;
  min_powi_finite = λ n k m. tt;
  min_le_right = λ a b h. ground arith;
  mul_mono = λ a b c fa fb fc. mul_mono_ℤ a b c;
  mul_nonneg = λ a b fa fb. mul_nonneg_ℤ a b;
  add_mono = add_mono_ℤ;
  add_nonneg = add_nonneg_ℤ;
  le_trans = λ a b c h k. ground arith;
  min_powi_nonneg = λ n k m.
      capped_nonneg (pos n *ℤ pos (2 ^ k)) m
        (mul_nonneg_ℤ (pos n) (pos (2 ^ k)) (ground arith) (ground arith));
  draw_le = λ low high n a b c h. drawn low high h;
  neg_finite = λ a h. tt;
  neg_le = λ a h k. ground arith;
  finite_below = λ a b h k fb. tt;
  width_below = λ a b h k fb. tt;
  max_le = λ a b c h k. ground arith;
  to_u64_mono = λ a b h. ground arith;
}

retry_with_backoff-slept_example :
    (last : ℕ) × (total : ℕ) × (last ≤ 5)
    × (sleeping_retry whole draws config is_transient answers
        ≡ some (answers last, suc last, total))
    × TransientFor 5 is_transient answers 0 last
    × IsLast 5 is_transient answers last
    × (total ≤ last * longest whole draws config)
retry_with_backoff-slept_example =
    retry_with_backoff-slept whole draws laws config tt refl tt tt is_transient answers
