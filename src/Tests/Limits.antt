-- ===== src/Tests/Limits.antt =====
-- A bucket of three tokens, over whole numbers in place of `f64`, and one that holds none.
use tenso.Prelude.{ℕ, suc, ◌≡◌, refl, Bool, true, Option, some, List, [], ◌∷◌, arith, not}
use tenso.Prelude.Int.{ℤ, pos, negsuc, pos_part, ◌+ℤ◌, ◌*ℤ◌, ltb_ℤ}
use tenso.RateLimiter.{TokenBucketLimiter, new, run}
use tenso.RateLimiter.Bounds.{RateLaws, Inv, run-new-Inv, run-starved}
use tenso.Tests.Trades.{whole}

abbrev seconds : ℕ → ℤ
seconds d = pos d

abbrev sleep : ℤ → Option ℕ
sleep a = some (pos_part a)

abbrev le : ℤ → ℤ → Bool
le a b = not (ltb_ℤ b a)

pub add_nonneg_ℤ :
    (a b : ℤ) → le (pos 0) a ≡ true → le (pos 0) b ≡ true → le (pos 0) (a +ℤ b) ≡ true
unfolding ◌+ℤ◌
add_nonneg_ℤ a b h k = ground arith

pub mul_nonneg_ℤ :
    (a b : ℤ) → le (pos 0) a ≡ true → le (pos 0) b ≡ true → le (pos 0) (a *ℤ b) ≡ true
unfolding ◌*ℤ◌
mul_nonneg_ℤ (pos a) (pos b) h k = ground arith
mul_nonneg_ℤ (negsuc a) b h k = absurd (ground arith)
mul_nonneg_ℤ (pos a) (negsuc b) h k = absurd (ground arith)

sub_nonneg_ℤ : (a : ℤ) → le (pos 1) a ≡ true → le (pos 0) (a +ℤ negsuc 0) ≡ true
unfolding ◌+ℤ◌
sub_nonneg_ℤ a h = ground arith

sub_le_ℤ : (a b : ℤ) → le (pos 1) a ≡ true → le a b ≡ true → le (a +ℤ negsuc 0) b ≡ true
unfolding ◌+ℤ◌
sub_le_ℤ a b h k = ground arith

floor_one_ℤ : (a : ℤ) → le (pos 1) a ≡ true → suc (pos_part (a +ℤ negsuc 0)) ≡ pos_part a
unfolding ◌+ℤ◌
floor_one_ℤ a h = ground arith

no_time_ℤ : (a r : ℤ) → le (pos 0) a ≡ true → le (a +ℤ pos 0 *ℤ r) a ≡ true
unfolding ◌+ℤ◌ ◌*ℤ◌
no_time_ℤ (pos a) (pos r) h = ground arith
no_time_ℤ (pos a) (negsuc r) h = ground arith
no_time_ℤ (negsuc a) r h = absurd (ground arith)

abbrev laws : RateLaws whole seconds
laws = record {
  IsFinite = λ a. Unit;
  secs_finite = λ d. tt;
  secs_nonneg = λ d. ground arith;
  add_nonneg = add_nonneg_ℤ;
  mul_nonneg = λ a b fa fb. mul_nonneg_ℤ a b;
  min_nonneg = λ a b h k. ground arith;
  min_le = λ a b h k. ground arith;
  min_le_left = λ a b h k. ground arith;
  sub_nonneg = sub_nonneg_ℤ;
  sub_le = sub_le_ℤ;
  le_refl = λ a h. ground arith;
  one_le = λ a b h k. ground arith;
  floor = pos_part;
  floor_one = λ a h small. floor_one_ℤ a h;
  floor_le = λ a b h k. ground arith;
  no_time = λ a r finite h. no_time_ℤ a r h;
}

abbrev bucket : TokenBucketLimiter whole seconds sleep
bucket = new whole seconds sleep (pos 2) (pos 3) 0

-- Four rounds at once, one two seconds later, and one before.
abbrev instants : List ℕ
instants = 0 ∷ 0 ∷ 0 ∷ 0 ∷ 2 ∷ 1 ∷ []

granted_five : (run whole seconds sleep bucket instants).0 ≡ 5
unfolding run ◌+ℤ◌ ◌*ℤ◌ tenso.RateLimiter.attempt tenso.RateLimiter.refilled new
granted_five = refl

run-new-Inv_example : Inv whole seconds sleep laws (run whole seconds sleep bucket instants).1
run-new-Inv_example = run-new-Inv whole seconds sleep laws (pos 2) (pos 3) 0 instants refl refl tt

abbrev empty_bucket : TokenBucketLimiter whole seconds sleep
empty_bucket = new whole seconds sleep (pos 2) (pos 0) 0

bucket-Inv : Inv whole seconds sleep laws bucket
unfolding new
bucket-Inv = record {
  tokens_nonneg = refl;
  tokens_le = refl;
  capacity_nonneg = refl;
  rate_finite = tt;
  rate_nonneg = refl;
}

empty_bucket-Inv : Inv whole seconds sleep laws empty_bucket
unfolding new
empty_bucket-Inv = record {
  tokens_nonneg = refl;
  tokens_le = refl;
  capacity_nonneg = refl;
  rate_finite = tt;
  rate_nonneg = refl;
}

run-starved_example : (run whole seconds sleep empty_bucket instants).0 ≡ 0
unfolding new
run-starved_example =
    run-starved whole seconds sleep laws empty_bucket instants empty_bucket-Inv refl
