-- ===== src/Floats.antt =====
-- `f64`, which the model does not implement: its operations as the program calls them, and, in
-- `FloatLaws`, what the candles rely on. `IsFinite` holds of the values that are neither NaN nor
-- infinite. `max` and `min` are `f64::max` and `f64::min`.
use tenso.Prelude.{ℕ, ◌≡◌, Bool, false, ◌⊎◌}

pub record Floats : Type 1 where
  pub F64 : Type 0
  pub from_u64 : ℕ → F64
  -- 10f64.powi(n)
  pub ten_powi : ℕ → F64
  pub add : F64 → F64 → F64
  pub sub : F64 → F64 → F64
  pub mul : F64 → F64 → F64
  pub div : F64 → F64 → F64
  pub abs : F64 → F64
  pub max : F64 → F64 → F64
  pub min : F64 → F64 → F64
  pub lt : F64 → F64 → Bool
  pub le : F64 → F64 → Bool
  pub eq : F64 → F64 → Bool
  pub one : F64
  -- 0.0, the dust threshold 0.0005, f64::MIN, f64::MAX
  pub zero : F64
  pub dust_threshold_sol : F64
  pub lowest : F64
  pub highest : F64
  -- what `Iterator::sum` starts from
  pub sum_start : F64

-- The comparisons of finite floats are those of a linear order, between `f64::MIN` and `f64::MAX`.
pub record FloatLaws (f : Floats) : Type 1 where
  pub IsFinite : f.F64 → Type 0
  pub lowest_finite : IsFinite f.lowest
  pub highest_finite : IsFinite f.highest
  pub lt_irrefl : (a : f.F64) → IsFinite a → f.lt a a ≡ false
  -- `f.lt b a ≡ false` says that `a` is at most `b`.
  pub le_trans :
      (a b c : f.F64)
      → IsFinite a
      → IsFinite b
      → IsFinite c
      → f.lt b a ≡ false
      → f.lt c b ≡ false
      → f.lt c a ≡ false
  pub lowest_le : (a : f.F64) → IsFinite a → f.lt a f.lowest ≡ false
  pub le_highest : (a : f.F64) → IsFinite a → f.lt f.highest a ≡ false
  pub max_cases :
      (a b : f.F64)
      → IsFinite a
      → IsFinite b
      → ((f.max a b ≡ a) × (f.lt a b ≡ false)) ⊎ ((f.max a b ≡ b) × (f.lt b a ≡ false))
  pub min_cases :
      (a b : f.F64)
      → IsFinite a
      → IsFinite b
      → ((f.min a b ≡ a) × (f.lt b a ≡ false)) ⊎ ((f.min a b ≡ b) × (f.lt a b ≡ false))
