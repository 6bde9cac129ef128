-- ===== src/Ohlcv/Buckets.antt =====
-- The bucket of a time, and the order of the bucket keys.
use native.Mathlib.Nat.{div-add-mod, mod-lt}
use tenso.Prelude.{
  ℕ, suc, ◌+◌, ◌*◌, ◌/◌, ◌^◌, ◌≤◌, ◌<◌, ◌≡◌, ◌≢◌, refl, ap, ◌-◌, true, false, some, List, [], ◌∷◌,
  arith, All, All-imp, Distinct, dec_lt, Bool-cases, inl, inr,
}
use tenso.Prelude.Int.{
  ℤ, pos, negsuc, pos_part, neg_part, ◌+ℤ◌, +ℤ_parts, ◌*ℤ◌, ◌≤ℤ◌, ltb_ℤ, wrap_i64, IsI64,
  div_euclid, eq_of_parts,
}
use tenso.Ohlcv.{bucket_start, insert_key, sort_keys}

abbrev pub ◌<ℤ◌ : ℤ → ℤ → Type 0

infix 50 ◌<ℤ◌
a <ℤ b = pos_part a + neg_part b < pos_part b + neg_part a

-- Keys in strictly ascending order.
abbrev pub Ascending : List ℤ → Type 0
Ascending [] = Unit
Ascending (k ∷ ks) = All (λ j. k <ℤ j) ks × Ascending ks

floor_pos : (n k : ℕ) → (n / suc k * suc k ≤ n) × (n < n / suc k * suc k + suc k)
floor_pos n k = omega (arith, div-add-mod n (suc k), mod-lt n {m = suc k} (omega arith))

mul_pos : (a b : ℕ) → pos a *ℤ pos b ≡ pos (a * b)
unfolding ◌*ℤ◌
mul_pos a b = ground arith

mul_neg : (a k : ℕ) → negsuc a *ℤ pos (suc k) ≡ negsuc (suc a * suc k - 1)
unfolding ◌*ℤ◌
mul_neg a k = ground arith

wrap_pos : (n : ℕ) → n < 2 ^ 63 → wrap_i64 (pos n) ≡ pos n
wrap_pos n h = ground arith

wrap_neg : (n : ℕ) → n < 2 ^ 63 → wrap_i64 (negsuc n) ≡ negsuc n
wrap_neg n h = ground arith

bucket_at :
    (t : ℤ) (k : ℕ)
    → IsI64 t
    → neg_part t + k ≤ 2 ^ 63
    → (b : ℤ) × (bucket_start t (pos (suc k)) ≡ some b) × (b ≤ℤ t) × (t <ℤ b +ℤ pos (suc k))
unfolding bucket_start div_euclid
bucket_at (pos n) k r h = (
  pos (n / suc k * suc k),
  rw (mul_pos (n / suc k) (suc k)) (ap some (wrap_pos _ (omega (arith, floor_pos n k)))),
  omega (arith, floor_pos n k),
  omega (arith, floor_pos n k, +ℤ_parts (pos (n / suc k * suc k)) (pos (suc k))),
)
bucket_at (negsuc n) k r h = (
  negsuc (suc (n / suc k) * suc k - 1),
  rw (mul_neg (n / suc k) k) (ap some (wrap_neg _ (omega (arith, floor_pos n k)))),
  omega (arith, floor_pos n k),
  omega (arith, floor_pos n k, +ℤ_parts (negsuc (suc (n / suc k) * suc k - 1)) (pos (suc k))),
)

-- For a positive interval, and a time that lies no closer than the interval to the lower end of
-- `i64`, the bucket is there, starts at or before the time, and ends after it.
pub bucket_start_bounds :
    (t : ℤ) (k : ℕ)
    → IsI64 t
    → neg_part t + k ≤ 2 ^ 63
    → (b : ℤ) × (bucket_start t (pos (suc k)) ≡ some b) × (b ≤ℤ t) × (t <ℤ b +ℤ pos (suc k))
bucket_start_bounds t k r h = bucket_at t k r h

-- A positive interval never panics.
pub bucket_start-positive : (t : ℤ) (k : ℕ) → (b : ℤ) × (bucket_start t (pos (suc k)) ≡ some b)
unfolding bucket_start div_euclid
bucket_start-positive (pos n) k = (_, refl)
bucket_start-positive (negsuc n) k = (_, refl)

-- Sorting keys, none of them twice.
insert_key-All :
    (P : ℤ → Type 0) (k : ℤ) (keys : List ℤ) → P k → All P keys → All P (insert_key k keys)
unfolding insert_key
insert_key-All P k [] p a = (p, a)
insert_key-All P k (j ∷ keys) p (q, a) = elim (Bool-cases (ltb_ℤ j k)) [
  | inl e ↦ rw e (q, insert_key-All P k keys p a)
  | inr e ↦ rw e (p, (q, a))
]

pub sort_keys-All : (P : ℤ → Type 0) (keys : List ℤ) → All P keys → All P (sort_keys keys)
unfolding sort_keys
sort_keys-All P [] a = tt
sort_keys-All P (k ∷ keys) (p, a) = insert_key-All P k (sort_keys keys) p (sort_keys-All P keys a)

lt_of_ltb : (a b : ℤ) → ltb_ℤ a b ≡ true → a <ℤ b
lt_of_ltb a b h = ground arith

lt_of_not_ltb : (a b : ℤ) → ltb_ℤ a b ≡ false → a ≢ b → b <ℤ a
lt_of_not_ltb a b h ne = elim (dec_lt (pos_part b + neg_part a) (pos_part a + neg_part b)) [
  | yes p ↦ p
  | no p ↦ absurd (ne (eq_of_parts a b (ground arith)))
]

insert_key-Ascending :
    (k : ℤ) (keys : List ℤ) → All (λ j. j ≢ k) keys → Ascending keys → Ascending (insert_key k keys)
unfolding insert_key
insert_key-Ascending k [] f a = (tt, tt)
insert_key-Ascending k (j ∷ keys) (ne, f) (below, a) = elim (Bool-cases (ltb_ℤ j k)) [
  | inl e ↦
      rw e (
        insert_key-All (λ i. j <ℤ i) k keys (lt_of_ltb j k e) below,
        insert_key-Ascending k keys f a,
      )
  | inr e ↦
      let lt = lt_of_not_ltb j k e ne in
      rw e ((lt, All-imp _ _ keys (λ i h. omega arith) below), (below, a))
]

-- Distinct bucket keys come out of the sort in strictly ascending order.
pub Distinct-sorted : (keys : List ℤ) → Distinct keys → Ascending (sort_keys keys)
unfolding sort_keys
Distinct-sorted [] d = tt
Distinct-sorted (k ∷ keys) (f, d) =
    insert_key-Ascending k (sort_keys keys) (sort_keys-All (λ j. j ≢ k) keys f)
      (Distinct-sorted keys d)

insert_key_inv :
    (P : ℤ → Type 0) (k : ℤ) (keys : List ℤ) → All P (insert_key k keys) → P k × All P keys
unfolding insert_key
insert_key_inv P k [] a = a
insert_key_inv P k (j ∷ keys) a = elim (Bool-cases (ltb_ℤ j k)) [
  | inl e ↦
      let (q, rest) : P j × All P (insert_key k keys) = rw e at a in
      let (p, ps) = insert_key_inv P k keys rest in (p, (q, ps))
  | inr e ↦ let (p, ps) : P k × (P j × All P keys) = rw e at a in (p, ps)
]

-- What holds of the sorted keys holds of the keys.
pub sort_keys_inv : (P : ℤ → Type 0) (keys : List ℤ) → All P (sort_keys keys) → All P keys
unfolding sort_keys
sort_keys_inv P [] a = tt
sort_keys_inv P (k ∷ keys) a =
    let (p, rest) = insert_key_inv P k (sort_keys keys) a in (p, sort_keys_inv P keys rest)
