-- ===== src/Storage/Invariant/Keys.antt =====
-- What the statements of crates/storage/src/repository.rs do to the keys of a table: a deletion, an
-- upsert, a flush of an appender and an update of the steps keep them apart.
use mathlib.Core.Path.{subst}
use tenso.Prelude.{
  ℕ, ◌≡◌, ◌≢◌, refl, sym, ap, String, true, false, List, [], ◌∷◌, ◌++◌, map, if_pos, if_neg, Eq,
  arith, All, Fresh, Distinct, Distinct-snoc, Bool-cases, inl, inr,
}
use tenso.Prelude.Int.{ℤ, ℤ_discrete}
use tenso.Storage.{
  ok, err, constraint_error, TransactionDbRow, BalanceDbRow, delete_slot, upsert_row, has_key,
  flush_rows, has_column_range, all_in_range, transaction_key, set_step,
}

-- No two rows have the same key.
abbrev pub Unique : {K R : Type 0} → (R → K) → List R → Type 0
Unique key rows = Distinct (map key rows)

module _ {K R : Type 0} (key : R → K) where
  module _ ⦃e : Eq K⦄ where
    has_key-Fresh : (k : K) (rows : List R) → has_key key k rows ≡ false → Fresh k (map key rows)
    unfolding has_key
    has_key-Fresh k [] h = tt
    has_key-Fresh k (r ∷ rows) h = elim (e.dec (key r) k) [
      | yes p ↦ absurd (let bad : true ≡ false = rw (if_pos (e.dec (key r) k) p) at h in cc (bad))
      | no p ↦ (p, has_key-Fresh k rows (rw (if_neg (e.dec (key r) k) p) at h))
    ]

    map-snoc : (rows : List R) (r : R) → map key (rows ++ r ∷ []) ≡ map key rows ++ key r ∷ []
    map-snoc [] r = refl
    map-snoc (x ∷ rows) r = ap (◌∷◌ (key x)) (map-snoc rows r)

    -- A flush that succeeds keeps the key.
    pub flush_rows-Unique :
        (rows table all : List R)
        → Unique key table
        → flush_rows key table rows ≡ ok all
        → Unique key all
    unfolding flush_rows
    flush_rows-Unique [] table all u h =
        let same : table ≡ all = cc (h) in subst (Unique key) same u
    flush_rows-Unique (r ∷ rows) table all u h = elim (Bool-cases (has_key key (key r) table)) [
      | inl dup ↦ absurd (let bad : err constraint_error ≡ ok all = rw dup at h in cc (bad))
      | inr new ↦
          flush_rows-Unique rows (table ++ r ∷ []) all
            (subst Distinct (sym (map-snoc table r))
              (Distinct-snoc (map key table) (key r) u (has_key-Fresh (key r) table new)))
            (rw new at h)
    ]

  module _ (slot_of : R → ℤ) (s : ℤ) where
    delete_slot-Fresh :
        (k : K) (rows : List R)
        → Fresh k (map key rows)
        → Fresh k (map key (delete_slot slot_of s rows))
    unfolding delete_slot
    delete_slot-Fresh k [] f = tt
    delete_slot-Fresh k (r ∷ rows) f = ground (arith, delete_slot-Fresh k rows f.1)

    pub delete_slot-Unique :
        (rows : List R) → Unique key rows → Unique key (delete_slot slot_of s rows)
    unfolding delete_slot
    delete_slot-Unique [] u = tt
    delete_slot-Unique (r ∷ rows) u =
        ground (arith, delete_slot-Unique rows u.1, delete_slot-Fresh (key r) rows u.0)

module _ {R : Type 0} (P : R → Type 0) (slot_of : R → ℤ) (s : ℤ) where
  pub delete_slot-keeps : (rows : List R) → All P rows → All P (delete_slot slot_of s rows)
  unfolding delete_slot
  delete_slot-keeps [] a = tt
  delete_slot-keeps (r ∷ rows) a = ground (arith, delete_slot-keeps rows a.1)

module _ {R : Type 0} (slot_of : R → ℤ) (new : R) where
  upsert_row-Fresh :
      (k : ℤ) (rows : List R)
      → slot_of new ≢ k
      → Fresh k (map slot_of rows)
      → Fresh k (map slot_of (upsert_row slot_of new rows))
  unfolding upsert_row
  upsert_row-Fresh k [] ne f = (ne, tt)
  upsert_row-Fresh k (r ∷ rows) ne f = ground (arith, upsert_row-Fresh k rows ne f.1)

  pub upsert_row-Unique :
      (rows : List R) → Unique slot_of rows → Unique slot_of (upsert_row slot_of new rows)
  unfolding upsert_row
  upsert_row-Unique [] u = (tt, tt)
  upsert_row-Unique (r ∷ rows) u = elim (ℤ_discrete (slot_of r) (slot_of new)) [
    | yes p ↦
        rw (if_pos (ℤ_discrete (slot_of r) (slot_of new)) p)
          (subst (λ k. Fresh k (map slot_of rows)) p u.0, u.1)
    | no p ↦
        rw (if_neg (ℤ_discrete (slot_of r) (slot_of new)) p)
          (upsert_row-Fresh (slot_of r) rows (λ q. p (sym q)) u.0, upsert_row-Unique rows u.1)
  ]

-- An update of the steps leaves the signatures.
pub map-set_step :
    (step : ℕ) (sig : String) (rows : List TransactionDbRow)
    → map transaction_key (set_step step sig rows) ≡ map transaction_key rows
unfolding set_step
map-set_step step sig [] = refl
map-set_step step sig (r ∷ rows) = ground (arith, map-set_step step sig rows)

pub all_in_range-All :
    (rows : List BalanceDbRow)
    → all_in_range rows ≡ true
    → All (λ r. has_column_range r ≡ true) rows
unfolding all_in_range
all_in_range-All [] h = tt
all_in_range-All (r ∷ rows) h = ground (arith, all_in_range-All rows)
