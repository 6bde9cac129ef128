-- ===== src/Storage/Replace.antt =====
-- What replacing one slot leaves in the tables.
use mathlib.Core.List.{append-nil, append_assoc}
use tenso.Prelude.{
  ◌≡◌, ◌≢◌, refl, sym, ap, ◌∙◌, String, Bool, true, false, List, [], ◌∷◌, ◌++◌, map, length, ite,
  if_pos, if_neg, Eq, arith, All, All-imp, if◌then◌else◌, Bool-cases, inl, inr, text_eq, pair_eq,
}
use tenso.Prelude.Int.{ℤ, ℤ_discrete}
use tenso.Coalesce.{coalesce_token_balance_rows}
use tenso.Storage.{
  Result, ok, err, Tables, Statement, SlotBatchRow, TransactionDbRow, AccountLockDbRow,
  BalanceDbRow, BlockDbRow, as_i64, delete_slot, upsert_row, has_key, flush_rows, all_in_range,
  map_ok, transaction_key, lock_key, balance_key, delete_locks, delete_balances,
  delete_transactions, upsert_block, append_transactions, append_locks, append_balances,
  transaction_db_row, lock_db_row, balance_db_row, replace_slot_data_inner, constraint_error,
}
use tenso.Storage.Runs.{Runs, Runs-execute, Runs-bind, and_then, and_then-ok}

module _ {K R : Type 0} ⦃e : Eq K⦄ where
  -- A flush that succeeds appends the rows.
  pub flush_rows-ok :
      (key : R → K) (rows table all : List R)
      → flush_rows key table rows ≡ ok all
      → all ≡ table ++ rows
  unfolding flush_rows
  flush_rows-ok key [] table all h =
      let same : table ≡ all = cc (h) in sym same ∙ sym (append-nil table)
  flush_rows-ok key (r ∷ rows) table all h = elim (Bool-cases (has_key key (key r) table)) [
    | inl dup ↦ absurd (let bad : err constraint_error ≡ ok all = rw dup at h in cc (bad))
    | inr new ↦
        flush_rows-ok key rows (table ++ r ∷ []) all (rw new at h)
        ∙ append_assoc table (r ∷ []) rows
  ]

map_ok-ok :
    {A B : Type 0} (f : A → B) (r : Result A) (b : B)
    → map_ok f r ≡ ok b
    → (a : A) × (r ≡ ok a) × (b ≡ f a)
map_ok-ok f (ok a) b h = (a, refl, cc (h))
map_ok-ok f (err e) b h = absurd (cc (h))

module _ {R : Type 0} (slot_of : R → ℤ) (s : ℤ) where
  -- The rows of a slot.
  unfoldable pub slot_rows : List R → List R
  slot_rows [] = []
  slot_rows (r ∷ rows) = ite (ℤ_discrete (slot_of r) s) (r ∷ slot_rows rows) (slot_rows rows)

  pub slot_rows-append : (xs ys : List R) → slot_rows (xs ++ ys) ≡ slot_rows xs ++ slot_rows ys
  unfolding slot_rows
  slot_rows-append [] ys = refl
  slot_rows-append (x ∷ xs) ys = ground (arith, slot_rows-append xs ys)

  pub slot_rows-All : (rows : List R) → All (λ r. slot_of r ≡ s) rows → slot_rows rows ≡ rows
  unfolding slot_rows
  slot_rows-All [] a = refl
  slot_rows-All (r ∷ rows) (p, a) =
      if_pos (ℤ_discrete (slot_of r) s) p _ _ ∙ ap (◌∷◌ r) (slot_rows-All rows a)

  pub slot_rows_none : (rows : List R) → All (λ r. slot_of r ≢ s) rows → slot_rows rows ≡ []
  unfolding slot_rows
  slot_rows_none [] a = refl
  slot_rows_none (r ∷ rows) (p, a) = if_neg (ℤ_discrete (slot_of r) s) p _ _ ∙ slot_rows_none rows a

  pub delete_slot-All : (rows : List R) → All (λ r. slot_of r ≢ s) (delete_slot slot_of s rows)
  unfolding delete_slot
  delete_slot-All [] = tt
  delete_slot-All (r ∷ rows) = elim (ℤ_discrete (slot_of r) s) [
    | yes p ↦ rw (if_pos (ℤ_discrete (slot_of r) s) p) (delete_slot-All rows)
    | no p ↦ rw (if_neg (ℤ_discrete (slot_of r) s) p) (p, delete_slot-All rows)
  ]

  pub delete_slot_none :
      (rows : List R) → All (λ r. slot_of r ≢ s) rows → delete_slot slot_of s rows ≡ rows
  unfolding delete_slot
  delete_slot_none [] a = refl
  delete_slot_none (r ∷ rows) (p, a) =
      if_neg (ℤ_discrete (slot_of r) s) p _ _ ∙ ap (◌∷◌ r) (delete_slot_none rows a)

  pub delete_slot-All' :
      (rows : List R) → All (λ r. slot_of r ≡ s) rows → delete_slot slot_of s rows ≡ []
  unfolding delete_slot
  delete_slot-All' [] a = refl
  delete_slot-All' (r ∷ rows) (p, a) =
      if_pos (ℤ_discrete (slot_of r) s) p _ _ ∙ delete_slot-All' rows a

  pub delete_slot-append :
      (xs ys : List R)
      → delete_slot slot_of s (xs ++ ys) ≡ delete_slot slot_of s xs ++ delete_slot slot_of s ys
  unfolding delete_slot
  delete_slot-append [] ys = refl
  delete_slot-append (x ∷ xs) ys = ground (arith, delete_slot-append xs ys)

  -- Replacing the rows of the slot by `rows`, in place of what stands there.
  abbrev pub replace_rows : List R → List R → List R
  replace_rows rows table = delete_slot slot_of s table ++ rows

  pub replace_rows_idem :
      (rows table : List R)
      → All (λ r. slot_of r ≡ s) rows
      → replace_rows rows (replace_rows rows table) ≡ replace_rows rows table
  replace_rows_idem rows table a =
      ap (λ l. l ++ rows)
        (delete_slot-append (delete_slot slot_of s table) rows
          ∙ rw (delete_slot_none _ (delete_slot-All table), delete_slot-All' rows a)
              (append-nil (delete_slot slot_of s table)))

  pub slot_rows-replace_rows :
      (rows table : List R)
      → All (λ r. slot_of r ≡ s) rows
      → slot_rows (replace_rows rows table) ≡ rows
  slot_rows-replace_rows rows table a =
      slot_rows-append (delete_slot slot_of s table) rows
      ∙ rw (slot_rows_none _ (delete_slot-All table)) (slot_rows-All rows a)

module _ {R : Type 0} (slot_of : R → ℤ) where
  pub upsert_row_idem :
      (b : R) (rows : List R)
      → upsert_row slot_of b (upsert_row slot_of b rows) ≡ upsert_row slot_of b rows
  unfolding upsert_row
  upsert_row_idem b [] = if_pos (ℤ_discrete (slot_of b) (slot_of b)) refl _ _
  upsert_row_idem b (r ∷ rows) = elim (ℤ_discrete (slot_of r) (slot_of b)) [
    | yes p ↦
        rw (if_pos (ℤ_discrete (slot_of r) (slot_of b)) p)
          (if_pos (ℤ_discrete (slot_of b) (slot_of b)) refl _ _)
    | no p ↦
        rw (if_neg (ℤ_discrete (slot_of r) (slot_of b)) p)
          (if_neg (ℤ_discrete (slot_of r) (slot_of b)) p _ _ ∙ ap (◌∷◌ r) (upsert_row_idem b rows))
  ]

  slot_rows-delete_slot_ne :
      (s s' : ℤ) (table : List R)
      → s ≢ s'
      → slot_rows slot_of s' (delete_slot slot_of s table) ≡ slot_rows slot_of s' table
  unfolding slot_rows delete_slot
  slot_rows-delete_slot_ne s s' [] ne = refl
  slot_rows-delete_slot_ne s s' (r ∷ table) ne =
      ground (arith, slot_rows-delete_slot_ne s s' table ne)

  -- The rows of another slot stay, and in order.
  pub slot_rows-replace_rows_ne :
      (s s' : ℤ) (rows table : List R)
      → s ≢ s'
      → All (λ r. slot_of r ≡ s) rows
      → slot_rows slot_of s' (replace_rows slot_of s rows table) ≡ slot_rows slot_of s' table
  slot_rows-replace_rows_ne s s' rows table ne a =
      slot_rows-append slot_of s' (delete_slot slot_of s table) rows
      ∙ rw
          (
            slot_rows_none slot_of s' rows (All-imp _ _ rows (λ r p q. ne (sym p ∙ q)) a),
            slot_rows-delete_slot_ne s s' table ne,
          )
          (append-nil (slot_rows slot_of s' table))

-- A test that may fail, passed.
passed :
    {A : Type 0} (test : Bool) (r : Result A) (a : A)
    → (if test then r else err constraint_error) ≡ ok a
    → r ≡ ok a
passed true r a h = h
passed false r a h = absurd (cc (h))

-- The three flushes, where they succeed.
flushes :
    (t : Tables) (ts : List TransactionDbRow) (ls : List AccountLockDbRow) (bs : List BalanceDbRow)
    (t' : Tables)
    → and_then (append_transactions ts t) (λ t. and_then (append_locks ls t) (append_balances bs))
      ≡ ok t'
    → t' ≡ record t {
      transactions = t.transactions ++ ts;
      account_locks = t.account_locks ++ ls;
      token_balance_changes = t.token_balance_changes ++ bs;
    }
flushes t ts ls bs t' h =
    let (t1, e1, h1) = and_then-ok (append_transactions ts t) _ t' h in
    let (a1, f1, p1) = map_ok-ok _ (flush_rows transaction_key t.transactions ts) t1 e1 in
    let (t2, e2, h2) = and_then-ok (append_locks ls t1) _ t' h1 in
    let (a2, f2, p2) = map_ok-ok _ (flush_rows lock_key t1.account_locks ls) t2 e2 in
    let h3 = passed (all_in_range bs) _ t' h2 in
    let (a3, f3, p3) = map_ok-ok _ (flush_rows balance_key t2.token_balance_changes bs) t' h3 in
    let q1 = flush_rows-ok transaction_key ts t.transactions a1 f1 in
    let q2 = flush_rows-ok lock_key ls t1.account_locks a2 f2 in
    let q3 = flush_rows-ok balance_key bs t2.token_balance_changes a3 f3 in
    cc (p1, p2, p3, q1, q2, q3)

-- The rows of a batch entry.
module _ (to_json : List String → String) (b : SlotBatchRow) where
  abbrev pub slot_key : ℤ
  slot_key = as_i64 b.slot

  abbrev pub transaction_rows : List TransactionDbRow
  transaction_rows = map (transaction_db_row to_json slot_key b.block_time) b.transactions

  abbrev pub lock_rows : List AccountLockDbRow
  lock_rows = map (lock_db_row slot_key) b.locks

  abbrev pub balance_rows : List BalanceDbRow
  balance_rows =
      map (balance_db_row slot_key b.block_time) (coalesce_token_balance_rows b.token_changes)

  abbrev pub block_row : BlockDbRow
  block_row = record {
    slot = slot_key;
    block_time = b.block_time;
    tx_count = length b.transactions;
  }

  -- The tables with the rows of the slot replaced.
  unfoldable pub replaced : Tables → Tables
  replaced t = record t {
    blocks = upsert_row (λ r. r.slot) block_row t.blocks;
    transactions = replace_rows (λ r. r.slot) slot_key transaction_rows t.transactions;
    account_locks = replace_rows (λ r. r.slot) slot_key lock_rows t.account_locks;
    token_balance_changes =
        replace_rows (λ r. r.slot) slot_key balance_rows t.token_balance_changes;
  }

  -- What the statements for the slot do, one after the other.
  unfoldable pub slot_effect : Statement
  slot_effect t = and_then (delete_locks slot_key t) λ t. and_then (delete_balances slot_key t) λ t.
      and_then (delete_transactions slot_key t) λ t. and_then (upsert_block block_row t) λ t.
        and_then (append_transactions transaction_rows t)
          λ t. and_then (append_locks lock_rows t) (append_balances balance_rows)

  pub slot_effect-ok : (t t' : Tables) → slot_effect t ≡ ok t' → t' ≡ replaced t
  unfolding slot_effect replaced
  slot_effect-ok t t' h = flushes _ transaction_rows lock_rows balance_rows t' h

  pub Runs-replace_slot :
      (fault : _)
      → Runs fault
          (replace_slot_data_inner fault to_json b.slot b.block_time b.transactions b.locks
            b.token_changes)
          slot_effect
  unfolding replace_slot_data_inner slot_effect
  Runs-replace_slot fault = Runs-bind fault _ _ _ _ (Runs-execute fault (delete_locks slot_key)) (
      Runs-bind fault _ _ _ _ (Runs-execute fault (delete_balances slot_key)) (
        Runs-bind fault _ _ _ _ (Runs-execute fault (delete_transactions slot_key)) (
          Runs-bind fault _ _ _ _ (Runs-execute fault (upsert_block _)) (
            Runs-bind fault _ _ _ _ (Runs-execute fault (append_transactions transaction_rows)) (
              Runs-bind fault _ _ _ _ (Runs-execute fault (append_locks lock_rows))
                (Runs-execute fault (append_balances balance_rows)))))))
