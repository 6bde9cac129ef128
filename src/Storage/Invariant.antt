-- ===== src/Storage/Invariant.antt =====
-- What the tables always satisfy: the primary keys of crates/storage/src/schema.rs, and the ranges
-- of its columns of amounts, kept by each statement of repository.rs.
pub mod Keys
pub use Keys.*
pub mod Methods
use mathlib.Core.Path.{subst}
use tenso.Prelude.{
  ℕ, ◌≡◌, refl, sym, ap, String, Bool, true, List, map, All, All-append, Distinct, Bool-cases, inl,
  inr, text_eq, pair_eq,
}
use tenso.Prelude.Int.{ℤ}
use tenso.Storage.{
  Result, ok, err, constraint_error, Tables, Statement, TransactionDbRow, AccountLockDbRow,
  BalanceDbRow, BlockDbRow, StatusDbRow, delete_slot, upsert_row, flush_rows, has_column_range,
  all_in_range, map_ok, transaction_key, lock_key, balance_key, delete_locks, delete_balances,
  delete_transactions, upsert_block, upsert_status, append_transactions, append_locks,
  append_balances, set_step, update_step,
}
use tenso.Storage.Replace.{flush_rows-ok}

-- PRIMARY KEY of each table, and UBIGINT amounts that were bound `as i64`, TINYINT decimals.
pub record Consistent (t : Tables) : Type 0 where
  pub block_keys : Unique (λ b. b.slot) t.blocks
  pub transaction_keys : Unique transaction_key t.transactions
  pub lock_keys : Unique lock_key t.account_locks
  pub balance_keys : Unique balance_key t.token_balance_changes
  pub status_keys : Unique (λ r. r.slot) t.ingestion_status
  pub amounts : All (λ r. has_column_range r ≡ true) t.token_balance_changes

-- One table set.
module _ (t : Tables) (w : Consistent t) where
  set_blocks :
      (rows : List BlockDbRow) → Unique (λ b. b.slot) rows → Consistent (record t { blocks = rows })
  set_blocks rows u = record {
    block_keys = u;
    transaction_keys = w.transaction_keys;
    lock_keys = w.lock_keys;
    balance_keys = w.balance_keys;
    status_keys = w.status_keys;
    amounts = w.amounts;
  }

  set_transactions :
      (rows : List TransactionDbRow)
      → Unique transaction_key rows
      → Consistent (record t { transactions = rows })
  set_transactions rows u = record {
    block_keys = w.block_keys;
    transaction_keys = u;
    lock_keys = w.lock_keys;
    balance_keys = w.balance_keys;
    status_keys = w.status_keys;
    amounts = w.amounts;
  }

  set_locks :
      (rows : List AccountLockDbRow)
      → Unique lock_key rows
      → Consistent (record t { account_locks = rows })
  set_locks rows u = record {
    block_keys = w.block_keys;
    transaction_keys = w.transaction_keys;
    lock_keys = u;
    balance_keys = w.balance_keys;
    status_keys = w.status_keys;
    amounts = w.amounts;
  }

  set_status :
      (rows : List StatusDbRow)
      → Unique (λ r. r.slot) rows
      → Consistent (record t { ingestion_status = rows })
  set_status rows u = record {
    block_keys = w.block_keys;
    transaction_keys = w.transaction_keys;
    lock_keys = w.lock_keys;
    balance_keys = w.balance_keys;
    status_keys = u;
    amounts = w.amounts;
  }

  set_balances :
      (rows : List BalanceDbRow)
      → Unique balance_key rows
      → All (λ r. has_column_range r ≡ true) rows
      → Consistent (record t { token_balance_changes = rows })
  set_balances rows u a = record {
    block_keys = w.block_keys;
    transaction_keys = w.transaction_keys;
    lock_keys = w.lock_keys;
    balance_keys = u;
    status_keys = w.status_keys;
    amounts = a;
  }

-- What a statement keeps where it returns.
abbrev pub Keeps : Statement → Type 0
Keeps run = (t t' : Tables) → Consistent t → run t ≡ ok t' → Consistent t'

kept : (u t' : Tables) → Consistent u → ok u ≡ ok t' → Consistent t'
kept u t' w h = let same : u ≡ t' = cc (h) in subst Consistent same w

-- A flush that sets one table.
flushed :
    {A : Type 0} (set : A → Tables) (r : Result A) (t' : Tables)
    → ((a : A) → r ≡ ok a → Consistent (set a))
    → map_ok set r ≡ ok t'
    → Consistent t'
flushed set (ok a) t' h e = kept (set a) t' (h a refl) e
flushed set (err x) t' h e = absurd (cc (e))

pub Keeps-delete_locks : (s : ℤ) → Keeps (delete_locks s)
Keeps-delete_locks s t t' w =
    kept _ t' (set_locks t w _ (delete_slot-Unique lock_key (λ r. r.slot) s _ w.lock_keys))

pub Keeps-delete_transactions : (s : ℤ) → Keeps (delete_transactions s)
Keeps-delete_transactions s t t' w = kept _ t' (
    set_transactions t w _
      (delete_slot-Unique transaction_key (λ r. r.slot) s _ w.transaction_keys))

pub Keeps-delete_balances : (s : ℤ) → Keeps (delete_balances s)
Keeps-delete_balances s t t' w = kept _ t' (
    set_balances t w _ (delete_slot-Unique balance_key (λ r. r.slot) s _ w.balance_keys)
      (delete_slot-keeps _ (λ r. r.slot) s _ w.amounts))

pub Keeps-upsert_block : (b : BlockDbRow) → Keeps (upsert_block b)
Keeps-upsert_block b t t' w =
    kept _ t' (set_blocks t w _ (upsert_row-Unique (λ r. r.slot) b _ w.block_keys))

pub Keeps-upsert_status : (r : StatusDbRow) → Keeps (upsert_status r)
Keeps-upsert_status r t t' w =
    kept _ t' (set_status t w _ (upsert_row-Unique (λ r. r.slot) r _ w.status_keys))

pub Keeps-update_step : (step : ℕ) (sig : String) → Keeps (update_step step sig)
Keeps-update_step step sig t t' w = kept _ t' (
    set_transactions t w _
      (subst Distinct (sym (map-set_step step sig t.transactions)) w.transaction_keys))

pub Keeps-append_transactions : (rows : List TransactionDbRow) → Keeps (append_transactions rows)
Keeps-append_transactions rows t t' w =
    flushed _ (flush_rows transaction_key t.transactions rows) t' λ all h.
      set_transactions t w all
        (flush_rows-Unique transaction_key rows t.transactions all w.transaction_keys h)

pub Keeps-append_locks : (rows : List AccountLockDbRow) → Keeps (append_locks rows)
Keeps-append_locks rows t t' w =
    flushed _ (flush_rows lock_key t.account_locks rows) t'
      λ all h. set_locks t w all (flush_rows-Unique lock_key rows t.account_locks all w.lock_keys h)

pub Keeps-append_balances : (rows : List BalanceDbRow) → Keeps (append_balances rows)
Keeps-append_balances rows t t' w h = elim (Bool-cases (all_in_range rows)) [
  | inr out ↦ absurd (let bad : err constraint_error ≡ ok t' = rw out at h in cc (bad))
  | inl fits ↦
      let table = t.token_balance_changes in
      let h' : map_ok (λ all. record t { token_balance_changes = all })
            (flush_rows balance_key table rows)
          ≡ ok t' =
        rw fits at h in
      flushed _ (flush_rows balance_key table rows) t'
        (λ all e.
          set_balances t w all (flush_rows-Unique balance_key rows table all w.balance_keys e) (
            subst (All (λ r. has_column_range r ≡ true))
              (sym (flush_rows-ok balance_key rows table all e))
              (All-append _ table rows w.amounts (all_in_range-All rows fits))))
        h'
]
