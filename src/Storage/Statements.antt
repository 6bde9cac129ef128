-- ===== src/Storage/Statements.antt =====
-- crates/storage/src/schema.rs: the tables, and what the SQL statements of
-- crates/storage/src/repository.rs do to them. A table is a list of rows; a statement does what
-- its SQL text says, or fails because a primary key would stand twice or a value is out of the
-- range of its column.
use tenso.Prelude.{
  ℕ, String, Bool, true, false, ◌&&◌, Option, some, List, [], ◌∷◌, ◌++◌, if◌then◌else◌, ite, Eq,
  ltb, ◌^◌, text_eq, pair_eq, text_discrete,
}
use tenso.Prelude.Int.{ℤ, ℤ_discrete}

pub data StorageError : Type 0 where
  engine_error constraint_error : StorageError

pub data Result {ℓ} (A : Type ℓ) : Type ℓ where
  ok : A → Result A
  err : StorageError → Result A

-- transactions
pub record TransactionDbRow : Type 0 where
  pub signature : String
  pub slot : ℤ
  pub block_time : Option ℤ
  pub failed : Bool
  pub program_ids : String
  pub step : Option ℕ

-- account_locks
pub record AccountLockDbRow : Type 0 where
  pub slot : ℤ
  pub tx_signature : String
  pub account : String
  pub is_writable : Bool

-- token_balance_changes
pub record BalanceDbRow : Type 0 where
  pub tx_signature : String
  pub slot : ℤ
  pub block_time : Option ℤ
  pub mint : String
  pub pre_amount : ℕ
  pub post_amount : ℕ
  pub decimals : ℕ

-- blocks
pub record BlockDbRow : Type 0 where
  pub slot : ℤ
  pub block_time : Option ℤ
  pub tx_count : ℕ

-- ingestion_status
pub record StatusDbRow : Type 0 where
  pub slot : ℤ
  pub status : String
  pub note : Option String

pub record Tables : Type 0 where
  pub blocks : List BlockDbRow
  pub transactions : List TransactionDbRow
  pub account_locks : List AccountLockDbRow
  pub token_balance_changes : List BalanceDbRow
  pub ingestion_status : List StatusDbRow

-- DELETE FROM .. WHERE slot = ?
unfoldable pub delete_slot : {R : Type 0} → (R → ℤ) → ℤ → List R → List R
delete_slot slot_of s [] = []
delete_slot slot_of s (r ∷ rows) =
    ite (ℤ_discrete (slot_of r) s) (delete_slot slot_of s rows) (r ∷ delete_slot slot_of s rows)

-- INSERT .. ON CONFLICT (slot) DO UPDATE
unfoldable pub upsert_row : {R : Type 0} → (R → ℤ) → R → List R → List R
upsert_row slot_of new [] = new ∷ []
upsert_row slot_of new (r ∷ rows) =
    ite (ℤ_discrete (slot_of r) (slot_of new)) (new ∷ rows) (r ∷ upsert_row slot_of new rows)

module _ {K R : Type 0} ⦃e : Eq K⦄ where
  unfoldable pub has_key : (R → K) → K → List R → Bool
  has_key key k [] = false
  has_key key k (r ∷ rows) = ite (e.dec (key r) k) true (has_key key k rows)

  -- appender.flush(): the rows join the table, if no primary key would stand twice
  unfoldable pub flush_rows : (R → K) → List R → List R → Result (List R)
  flush_rows key table [] = ok table
  flush_rows key table (r ∷ rows) =
      let rest = flush_rows key (table ++ r ∷ []) rows in
      if has_key key (key r) table then err constraint_error else rest

abbrev pub map_ok : {A B : Type 0} → (A → B) → Result A → Result B
map_ok f (ok a) = ok (f a)
map_ok f (err e) = err e

abbrev pub transaction_key : TransactionDbRow → String
transaction_key r = r.signature

abbrev pub lock_key : AccountLockDbRow → String × String
lock_key r = (r.tx_signature, r.account)

abbrev pub balance_key : BalanceDbRow → String × String
balance_key r = (r.tx_signature, r.mint)

-- What a statement does to the tables.
abbrev pub Statement : Type 0
Statement = Tables → Result Tables

abbrev pub delete_locks : ℤ → Statement
delete_locks s t = ok (record t { account_locks = delete_slot (λ r. r.slot) s t.account_locks })

abbrev pub delete_balances : ℤ → Statement
delete_balances s t =
    ok (record t { token_balance_changes = delete_slot (λ r. r.slot) s t.token_balance_changes })

abbrev pub delete_transactions : ℤ → Statement
delete_transactions s t =
    ok (record t { transactions = delete_slot (λ r. r.slot) s t.transactions })

abbrev pub upsert_block : BlockDbRow → Statement
upsert_block b t = ok (record t { blocks = upsert_row (λ r. r.slot) b t.blocks })

abbrev pub upsert_status : StatusDbRow → Statement
upsert_status r t =
    ok (record t { ingestion_status = upsert_row (λ r. r.slot) r t.ingestion_status })

abbrev pub append_transactions : List TransactionDbRow → Statement
append_transactions rows t =
    map_ok (λ all. record t { transactions = all }) (flush_rows transaction_key t.transactions rows)

abbrev pub append_locks : List AccountLockDbRow → Statement
append_locks rows t =
    map_ok (λ all. record t { account_locks = all }) (flush_rows lock_key t.account_locks rows)

-- The amounts pass through `as i64` into a UBIGINT, and the decimals into a TINYINT: from 2^63,
-- and from 128, they are out of range.
abbrev pub has_column_range : BalanceDbRow → Bool
has_column_range r = ltb r.pre_amount (2 ^ 63) && ltb r.post_amount (2 ^ 63) && ltb r.decimals 128

unfoldable pub all_in_range : List BalanceDbRow → Bool
all_in_range [] = true
all_in_range (r ∷ rows) = has_column_range r && all_in_range rows

abbrev pub append_balances : List BalanceDbRow → Statement
append_balances rows t =
    if all_in_range rows
    then map_ok (λ all. record t { token_balance_changes = all })
        (flush_rows balance_key t.token_balance_changes rows)
    else err constraint_error

-- UPDATE transactions SET step = ? WHERE signature = ?
unfoldable pub set_step : ℕ → String → List TransactionDbRow → List TransactionDbRow
set_step step sig [] = []
set_step step sig (r ∷ rows) =
    ite (text_discrete r.signature sig) (record r { step = some step }) r ∷ set_step step sig rows

abbrev pub update_step : ℕ → String → Statement
update_step step sig t = ok (record t { transactions = set_step step sig t.transactions })
