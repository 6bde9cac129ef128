-- ===== src/Storage.antt =====
-- crates/storage/src/repository.rs: the methods of `Repository` that write, on a connection to the
-- tables of Storage.Statements.
-- DuckDB is not modelled. A statement does what its SQL text says, or fails and changes nothing: by
-- the parameter `fault`, which says at which statements (counted over the life of the connection)
-- the engine fails for reasons of its own, or because a primary key would stand twice. `ROLLBACK`
-- of an open transaction restores the tables at its `BEGIN`; it too can fail. An appender checks its rows when it is
-- flushed. `to_json` is `serde_json::to_string`.
pub mod Statements
unfoldable pub use Statements.*
pub mod Runs
pub mod Replace
pub mod Batch
pub mod Steps
pub mod Invariant
pub mod View
use tenso.Prelude.{
  ℕ, ◌+◌, String, Bool, Option, none, some, List, [], ◌∷◌, map, length, if◌then◌else◌,
}
use tenso.Prelude.Int.{ℤ, pos, wrap_i64}
use tenso.Coalesce.{TokenBalanceRow, coalesce_token_balance_rows}
use tenso.Contention.{ScheduleResult}

-- slot as i64
unfoldable pub as_i64 : ℕ → ℤ
as_i64 n = wrap_i64 (pos n)

-- `saved` holds the tables at the `BEGIN` of an open transaction.
pub record Conn : Type 0 where
  pub tables : Tables
  pub saved : Option Tables
  pub clock : ℕ

-- (signature, failed, program_ids, step), (signature, account, is_writable)
abbrev pub TransactionRow : Type 0
TransactionRow = String × Bool × List String × Option ℕ

abbrev pub AccountLockRow : Type 0
AccountLockRow = String × String × Bool

pub record SlotBatchRow : Type 0 where
  pub slot : ℕ
  pub block_time : Option ℤ
  pub transactions : List TransactionRow
  pub locks : List AccountLockRow
  pub token_changes : List TokenBalanceRow

-- A method may fail after it has changed the connection.
abbrev pub Db : Type 0 → Type 0
Db A = Conn → Result A × Conn

abbrev continue : {A B : Type 0} → Result A → (A → Db B) → Db B
continue (ok a) f c = f a c
continue (err e) f c = (err e, c)

infixl 5 ◌>>=◌ ◌>>◌
abbrev pub ◌>>=◌ : {A B : Type 0} → Db A → (A → Db B) → Db B
◌>>=◌ m f c = let (r, c') = m c in continue r f c'

abbrev pub ◌>>◌ : {B : Type 0} → Db (Unit {0}) → Db B → Db B
m >> n = m >>= λ _. n

abbrev pub done : Db (Unit {0})
done c = (ok tt, c)

-- The rows that the appenders are given.
abbrev pub transaction_db_row :
    (List String → String) → ℤ → Option ℤ → TransactionRow → TransactionDbRow
transaction_db_row to_json slot block_time (sig, failed, program_ids, step) = record {
  signature = sig;
  slot = slot;
  block_time = block_time;
  failed = failed;
  program_ids = to_json program_ids;
  step = step;
}

abbrev pub lock_db_row : ℤ → AccountLockRow → AccountLockDbRow
lock_db_row slot (sig, account, is_writable) = record {
  slot = slot;
  tx_signature = sig;
  account = account;
  is_writable = is_writable;
}

abbrev pub balance_db_row : ℤ → Option ℤ → TokenBalanceRow → BalanceDbRow
balance_db_row slot block_time (sig, mint, pre, post, decimals) = record {
  tx_signature = sig;
  slot = slot;
  block_time = block_time;
  mint = mint;
  pre_amount = pre;
  post_amount = post;
  decimals = decimals;
}

module _ (fault : ℕ → Bool) where
  -- A statement counts, and fails where the engine does.
  unfoldable pub execute : Statement → Db (Unit {0})
  execute run c =
      if fault c.clock
      then (err engine_error, record c { clock = c.clock + 1 })
      else elim (run c.tables) [
        | ok t ↦ (ok tt, record c { tables = t; clock = c.clock + 1 })
        | err e ↦ (err e, record c { clock = c.clock + 1 })
      ]

  -- The engine refuses a transaction within a transaction.
  unfoldable pub begin_transaction : Db (Unit {0})
  begin_transaction c =
      if fault c.clock then (err engine_error, record c { clock = c.clock + 1 }) else elim c.saved [
        | none ↦ (ok tt, record c { saved = some c.tables; clock = c.clock + 1 })
        | some t ↦ (err engine_error, record c { clock = c.clock + 1 })
      ]

  unfoldable pub commit : Db (Unit {0})
  commit c =
      if fault c.clock
      then (err engine_error, record c { clock = c.clock + 1 })
      else (ok tt, record c { saved = none; clock = c.clock + 1 })

  -- let _ = conn.execute_batch("ROLLBACK"): a failure is passed over, and leaves the transaction
  -- open.
  unfoldable pub rollback : Conn → Conn
  rollback c = if fault c.clock then record c { clock = c.clock + 1 } else elim c.saved [
    | none ↦ record c { clock = c.clock + 1 }
    | some t ↦ record c { tables = t; saved = none; clock = c.clock + 1 }
  ]

  unfoldable pub upsert_ingestion_status : ℕ → String → Option String → Db (Unit {0})
  upsert_ingestion_status slot status note =
      execute (upsert_status (record { slot = as_i64 slot; status = status; note = note }))

  unfoldable pub replace_slot_data_inner :
      (to_json : List String → String)
      → ℕ
      → Option ℤ
      → List TransactionRow
      → List AccountLockRow
      → List TokenBalanceRow
      → Db (Unit {0})
  replace_slot_data_inner to_json slot block_time transactions locks token_changes =
      let slot_i = as_i64 slot in
      do
        execute (delete_locks slot_i)
        execute (delete_balances slot_i)
        execute (delete_transactions slot_i)
        execute (
            upsert_block
              (record { slot = slot_i; block_time = block_time; tx_count = length transactions }))
        execute
            (append_transactions (map (transaction_db_row to_json slot_i block_time) transactions))
        execute (append_locks (map (lock_db_row slot_i) locks))
        execute (
            append_balances
              (map (balance_db_row slot_i block_time) (coalesce_token_balance_rows token_changes)))

  -- The loop of the closure in `replace_slots_batch`, and its `COMMIT`.
  unfoldable pub replace_each : (to_json : List String → String) → List SlotBatchRow → Db (Unit {0})
  replace_each to_json [] = commit
  replace_each to_json (b ∷ slots) = do
    replace_slot_data_inner to_json b.slot b.block_time b.transactions b.locks b.token_changes
    replace_each to_json slots

  abbrev roll_back_error : Result (Unit {0}) → Conn → Result (Unit {0}) × Conn
  roll_back_error (ok u) c = (ok u, c)
  roll_back_error (err e) c = (err e, rollback c)

  unfoldable pub replace_slots_batch :
      (to_json : List String → String) → List SlotBatchRow → Db (Unit {0})
  replace_slots_batch to_json slots = do
    begin_transaction
    λ c. let (r, c') = replace_each to_json slots c in roll_back_error r c'

  -- signatures.iter().zip(schedule.steps.iter())
  unfoldable pub write_steps : List String → List ℕ → Db (Unit {0})
  write_steps [] steps = done
  write_steps (sig ∷ signatures) [] = done
  write_steps (sig ∷ signatures) (step ∷ steps) = do
    execute (update_step step sig)
    write_steps signatures steps

  unfoldable pub write_schedule_steps : List String → ScheduleResult → Db (Unit {0})
  write_schedule_steps signatures schedule = write_steps signatures schedule.steps
