-- ===== src/Schema.antt =====
-- crates/storage/src/schema.rs and lib.rs: opening the database, and its migrations.
-- A catalog says which tables and indexes a file has; a file that is new has none. The statements
-- of the batch run in their order, and the first at which the engine fails, by `fault`, ends it.
-- `connect` is what `Connection::open(path)`, or `Connection::open_in_memory()`, returns. A table
-- that is there under a name of the schema is taken to have the columns of the schema.
pub mod Opened
use tenso.Prelude.{
  ℕ, ◌+◌, String, Bool, Option, none, some, List, [], ◌∷◌, ite, if◌then◌else◌, text_discrete,
}
use tenso.Floats.{Floats}
use tenso.Storage.{
  Result, ok, err, engine_error, TransactionDbRow, AccountLockDbRow, BalanceDbRow, BlockDbRow,
  StatusDbRow,
}
use tenso.Archive.{CandleDbRow, Database}

-- CREATE TABLE IF NOT EXISTS
abbrev pub create_table : {R : Type 0} → Option (List R) → Option (List R)
create_table none = some []
create_table (some rows) = some rows

-- CREATE INDEX IF NOT EXISTS
unfoldable pub create_index : String → List String → List String
create_index name [] = name ∷ []
create_index name (i ∷ indexes) =
    ite (text_discrete i name) (i ∷ indexes) (i ∷ create_index name indexes)

-- The statements of the batch.
pub data Ddl : Type 0 where
  create_blocks create_transactions create_account_locks create_token_balance_changes : Ddl
  create_candles create_ingestion_status : Ddl
  create_idx : String → Ddl

abbrev pub migrations : List Ddl
migrations =
    Ddl.create_blocks
    ∷ Ddl.create_transactions
    ∷ Ddl.create_account_locks
    ∷ Ddl.create_token_balance_changes
    ∷ Ddl.create_candles
    ∷ Ddl.create_ingestion_status
    ∷ Ddl.create_idx "idx_locks_account"
    ∷ Ddl.create_idx "idx_tx_slot"
    ∷ Ddl.create_idx "idx_balance_mint"
    ∷ Ddl.create_idx "idx_candles_mint_interval"
    ∷ []

module _ (f : Floats) where
  pub record Catalog : Type 0 where
    pub blocks : Option (List BlockDbRow)
    pub transactions : Option (List TransactionDbRow)
    pub account_locks : Option (List AccountLockDbRow)
    pub token_balance_changes : Option (List BalanceDbRow)
    pub candles : Option (List (CandleDbRow f))
    pub ingestion_status : Option (List StatusDbRow)
    pub indexes : List String

  -- A connection to a file, with its count of statements.
  pub record File : Type 0 where
    pub catalog : Catalog
    pub clock : ℕ

  abbrev pub new_catalog : Catalog
  new_catalog = record {
    blocks = none;
    transactions = none;
    account_locks = none;
    token_balance_changes = none;
    candles = none;
    ingestion_status = none;
    indexes = [];
  }

  unfoldable pub apply : Ddl → Catalog → Catalog
  apply Ddl.create_blocks c = record c { blocks = create_table c.blocks }
  apply Ddl.create_transactions c = record c { transactions = create_table c.transactions }
  apply Ddl.create_account_locks c = record c { account_locks = create_table c.account_locks }
  apply Ddl.create_token_balance_changes c = record c {
    token_balance_changes = create_table c.token_balance_changes;
  }
  apply Ddl.create_candles c = record c { candles = create_table c.candles }
  apply Ddl.create_ingestion_status c = record c {
    ingestion_status = create_table c.ingestion_status;
  }
  apply (Ddl.create_idx name) c = record c { indexes = create_index name c.indexes }

  module _ (fault : ℕ → Bool) where
    unfoldable pub execute_batch : List Ddl → File → Result (Unit {0}) × File
    execute_batch [] file = (ok tt, file)
    execute_batch (statement ∷ statements) file =
        if fault file.clock
        then (err engine_error, record file { clock = file.clock + 1 })
        else execute_batch statements
            (record { catalog = apply statement file.catalog; clock = file.clock + 1 })

    abbrev pub run_migrations : File → Result (Unit {0}) × File
    run_migrations = execute_batch migrations

    -- `open`, and `open_in_memory`
    unfoldable pub open_conn : Result File → Result File
    open_conn (err e) = err e
    open_conn (ok file) =
        let (r, file') = run_migrations file in elim r [ err e ↦ err e | ok u ↦ ok file' ]

  -- The tables of a file that has them all.
  unfoldable pub database_of : File → Option (Database f)
  database_of file =
      with_tables file.catalog.blocks file.catalog.transactions file.catalog.account_locks
        file.catalog.token_balance_changes file.catalog.candles file.catalog.ingestion_status
    where
      with_tables :
          Option (List BlockDbRow)
          → Option (List TransactionDbRow)
          → Option (List AccountLockDbRow)
          → Option (List BalanceDbRow)
          → Option (List (CandleDbRow f))
          → Option (List StatusDbRow)
          → Option (Database f)
      with_tables (some bs) (some ts) (some ls) (some cs) (some ks) (some ss) = some (record {
        conn = record {
          tables = record {
            blocks = bs;
            transactions = ts;
            account_locks = ls;
            token_balance_changes = cs;
            ingestion_status = ss;
          };
          saved = none;
          clock = file.clock;
        };
        candles = ks;
      })
      with_tables _ _ _ _ _ _ = none
