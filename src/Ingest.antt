-- ===== src/Ingest.antt =====
-- crates/cli/src/main.rs: `run_ingest` from the ends of its three tasks on: the joins, the candle
-- pass over the range, and the statistics. What it logs is its report. The server that may run
-- beside it is the subject of Api; what it can leave behind here is a poisoned lock. A panic of the
-- bindings of the engine while a worker of the ingest holds the lock is left out.
pub mod Completes
pub mod Range
pub mod Whole
use tenso.Prelude.{
  ℕ, ◌+◌, ◌-◌, ◌^◌, String, Bool, true, false, Option, none, some, List, min, if◌then◌else◌,
}
use tenso.Floats.{Floats}
use tenso.Ohlcv.{TxSnapshot, Candle}
use tenso.Storage.{StorageError, Result, ok, err, BalanceDbRow}
use tenso.Pipeline.{StoreState}
use tenso.Pipeline.Tasks.{ParseTask, Tasks}
use tenso.Archive.{CandleDbRow, Database}
use tenso.Archive.Pass.{build_and_store_candles}
use tenso.Archive.Queries.{DbStats, query_db_stats}
use tenso.Api.{AppState}

-- The errors that `run_ingest` returns once its tasks are spawned.
pub data IngestError : Type 0 where
  -- bail!("store receiver dropped")
  store_receiver_dropped : IngestError
  storage_failed : StorageError → IngestError
  candle_worker_panicked stats_worker_panicked : IngestError

pub data Anyhow (A : Type 0) : Type 0 where
  value : A → Anyhow A
  error : IngestError → Anyhow A

-- u64::saturating_add and saturating_sub
abbrev pub saturating_add : ℕ → ℕ → ℕ
saturating_add m n = min (m + n) (2 ^ 64 - 1)

abbrev pub saturating_sub : ℕ → ℕ → ℕ
saturating_sub m n = m - n

unfoldable pub to_slot_of : ℕ → ℕ → ℕ
to_slot_of start_slot count = saturating_add start_slot (saturating_sub count 1)

-- What `run_ingest` logs of the stages and of the database.
pub record Report : Type 0 where
  pub attempted : ℕ
  pub ingested : ℕ
  pub skipped : ℕ
  pub failed : ℕ
  pub ingested_txs : ℕ
  pub stats : DbStats

abbrev pub report : StoreState → DbStats → Report
report st stats = record {
  attempted = st.ingested + st.skipped + st.failed;
  ingested = st.ingested;
  skipped = st.skipped;
  failed = st.failed;
  ingested_txs = st.ingested_txs;
  stats = stats;
}

abbrev pub of_storage : {A : Type 0} → Result A → Anyhow A
of_storage (ok a) = Anyhow.value a
of_storage (err e) = Anyhow.error (IngestError.storage_failed e)

-- parse.await, once the task has ended
unfoldable pub parse_joined : ParseTask → Option (Anyhow (Unit {0}))
parse_joined ParseTask.receiving = none
parse_joined (ParseTask.holding p) = none
parse_joined ParseTask.parse_ok = some (Anyhow.value tt)
parse_joined ParseTask.parse_bailed = some (Anyhow.error IngestError.store_receiver_dropped)

infixl 5 ◌>>=◌
abbrev pub ◌>>=◌ : {S A B : Type 0} → (S → Anyhow A × S) → (A → S → Anyhow B × S) → S → Anyhow B × S
◌>>=◌ m k s =
    let (r, s') = m s in elim r [ Anyhow.error e ↦ (Anyhow.error e, s') | Anyhow.value a ↦ k a s' ]

module _ (f : Floats) where
  abbrev pub Step : Type 0 → Type 0
  Step A = AppState f → Anyhow A × AppState f

  abbrev settled :
      {A : Type 0}
      → IngestError
      → Database f
      → Option (Result A × Database f)
      → Anyhow A × AppState f
  settled panicked d none = (Anyhow.error panicked, record { poisoned = true; database = d })
  settled panicked d (some (r, d')) = (of_storage r, record { poisoned = false; database = d' })

  -- spawn_blocking(move || { let guard = conn.lock().unwrap(); .. }).await.context(..)??
  unfoldable pub blocking :
      {A : Type 0} → IngestError → (Database f → Option (Result A × Database f)) → Step A
  blocking panicked run s =
      if s.poisoned
      then (Anyhow.error panicked, s)
      else settled panicked s.database (run s.database)

  abbrev pub read_stats : (ℕ → Bool) → Step DbStats
  read_stats fault =
      blocking IngestError.stats_worker_panicked (λ d. some (query_db_stats f fault d))

  module _ (fault : ℕ → Bool)
      (mint_order : ℕ → List (String × List (Candle f)) → List (String × List (Candle f)))
      (order : List BalanceDbRow → List BalanceDbRow)
      (hash_order : List (String × TxSnapshot) → List (String × TxSnapshot))
      (start_slot count : ℕ) where
    abbrev pub store_candles : Step (Unit {0})
    store_candles = blocking IngestError.candle_worker_panicked (
        build_and_store_candles f fault mint_order order hash_order start_slot
          (to_slot_of start_slot count))

    -- From the counters of the store task to the end.
    unfoldable pub after_store : StoreState → Step Report
    after_store st = do
      stored ← store_candles
      stats ← read_stats fault
      λ s. (Anyhow.value (report st stats), s)

    -- parse.await??; store.await??; and the rest. `none` is to wait for a task that has not ended.
    -- `candles` is the table of candles, and `poisoned` whether the server has left the lock so.
    unfoldable pub joined :
        (candles : List (CandleDbRow f)) (poisoned : Bool)
        → Tasks
        → Option (Anyhow Report × AppState f)
    joined candles poisoned s =
        let db : AppState f = record {
          poisoned = poisoned;
          database = record { conn = s.store.conn; candles = candles };
        } in
        elim (parse_joined s.parse_task) [
          | none ↦ none
          | some (Anyhow.error e) ↦ some (Anyhow.error e, db)
          | some (Anyhow.value u) ↦ elim s.store_result [
            | none ↦ none
            | some (err e) ↦ some (Anyhow.error (IngestError.storage_failed e), db)
            | some (ok u) ↦ some (after_store s.store db)
          ]
        ]
