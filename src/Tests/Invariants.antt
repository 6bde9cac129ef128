-- ===== src/Tests/Invariants.antt =====
-- The invariant of the database on concrete tables, and what follows from it.
use tenso.Prelude.{
  ℕ, none, ap, map, ◌+◌, ◌≡◌, ◌≢◌, ◌↔◌, ◌⊎◌, refl, String, true, some, List, arith, ◌∷◌, [],
}
use mathlib.Core.List.{Memᴰ, Perm}
use mathlib.Core.List.Perm
use tenso.Storage.View.Refines.{view, replace_spec_all, replace_slots_batch-view}
use tenso.Storage.Invariant.{Consistent}
use tenso.Storage.{StorageError, err, replace_slots_batch, Conn, Tables, Result, ok, as_i64}
use tenso.Storage.Invariant.Methods.{ConsistentConn}
use tenso.Ohlcv.{wsol_mint}
use tenso.Pipeline.{BalanceChangeRow, store_stage}
use tenso.Pipeline.Invariant.{store_stage-ConsistentConn}
use tenso.Archive.{Database, query_balance_changes_for_range, tick, is_between}
use tenso.Archive.Invariant.{
  ConsistentDatabase, AddsNoRow, build_and_store_candles-ConsistentDatabase,
}
use tenso.Archive.Pass.{build_and_store_candles}
use tenso.Archive.Queries.{DbStats, query_db_stats}
use tenso.Archive.Queries.Stats.{StatsOf, query_db_stats_lem}
use tenso.Archive.Readback.{read_back, query_balance_changes-replace_slots_batch}
use tenso.Coalesce.{coalesce_token_balance_rows}
use tenso.Fetch.Pool.{slot_range}
use tenso.Ingest.{to_slot_of}
use tenso.Ingest.Range.{slot_range-is_between}
use tenso.Tests.Slots.{no_fault, joined, empty, slot_7, store}
use tenso.Tests.Stages.{start, outcomes}
use tenso.Tests.Trades.{whole}
use tenso.Tests.Archives.{kept, in_order, swapped}

pub empty-ConsistentConn : ConsistentConn empty
empty-ConsistentConn = (
  record {
    block_keys = tt;
    transaction_keys = tt;
    lock_keys = tt;
    balance_keys = tt;
    status_keys = tt;
    amounts = tt;
  },
  tt,
)

store_stage-ConsistentConn_example :
    ConsistentConn (store_stage no_fault joined 2 outcomes start).1.conn
store_stage-ConsistentConn_example =
    store_stage-ConsistentConn no_fault joined 2 outcomes start empty-ConsistentConn

mints_apart : ◌≢◌ {A = String × String} ("sig", wsol_mint) ("sig", "MINT")
mints_apart e = cc (e)

swapped-ConsistentDatabase : ConsistentDatabase whole swapped
swapped-ConsistentDatabase = (
  (
    record {
      block_keys = tt;
      transaction_keys = (tt, tt);
      lock_keys = (tt, tt);
      balance_keys = ((mints_apart, tt), (tt, tt));
      status_keys = tt;
      amounts = (refl, (refl, tt));
    },
    tt,
  ),
  tt,
)

build_and_store_candles-ConsistentDatabase_example :
    (y : Result (Unit {0}) × Database whole) × (build_and_store_candles whole no_fault in_order kept
        kept 7 9 swapped
      ≡ some y)
    × ConsistentDatabase whole y.1
build_and_store_candles-ConsistentDatabase_example =
    build_and_store_candles-ConsistentDatabase whole no_fault in_order kept kept 7 9 swapped
      swapped-ConsistentDatabase

pub kept-AddsNoRow : AddsNoRow kept
kept-AddsNoRow P rows a = a

abbrev new_database : Database whole
new_database = record { conn = empty; candles = [] }

abbrev slot_7_stored : Database whole
slot_7_stored = record {
  conn = (replace_slots_batch no_fault joined (slot_7 ∷ []) empty).1;
  candles = [];
}

query_balance_changes-replace_slots_batch_example :
    (rows : List BalanceChangeRow) × (query_balance_changes_for_range whole no_fault kept 7 7
        slot_7_stored
      ≡ (ok rows, tick whole no_fault slot_7_stored))
    × Perm rows
        (map (read_back 7 slot_7.block_time) (coalesce_token_balance_rows slot_7.token_changes))
query_balance_changes-replace_slots_batch_example =
    query_balance_changes-replace_slots_batch whole no_fault joined kept slot_7 new_database
      (λ rows. Perm.refl rows) empty-ConsistentConn refl (omega arith) (ap (λ x. x.0) store) refl

query_db_stats_example :
    (s : DbStats) × (clock : ℕ) × (query_db_stats whole no_fault swapped
      ≡ (ok s, record swapped { conn = record swapped.conn { clock = clock } }))
    × StatsOf whole swapped s
query_db_stats_example =
    query_db_stats_lem whole no_fault (λ n. refl) swapped swapped-ConsistentDatabase

slot_range-is_between_example :
    (is_between 7 (to_slot_of 7 3) (as_i64 9) ≡ true) ↔ Memᴰ 9 (slot_range 7 3)
slot_range-is_between_example =
    slot_range-is_between 7 3 9 (omega arith) (omega arith) (omega arith)

empty-Consistent : Consistent empty.tables
empty-Consistent = empty-ConsistentConn.0

abbrev replaced_7 : Conn
replaced_7 = (replace_slots_batch no_fault joined (slot_7 ∷ []) empty).1

replace_slots_batch-view_example :
    (((replace_slots_batch no_fault joined (slot_7 ∷ []) empty).0 ≡ ok tt)
      × (replaced_7.saved ≡ none)
      × (view replaced_7.tables ≡ replace_spec_all joined (slot_7 ∷ []) (view empty.tables)))
    ⊎ ((e : StorageError) × ((replace_slots_batch no_fault joined (slot_7 ∷ []) empty).0 ≡ err e)
        × (((replaced_7.saved ≡ none) × (view replaced_7.tables ≡ view empty.tables))
            ⊎ ((n : ℕ) × (t : Tables) × (replaced_7.clock ≡ n + 1)
                × (no_fault n ≡ true)
                × (replaced_7.saved ≡ some t)
                × (view t ≡ view empty.tables))))
replace_slots_batch-view_example =
    replace_slots_batch-view joined no_fault (slot_7 ∷ []) empty refl empty-Consistent
