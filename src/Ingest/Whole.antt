-- ===== src/Ingest/Whole.antt =====
-- `run_ingest` of crates/cli/src/main.rs as a whole: the pool of `fetch_block_range`, the three
-- tasks, the candle pass and the statistics.
use mathlib.Core.List.{Perm}
use tenso.Prelude.{
  ◌+◌, ◌^◌, ℕ, ◌<◌, ◌≡◌, refl, ap, ◌∙◌, String, Bool, false, some, List, [], map, length,
  length-map, arith,
}
use tenso.Floats.{Floats}
use tenso.Types.{DecodedBlock}
use tenso.Rpc.{RpcError}
use tenso.Retry.{Answer}
use tenso.Fetch.{Acquire, fetch_outcome_slot}
use tenso.Fetch.Pool.{Pool, start, slot_range}
use tenso.Fetch.Pool
use tenso.Fetch.Pool.Outcomes.{AnswersSlots, Reach-finished, finished_length}
use tenso.Ohlcv.{TxSnapshot, Candle}
use tenso.Storage.{ok, BalanceDbRow}
use tenso.Pipeline.{StoreState, store_stage}
use tenso.Pipeline.Stage.{counted, store_stage-counted}
use tenso.Pipeline.Parsed.{parsed}
use tenso.Pipeline.Tasks.{Tasks, spawn, Run}
use tenso.Pipeline.Tasks.Finish.{HasFinished}
use tenso.Archive.{CandleDbRow}
use tenso.Archive.Invariant.{ConsistentDatabase, AddsNoRow}
use tenso.Api.{AppState}
use tenso.Ingest.{Anyhow, Report, joined}
use tenso.Ingest.Completes.{joined-completes}

-- Of what the command line sets, the fields that the range, the pool and the store task read.
pub record IngestArgs : Type 0 where
  pub start_slot : ℕ
  pub count : ℕ
  pub max_concurrency : ℕ
  pub batch_size : ℕ

module _ (f : Floats) (fault : ℕ → Bool)
    (mint_order : ℕ → List (String × List (Candle f)) → List (String × List (Candle f)))
    (order : List BalanceDbRow → List BalanceDbRow)
    (hash_order : List (String × TxSnapshot) → List (String × TxSnapshot))
    (to_json : List String → String) (grants : ℕ → Acquire)
    (server : ℕ → ℕ → Answer RpcError DecodedBlock) (args : IngestArgs) (st : StoreState)
    (candles : List (CandleDbRow f)) where
  -- For a range that ends below 2^64, a positive `max_concurrency` and a positive batch size, let
  -- each block that is answered have the slot that was asked for, the engine not fail, ORDER BY add no row, and the database
  -- be consistent at the start, with the counters at 0 and nothing pending. However requests and
  -- tasks take turns, once no request is in flight and all three tasks have ended, and where the
  -- store stage succeeds: the outcomes are those of the slots of the range, each slot just once,
  -- in some order; `run_ingest` returns a report in which just `count` slots are attempted, and
  -- leaves a consistent database behind a sound lock.
  pub run_ingest-completes :
      {p : Pool} {s : Tasks}
      → args.start_slot + args.count < 2 ^ 64
      → 0 < args.max_concurrency
      → 0 < args.batch_size
      → AnswersSlots server
      → ((n : ℕ) → fault n ≡ false)
      → AddsNoRow order
      → ConsistentDatabase f (record { conn = st.conn; candles = candles })
      → counted st ≡ 0
      → st.pending_batch ≡ []
      → Pool.Reach grants server (start args.start_slot args.count args.max_concurrency) p
      → p.in_flight ≡ []
      → Run fault to_json args.batch_size (spawn p.outcomes st) s
      → HasFinished s
      → (store_stage fault to_json args.batch_size (map parsed p.outcomes) st).0 ≡ ok tt
      → Perm (map fetch_outcome_slot p.outcomes) (slot_range args.start_slot args.count)
        × (report : Report) × (end : AppState f) × (joined f fault mint_order order hash_order
              args.start_slot args.count candles false s
            ≡ some (Anyhow.value report, end))
        × (report.attempted ≡ args.count)
        × (end.poisoned ≡ false)
        × ConsistentDatabase f end.database
  run_ingest-completes {p} {s} fits concurrent batched right quiet adds_none w zeroed empty pool_ran
        idle tasks_ran finished stored =
      let (d', clock, passed, w', completes) =
        joined-completes f fault mint_order order hash_order args.start_slot args.count to_json
          args.batch_size p.outcomes st candles quiet adds_none w tasks_ran finished stored in
      let none_pending : length st.pending_batch ≡ 0 = ap length empty in
      let (same, flushed) =
        store_stage-counted fault to_json args.batch_size (map parsed p.outcomes) st batched
          (omega (arith, none_pending, batched)) stored in
      let number : length (map parsed p.outcomes) ≡ args.count =
        length-map parsed p.outcomes
        ∙ finished_length grants server right args.start_slot args.count args.max_concurrency fits
            concurrent pool_ran idle in
      (
        Reach-finished grants server right args.start_slot args.count args.max_concurrency
            concurrent pool_ran idle,
        _,
        _,
        completes,
        omega (arith, same, number, zeroed),
        refl,
        w',
      )
