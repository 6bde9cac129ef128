-- ===== src/Tests/Finishes.antt =====
-- The three tasks of `run_ingest` to their ends: once with success, and once where the first
-- statement of the store task fails.
use tenso.Prelude.{
  ℕ, zero, suc, ◌+◌, ◌*◌, ◌≤◌, ◌≡◌, ◌⊎◌, refl, sym, ap, inl, inr, Bool, true, false, some, List, [],
  ◌∷◌, map, length, arith,
}
use tenso.Fetch.{FetchOutcome}
use tenso.Storage.{StorageError, Result, ok, err, engine_error}
use tenso.Pipeline.{
  ParsedOutcome, StoreState, parse_outcome, store_outcome, flush_full, flush_rest, store_stage,
}
use tenso.Pipeline.Parsed.{parsed}
use tenso.Pipeline.Tasks
use tenso.Pipeline.Tasks.{ParseTask, Tasks, spawn, Run, Turn}
use tenso.Pipeline.Tasks.Finish.{HasFinished, turns, Tasks-progress}
use tenso.Pipeline.Tasks.Outcome.{Tasks-store_stage}
use tenso.Archive.{Database}
use tenso.Archive.Invariant.{ConsistentDatabase}
use tenso.Archive.Pass.{build_and_store_candles}
use tenso.Archive.Queries.Stats.{stats_of}
use tenso.Ingest.{IngestError, Anyhow, report, to_slot_of, joined as joined_tasks}
use tenso.Ingest.Completes.{joined-completes, joined-err}
use tenso.Tests.Slots.{no_fault, joined}
use tenso.Tests.Stages.{start}
use tenso.Tests.Trades.{whole}
use tenso.Tests.Archives.{kept, in_order}
use tenso.Tests.Invariants.{empty-ConsistentConn, kept-AddsNoRow}

abbrev fetched : List FetchOutcome
fetched = FetchOutcome.skipped 8 ∷ FetchOutcome.failed 7 "timeout" ∷ []

-- The first statement fails.
abbrev faulty : ℕ → Bool
faulty zero = true
faulty (suc n) = false

abbrev after_8 : StoreState
after_8 =
    flush_full no_fault joined 2 (store_outcome no_fault joined (ParsedOutcome.skipped 8) start).1

abbrev after_7 : StoreState
after_7 =
    flush_full no_fault joined 2
      (store_outcome no_fault joined (ParsedOutcome.failed 7 "timeout") after_8).1

abbrev finished : Tasks
finished = record {
  sending = [];
  fetch_channel = [];
  parse_task = ParseTask.parse_ok;
  parse_channel = [];
  store = (flush_rest no_fault joined after_7).1;
  store_result = some (flush_rest no_fault joined after_7).0;
}

ran : Run no_fault joined 2 (spawn fetched start) finished
unfolding parse_outcome store_outcome flush_full flush_rest tenso.Storage.upsert_ingestion_status
    tenso.Storage.execute
ran =
    let s0 = Tasks.next Tasks.here (Tasks.fetch_sends _ _ refl (inl refl) (omega arith)) in
    let s1 = Tasks.next s0 (Tasks.fetch_sends _ _ refl (inl refl) (omega arith)) in
    let s2 = Tasks.next s1 (Tasks.parse_receives _ _ (ParsedOutcome.skipped 8) refl refl refl) in
    let s3 = Tasks.next s2 (Tasks.parse_sends _ refl refl (omega arith)) in
    let s4 = Tasks.next s3 (Tasks.store_receives _ _ refl refl refl) in
    let s5 =
      Tasks.next s4 (Tasks.parse_receives _ _ (ParsedOutcome.failed 7 "timeout") refl refl refl) in
    let s6 = Tasks.next s5 (Tasks.parse_sends _ refl refl (omega arith)) in
    let s7 = Tasks.next s6 (Tasks.parse_ends refl refl refl) in
    let s8 = Tasks.next s7 (Tasks.store_receives _ _ refl refl refl) in
    Tasks.next s8 (Tasks.store_ends (inl refl) refl refl)

all_ended : HasFinished finished
unfolding flush_rest store_outcome flush_full tenso.Storage.upsert_ingestion_status
    tenso.Storage.execute
all_ended = (refl, inl refl, (ok tt, refl))

Tasks-progress_example :
    (turns no_fault joined 2 ran ≤ 4 * length fetched + 2)
    × (HasFinished finished ⊎ ((t : Tasks) × Turn no_fault joined 2 finished t))
Tasks-progress_example = Tasks-progress no_fault joined 2 fetched start ran

abbrev stored_result : Result (Unit {0})
stored_result = ok tt

result_ok : finished.store_result ≡ some (ok tt)
unfolding flush_rest store_outcome flush_full tenso.Storage.upsert_ingestion_status
    tenso.Storage.execute
result_ok = refl

Tasks-store_stage_example :
    ((stored_result, finished.store) ≡ store_stage no_fault joined 2 (map parsed fetched) start)
    × ((finished.parse_task ≡ ParseTask.parse_ok)
        ⊎ ((e : StorageError) × (stored_result ≡ err e)
            × (finished.parse_task ≡ ParseTask.parse_bailed)))
Tasks-store_stage_example =
    Tasks-store_stage no_fault joined 2 fetched start stored_result ran all_ended result_ok

stage_ok : (store_stage no_fault joined 2 (map parsed fetched) start).0 ≡ ok tt
stage_ok = sym (
    ap (λ x. x.0)
      (Tasks-store_stage no_fault joined 2 fetched start stored_result ran all_ended result_ok).0)

joined-completes_example :
    (d' : Database whole) × (clock : ℕ) × (build_and_store_candles whole no_fault in_order kept kept
        7
        (to_slot_of 7 2)
        (record {
          conn = (store_stage no_fault joined 2 (map parsed fetched) start).1.conn;
          candles = [];
        })
      ≡ some (ok tt, d'))
    × ConsistentDatabase whole d'
    × (joined_tasks whole no_fault in_order kept kept 7 2 [] false finished
        ≡ some (
          Anyhow.value (
              report
                (store_stage no_fault joined 2 (map parsed fetched) start).1
                (stats_of whole d')),
          record {
            poisoned = false;
            database = record d' { conn = record d'.conn { clock = clock } };
          },
        ))
joined-completes_example =
    joined-completes whole no_fault in_order kept kept 7 2 joined 2 fetched start [] (λ n. refl)
      kept-AddsNoRow (empty-ConsistentConn, tt) ran all_ended stage_ok

abbrev after_fault : StoreState
after_fault = (store_outcome faulty joined (ParsedOutcome.skipped 8) start).1

-- The parse task finds the store task gone.
abbrev bailed : Tasks
bailed = record {
  sending = [];
  fetch_channel = [];
  parse_task = ParseTask.parse_bailed;
  parse_channel = [];
  store = after_fault;
  store_result = some (err engine_error);
}

ran_and_bailed : Run faulty joined 2 (spawn fetched start) bailed
unfolding parse_outcome store_outcome tenso.Storage.upsert_ingestion_status tenso.Storage.execute
ran_and_bailed =
    let s0 = Tasks.next Tasks.here (Tasks.fetch_sends _ _ refl (inl refl) (omega arith)) in
    let s1 = Tasks.next s0 (Tasks.fetch_sends _ _ refl (inl refl) (omega arith)) in
    let s2 = Tasks.next s1 (Tasks.parse_receives _ _ (ParsedOutcome.skipped 8) refl refl refl) in
    let s3 = Tasks.next s2 (Tasks.parse_sends _ refl refl (omega arith)) in
    let s4 =
      Tasks.next s3 (Tasks.parse_receives _ _ (ParsedOutcome.failed 7 "timeout") refl refl refl) in
    let s5 = Tasks.next s4 (Tasks.store_fails _ _ engine_error refl refl refl) in
    Tasks.next s5 (Tasks.parse_bails _ _ refl refl)

fault_returned : err engine_error ≡ (store_stage faulty joined 2 (map parsed fetched) start).0
fault_returned =
    ap (λ x. x.0)
      (Tasks-store_stage faulty joined 2 fetched start (err engine_error) ran_and_bailed
        (refl, inr refl, (err engine_error, refl)) refl).0

joined-err_example :
    (x : IngestError) × (joined_tasks whole faulty in_order kept kept 7 2 [] false bailed
      ≡ some (
        Anyhow.error x,
        record {
          poisoned = false;
          database = record {
            conn = (store_stage faulty joined 2 (map parsed fetched) start).1.conn;
            candles = [];
          };
        },
      ))
    × (((x ≡ IngestError.storage_failed engine_error) × (bailed.parse_task ≡ ParseTask.parse_ok))
        ⊎ ((x ≡ IngestError.store_receiver_dropped) × (bailed.parse_task ≡ ParseTask.parse_bailed)))
joined-err_example =
    joined-err whole faulty in_order kept kept 7 2 joined 2 fetched start [] false engine_error
      ran_and_bailed (refl, inr refl, (err engine_error, refl)) (sym fault_returned)
