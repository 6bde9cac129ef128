-- ===== src/Tests/Wholes.antt =====
-- A whole run over two slots: the pool, the three tasks, the candle pass and the report.
use mathlib.Core.List.{Perm}
use tenso.Prelude.{◌≡◌, refl, sym, ap, inl, false, some, [], map, arith}
use tenso.Fetch.{fetch_outcome_slot}
use tenso.Fetch.Pool.{slot_range}
use tenso.Storage.{ok}
use tenso.Pipeline.{
  ParsedOutcome, StoreState, parse_outcome, store_outcome, flush_full, flush_rest, store_stage,
}
use tenso.Pipeline.Parsed.{parsed}
use tenso.Pipeline.Tasks
use tenso.Pipeline.Tasks.{ParseTask, Tasks, spawn, Run}
use tenso.Pipeline.Tasks.Finish.{HasFinished}
use tenso.Pipeline.Tasks.Outcome.{Tasks-store_stage}
use tenso.Archive.Invariant.{ConsistentDatabase}
use tenso.Api.{AppState}
use tenso.Ingest.{Anyhow, Report, joined as joined_tasks}
use tenso.Ingest.Whole.{IngestArgs, run_ingest-completes}
use tenso.Tests.Slots.{no_fault, joined}
use tenso.Tests.Stages.{start}
use tenso.Tests.Trades.{whole}
use tenso.Tests.Archives.{kept, in_order}
use tenso.Tests.Invariants.{empty-ConsistentConn, kept-AddsNoRow}
use tenso.Tests.Pools.{grants, server, server-AnswersSlots, done, parsed_7, parse_7, ran}

abbrev args : IngestArgs
args = record { start_slot = 7; count = 2; max_concurrency = 2; batch_size = 2 }

abbrev after_8 : StoreState
after_8 =
    flush_full no_fault joined 2 (store_outcome no_fault joined (ParsedOutcome.skipped 8) start).1

abbrev after_7 : StoreState
after_7 = flush_full no_fault joined 2 (store_outcome no_fault joined parsed_7 after_8).1

abbrev finished : Tasks
finished = record {
  sending = [];
  fetch_channel = [];
  parse_task = ParseTask.parse_ok;
  parse_channel = [];
  store = (flush_rest no_fault joined after_7).1;
  store_result = some (flush_rest no_fault joined after_7).0;
}

stepped : Run no_fault joined 2 (spawn done.outcomes start) finished
unfolding parse_outcome store_outcome tenso.Storage.upsert_ingestion_status tenso.Storage.execute
stepped =
    let s0 = Tasks.next Tasks.here (Tasks.fetch_sends _ _ refl (inl refl) (omega arith)) in
    let s1 = Tasks.next s0 (Tasks.fetch_sends _ _ refl (inl refl) (omega arith)) in
    let s2 = Tasks.next s1 (Tasks.parse_receives _ _ (ParsedOutcome.skipped 8) refl refl refl) in
    let s3 = Tasks.next s2 (Tasks.parse_sends _ refl refl (omega arith)) in
    let s4 = Tasks.next s3 (Tasks.store_receives _ _ refl refl refl) in
    let s5 = Tasks.next s4 (Tasks.parse_receives _ _ parsed_7 refl refl parse_7) in
    let s6 = Tasks.next s5 (Tasks.parse_sends _ refl refl (omega arith)) in
    let s7 = Tasks.next s6 (Tasks.parse_ends refl refl refl) in
    let s8 = Tasks.next s7 (Tasks.store_receives _ _ refl refl refl) in
    Tasks.next s8 (Tasks.store_ends (inl refl) refl refl)

all_ended : HasFinished finished
all_ended = (refl, inl refl, (_, refl))

result_ok : finished.store_result ≡ some (ok tt)
unfolding store_outcome tenso.Storage.upsert_ingestion_status tenso.Storage.execute flush_rest
    flush_full tenso.Pipeline.flush_parsed_batch tenso.Storage.replace_slots_batch
    tenso.Storage.begin_transaction tenso.Storage.replace_each tenso.Storage.replace_slot_data_inner
    tenso.Storage.flush_rows tenso.Storage.all_in_range tenso.Coalesce.coalesce_token_balance_rows
    tenso.Coalesce.coalesce tenso.Coalesce.emit tenso.Coalesce.net_changes tenso.Storage.commit
    tenso.Pipeline.write_all_steps tenso.Storage.write_schedule_steps tenso.Storage.write_steps
result_ok = refl

stored : (store_stage no_fault joined 2 (map parsed done.outcomes) start).0 ≡ ok tt
stored = sym (
    ap (λ x. x.0)
      (Tasks-store_stage no_fault joined 2 done.outcomes start (ok tt) stepped
        (refl, inl refl, (ok tt, result_ok)) result_ok).0)

run_ingest-completes_example :
    Perm (map fetch_outcome_slot done.outcomes) (slot_range 7 2)
    × (report : Report) × (end : AppState whole) × (joined_tasks whole no_fault in_order kept kept 7
          2 [] false finished
        ≡ some (Anyhow.value report, end))
    × (report.attempted ≡ 2)
    × (end.poisoned ≡ false)
    × ConsistentDatabase whole end.database
run_ingest-completes_example =
    run_ingest-completes whole no_fault in_order kept kept joined grants server args start []
      (omega arith) (omega arith) (omega arith) server-AnswersSlots (λ n. refl) kept-AddsNoRow
      (empty-ConsistentConn, tt) refl refl ran refl stepped all_ended stored
