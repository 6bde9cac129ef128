-- ===== src/Tests/Stages.antt =====
-- A parsed block through the store stage.
use tenso.Prelude.{text_eq, ℕ, ◌≡◌, refl, ◌+◌, List, [], ◌∷◌, map}
use tenso.Prelude.Int.{ℤ}
use tenso.Prelude.Maps.{get}
use tenso.Storage.{ok}
use tenso.Storage.Batch.{replaced_all}
use tenso.Pipeline.{
  ParsedBlock, ParsedOutcome, ingested, skipped, failed, StoreState, slot_row, flush_parsed_batch,
  store_loop, store_stage,
}
use tenso.Pipeline.Flush.{all_scheduled, flush_parsed_batch_lem}
use tenso.Tests.Slots.{no_fault, joined, empty, slot_7}

abbrev parsed_7 : ParsedBlock
parsed_7 = record {
  slot = 7;
  block_time = slot_7.block_time;
  transactions = slot_7.transactions;
  locks = slot_7.locks;
  token_changes = slot_7.token_changes;
  signatures = "a" ∷ [];
  schedule = record { steps = 0 ∷ []; depth = 1; width_per_step = []; conflicts = [] };
}

flush_ok : (flush_parsed_batch no_fault joined (parsed_7 ∷ []) empty).0 ≡ ok tt
unfolding flush_parsed_batch store_loop store_stage tenso.Pipeline.store_outcome
    tenso.Pipeline.flush_full tenso.Pipeline.flush_rest tenso.Pipeline.write_all_steps
    tenso.Storage.upsert_ingestion_status tenso.Storage.write_schedule_steps
    tenso.Storage.write_steps tenso.Storage.set_step tenso.Storage.replace_slots_batch
    tenso.Storage.begin_transaction tenso.Storage.replace_each tenso.Storage.replace_slot_data_inner
    tenso.Storage.execute tenso.Storage.flush_rows tenso.Storage.has_key tenso.Storage.delete_slot
    tenso.Prelude.text_discrete tenso.Prelude.text_pair_discrete
    tenso.Coalesce.coalesce_token_balance_rows tenso.Coalesce.coalesce tenso.Coalesce.emit
    tenso.Coalesce.net_changes tenso.Coalesce.net_change tenso.Prelude.Maps.get
    tenso.Prelude.Maps.insert tenso.Prelude.Int.◌+ℤ◌ tenso.Prelude.ℕ_discrete tenso.Coalesce.delta
    tenso.Prelude.Int.ℤ_discrete tenso.Storage.as_i64 tenso.Storage.commit tenso.Storage.rollback
    tenso.Storage.upsert_row tenso.Storage.all_in_range
flush_ok = refl

flush_parsed_batch_example :
    (flush_parsed_batch no_fault joined (parsed_7 ∷ []) empty).1.tables
    ≡ all_scheduled
        (parsed_7 ∷ [])
        (replaced_all joined (map slot_row (parsed_7 ∷ [])) empty.tables)
flush_parsed_batch_example =
    flush_parsed_batch_lem no_fault joined (parsed_7 ∷ []) empty refl flush_ok

abbrev pub start : StoreState
start = record {
  conn = empty;
  pending_batch = [];
  ingested = 0;
  ingested_txs = 0;
  skipped = 0;
  failed = 0;
}

abbrev pub outcomes : List ParsedOutcome
outcomes =
    ParsedOutcome.skipped 6
    ∷ ParsedOutcome.ingested parsed_7
    ∷ ParsedOutcome.failed 8 "timeout"
    ∷ []

stage_ok : (store_stage no_fault joined 2 outcomes start).0 ≡ ok tt
unfolding flush_parsed_batch store_loop store_stage tenso.Pipeline.store_outcome
    tenso.Pipeline.flush_full tenso.Pipeline.flush_rest tenso.Pipeline.write_all_steps
    tenso.Storage.upsert_ingestion_status tenso.Storage.write_schedule_steps
    tenso.Storage.write_steps tenso.Storage.set_step tenso.Storage.replace_slots_batch
    tenso.Storage.begin_transaction tenso.Storage.replace_each tenso.Storage.replace_slot_data_inner
    tenso.Storage.execute tenso.Storage.flush_rows tenso.Storage.has_key tenso.Storage.delete_slot
    tenso.Prelude.text_discrete tenso.Prelude.text_pair_discrete
    tenso.Coalesce.coalesce_token_balance_rows tenso.Coalesce.coalesce tenso.Coalesce.emit
    tenso.Coalesce.net_changes tenso.Coalesce.net_change tenso.Prelude.Maps.get
    tenso.Prelude.Maps.insert tenso.Prelude.Int.◌+ℤ◌ tenso.Prelude.ℕ_discrete tenso.Coalesce.delta
    tenso.Prelude.Int.ℤ_discrete tenso.Storage.as_i64 tenso.Storage.commit tenso.Storage.rollback
    tenso.Storage.upsert_row tenso.Storage.all_in_range
stage_ok = refl
