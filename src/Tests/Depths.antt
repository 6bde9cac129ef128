-- ===== src/Tests/Depths.antt =====
-- A block of two transactions that write one account, parsed, stored, and asked for.
use tenso.Prelude.{text_eq, ℕ, ◌≡◌, refl, String, true, false, none, some, [], ◌∷◌}
use tenso.Prelude.Int.{ℤ}
use tenso.Types.{DecodedTransaction, DecodedBlock}
use tenso.Storage.{ok, Conn}
use tenso.Pipeline.{ParsedBlock, parse_block, flush_parsed_batch}
use tenso.Archive.{Database}
use tenso.Archive.Queries.{ContentionSummary, query_contention_summary}
use tenso.Archive.Queries.Depth.{query_contention_summary-flush}
use tenso.Contention.{build_schedule}
use tenso.Tests.Slots.{no_fault, joined, empty}
use tenso.Tests.Trades.{whole}
use tenso.Tests.Archives.{kept, kept-Reorders}

abbrev transaction : String → DecodedTransaction
transaction signature = record {
  signature = signature;
  slot = 7;
  block_time = none;
  program_ids = [];
  locks = record { account = "pool"; is_writable = true } ∷ [];
  token_deltas = [];
  failed = false;
}

abbrev block : DecodedBlock
block = record {
  slot = 7;
  block_time = none;
  transactions = transaction "a" ∷ transaction "ab" ∷ [];
}

abbrev parsed_block : ParsedBlock
parsed_block = record {
  slot = 7;
  block_time = none;
  transactions = ("a", false, [], none) ∷ ("ab", false, [], none) ∷ [];
  locks = ("a", "pool", true) ∷ ("ab", "pool", true) ∷ [];
  token_changes = [];
  signatures = "a" ∷ "ab" ∷ [];
  schedule = record {
    steps = 0 ∷ 1 ∷ [];
    depth = 2;
    width_per_step = (0, 1) ∷ (1, 1) ∷ [];
    conflicts =
        record {
          account = "pool";
          tx_signature = "ab";
          program_ids = [];
          step = 1;
          caused_by_write = true;
        }
        ∷ [];
  };
}

was_parsed : parse_block block ≡ some parsed_block
unfolding parse_block build_schedule tenso.Contention.schedule_txs tenso.Contention.update_accounts
    tenso.Prelude.Maps.get tenso.Contention.earliest_step tenso.Contention.entry_or_default
    tenso.Prelude.Maps.insert tenso.Prelude.text_discrete tenso.Pipeline.all_lock_rows
    tenso.Pipeline.all_change_rows tenso.Contention.blocking_step tenso.Contention.depth_of
    tenso.Contention.count_widths tenso.Contention.conflict_event tenso.Contention.update_account
    tenso.Prelude.ℕ_discrete
was_parsed = refl

abbrev flushed : Conn
flushed = (flush_parsed_batch no_fault joined (parsed_block ∷ []) empty).1

was_flushed : (flush_parsed_batch no_fault joined (parsed_block ∷ []) empty).0 ≡ ok tt
unfolding flush_parsed_batch tenso.Storage.replace_slots_batch tenso.Storage.begin_transaction
    tenso.Storage.replace_each tenso.Storage.replace_slot_data_inner tenso.Storage.execute
    tenso.Storage.flush_rows tenso.Storage.has_key tenso.Storage.delete_slot
    tenso.Prelude.text_discrete tenso.Prelude.text_pair_discrete tenso.Storage.all_in_range
    tenso.Coalesce.coalesce_token_balance_rows tenso.Coalesce.coalesce tenso.Coalesce.emit
    tenso.Coalesce.net_changes tenso.Storage.commit tenso.Pipeline.write_all_steps
    tenso.Prelude.ℕ_discrete tenso.Prelude.Int.ℤ_discrete tenso.Prelude.Maps.get
    tenso.Prelude.Maps.insert tenso.Prelude.decide_pair tenso.Storage.as_i64 tenso.Storage.set_step
    tenso.Storage.upsert_row tenso.Storage.write_schedule_steps tenso.Storage.write_steps
was_flushed = refl

abbrev database : Conn → Database whole
database c = record { conn = c; candles = [] }

abbrev summary : ContentionSummary
summary = record { depth = 2; top_conflicting_accounts = ("pool", 2) ∷ [] }

was_asked : (query_contention_summary whole no_fault kept 7 7 (database flushed)).0 ≡ ok summary
unfolding flush_parsed_batch tenso.Storage.replace_slots_batch tenso.Storage.begin_transaction
    tenso.Storage.replace_each tenso.Storage.replace_slot_data_inner tenso.Storage.execute
    tenso.Storage.flush_rows tenso.Storage.has_key tenso.Storage.delete_slot
    tenso.Prelude.text_discrete tenso.Prelude.text_pair_discrete tenso.Storage.all_in_range
    tenso.Coalesce.coalesce_token_balance_rows tenso.Coalesce.coalesce tenso.Coalesce.emit
    tenso.Coalesce.net_changes tenso.Storage.commit tenso.Pipeline.write_all_steps
    tenso.Prelude.ℕ_discrete tenso.Prelude.Int.ℤ_discrete tenso.Prelude.Maps.get
    tenso.Prelude.Maps.insert tenso.Prelude.decide_pair tenso.Storage.as_i64 tenso.Storage.set_step
    tenso.Storage.upsert_row tenso.Storage.write_schedule_steps tenso.Storage.write_steps
    query_contention_summary tenso.Archive.Queries.max_stored_step
    tenso.Archive.Queries.top_accounts tenso.Archive.Ranking.sort_ranked
    tenso.Archive.Queries.count_locks tenso.Archive.Ranking.insert_ranked
was_asked = refl

query_contention_summary-flush_example : summary.depth ≡ parsed_block.schedule.depth
query_contention_summary-flush_example =
    query_contention_summary-flush whole no_fault joined kept block (database empty) summary
      was_parsed ((cc, tt), (tt, tt)) refl was_flushed kept-Reorders was_asked
