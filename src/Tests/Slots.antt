-- ===== src/Tests/Slots.antt =====
-- A slot stored on an empty database, twice, and the steps of its transactions.
use mathlib.Core.Logic.{◌≢◌}
use tenso.Prelude.{
  ℕ, ◌≡◌, refl, ap, ◌∙◌, String, Bool, true, false, ◌+◌, none, some, List, [], ◌∷◌, ◌⊎◌,
}
use tenso.Prelude.Int.{ℤ, pos}
use tenso.Coalesce.{coalesce_token_balance_rows}
use tenso.Contention.{ScheduleResult}
use tenso.Storage.{
  StorageError, Result, ok, err, Tables, Conn, SlotBatchRow, as_i64, replace_slots_batch,
  write_schedule_steps,
}
use tenso.Storage.Replace.{slot_rows}
use tenso.Storage.Batch.{
  replaced_all, batch_effect, replace_slots_batch-atomic, replace_slots_batch_idem,
  replace_slots_batch-other_slots,
}

abbrev pub no_fault : ℕ → Bool
no_fault n = false

abbrev pub joined : List String → String
joined [] = ""
joined (s ∷ ss) = s

abbrev pub empty : Conn
empty = record {
  tables = record {
    blocks = [];
    transactions = [];
    account_locks = [];
    token_balance_changes = [];
    ingestion_status = [];
  };
  saved = none;
  clock = 0;
}

abbrev pub slot_7 : SlotBatchRow
slot_7 = record {
  slot = 7;
  block_time = some (pos 100);
  transactions = ("a", false, "amm" ∷ [], none) ∷ [];
  locks = ("a", "pool", false) ∷ [];
  token_changes = ("a", "mint", 5, 0, 6) ∷ ("a", "mint", 0, 2, 6) ∷ [];
}

-- The tables after the slot is stored.
abbrev with_slot_7 : Tables
with_slot_7 = record {
  blocks = record { slot = pos 7; block_time = some (pos 100); tx_count = 1 } ∷ [];
  transactions =
      record {
        signature = "a";
        slot = pos 7;
        block_time = some (pos 100);
        failed = false;
        program_ids = "amm";
        step = none;
      }
      ∷ [];
  account_locks =
      record { slot = pos 7; tx_signature = "a"; account = "pool"; is_writable = false } ∷ [];
  token_balance_changes =
      record {
        tx_signature = "a";
        slot = pos 7;
        block_time = some (pos 100);
        mint = "mint";
        pre_amount = 3;
        post_amount = 0;
        decimals = 6;
      }
      ∷ [];
  ingestion_status = [];
}

abbrev stored : Conn
stored = record { tables = with_slot_7; saved = none; clock = 9 }

pub store : replace_slots_batch no_fault joined (slot_7 ∷ []) empty ≡ (ok tt, stored)
unfolding replace_slots_batch tenso.Storage.begin_transaction tenso.Storage.replace_each
    tenso.Storage.replace_slot_data_inner tenso.Storage.execute tenso.Storage.flush_rows
    tenso.Storage.has_key tenso.Storage.delete_slot tenso.Prelude.text_discrete
    tenso.Prelude.text_pair_discrete coalesce_token_balance_rows tenso.Coalesce.coalesce
    tenso.Coalesce.emit tenso.Coalesce.net_changes tenso.Coalesce.net_change tenso.Prelude.Maps.get
    tenso.Prelude.Maps.insert tenso.Prelude.Int.◌+ℤ◌ tenso.Prelude.ℕ_discrete tenso.Coalesce.delta
    tenso.Prelude.Int.ℤ_discrete as_i64 tenso.Storage.commit tenso.Storage.rollback
    tenso.Storage.upsert_row tenso.Storage.all_in_range
store = refl

store_again :
    replace_slots_batch no_fault joined (slot_7 ∷ []) stored ≡ (ok tt, record stored { clock = 18 })
unfolding replace_slots_batch tenso.Storage.begin_transaction tenso.Storage.replace_each
    tenso.Storage.replace_slot_data_inner tenso.Storage.execute tenso.Storage.flush_rows
    tenso.Storage.has_key tenso.Storage.delete_slot tenso.Prelude.text_discrete
    tenso.Prelude.text_pair_discrete coalesce_token_balance_rows tenso.Coalesce.coalesce
    tenso.Coalesce.emit tenso.Coalesce.net_changes tenso.Coalesce.net_change tenso.Prelude.Maps.get
    tenso.Prelude.Maps.insert tenso.Prelude.Int.◌+ℤ◌ tenso.Prelude.ℕ_discrete tenso.Coalesce.delta
    tenso.Prelude.Int.ℤ_discrete as_i64 tenso.Storage.commit tenso.Storage.rollback
    tenso.Storage.upsert_row tenso.Storage.all_in_range
store_again = refl

effect_ok : batch_effect joined (slot_7 ∷ []) empty.tables ≡ ok with_slot_7
unfolding batch_effect tenso.Storage.Replace.slot_effect tenso.Storage.flush_rows
    tenso.Storage.has_key tenso.Storage.delete_slot coalesce_token_balance_rows
    tenso.Coalesce.coalesce tenso.Coalesce.emit tenso.Coalesce.net_changes tenso.Coalesce.net_change
    tenso.Prelude.Maps.get tenso.Prelude.Maps.insert tenso.Prelude.text_pair_discrete
    tenso.Prelude.Int.◌+ℤ◌ tenso.Coalesce.delta tenso.Storage.upsert_row as_i64
    tenso.Storage.all_in_range
effect_ok = refl

abbrev first_run : Conn
first_run = (replace_slots_batch no_fault joined (slot_7 ∷ []) empty).1

replace_slots_batch-atomic_example :
    (((replace_slots_batch no_fault joined (slot_7 ∷ []) empty).0 ≡ ok tt)
      × (first_run.saved ≡ none)
      × (first_run.tables ≡ replaced_all joined (slot_7 ∷ []) empty.tables))
    ⊎ ((e : StorageError) × ((replace_slots_batch no_fault joined (slot_7 ∷ []) empty).0 ≡ err e)
        × (((first_run.saved ≡ none) × (first_run.tables ≡ empty.tables))
            ⊎ ((n : ℕ) × (first_run.clock ≡ n + 1)
                × (no_fault n ≡ true)
                × (first_run.saved ≡ some empty.tables))))
replace_slots_batch-atomic_example =
    replace_slots_batch-atomic no_fault joined (slot_7 ∷ []) empty refl

replace_slots_batch_idem_example :
    (replace_slots_batch no_fault joined (slot_7 ∷ []) first_run).1.tables ≡ first_run.tables
replace_slots_batch_idem_example =
    replace_slots_batch_idem no_fault joined slot_7 empty refl (ap (λ x. x.0) store) (
      ap (λ x. (replace_slots_batch no_fault joined (slot_7 ∷ []) x.1).0) store
      ∙ ap (λ x. x.0) store_again)

abbrev slot_8 : SlotBatchRow
slot_8 = record slot_7 {
  slot = 8;
  transactions = ("c", false, [], none) ∷ [];
  locks = ("c", "pool", false) ∷ [];
  token_changes = [];
}

abbrev both : Conn
both = (replace_slots_batch no_fault joined (slot_8 ∷ []) stored).1

both_ok : (replace_slots_batch no_fault joined (slot_8 ∷ []) stored).0 ≡ ok tt
unfolding replace_slots_batch tenso.Storage.begin_transaction tenso.Storage.replace_each
    tenso.Storage.replace_slot_data_inner tenso.Storage.execute tenso.Storage.flush_rows
    tenso.Storage.has_key tenso.Storage.delete_slot tenso.Prelude.text_discrete
    tenso.Prelude.text_pair_discrete coalesce_token_balance_rows tenso.Coalesce.coalesce
    tenso.Coalesce.emit tenso.Coalesce.net_changes tenso.Coalesce.net_change tenso.Prelude.Maps.get
    tenso.Prelude.Maps.insert tenso.Prelude.Int.◌+ℤ◌ tenso.Prelude.ℕ_discrete tenso.Coalesce.delta
    tenso.Prelude.Int.ℤ_discrete as_i64 tenso.Storage.commit tenso.Storage.rollback
    tenso.Storage.upsert_row tenso.Storage.all_in_range
both_ok = refl

apart_slots : as_i64 8 ≢ pos 7
unfolding as_i64
apart_slots = cc

replace_slots_batch-other_slots_example :
    (slot_rows (λ r. r.slot) (pos 7) both.tables.transactions
      ≡ slot_rows (λ r. r.slot) (pos 7) stored.tables.transactions)
    × (slot_rows (λ r. r.slot) (pos 7) both.tables.account_locks
        ≡ slot_rows (λ r. r.slot) (pos 7) stored.tables.account_locks)
    × (slot_rows (λ r. r.slot) (pos 7) both.tables.token_balance_changes
        ≡ slot_rows (λ r. r.slot) (pos 7) stored.tables.token_balance_changes)
replace_slots_batch-other_slots_example =
    replace_slots_batch-other_slots no_fault joined slot_8 stored (pos 7) refl both_ok apart_slots

abbrev step_3 : ScheduleResult
step_3 = record { steps = 3 ∷ []; depth = 4; width_per_step = []; conflicts = [] }

steps_ok : (write_schedule_steps no_fault ("a" ∷ []) step_3 stored).0 ≡ ok tt
unfolding write_schedule_steps tenso.Storage.write_steps tenso.Storage.execute
steps_ok = refl
