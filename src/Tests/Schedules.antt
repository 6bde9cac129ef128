-- ===== src/Tests/Schedules.antt =====
-- The schedule of a small block: two writers of a pool, a reader of it, and a transaction apart.
use tenso.Prelude.{
  ℕ, suc, ◌≡◌, refl, ◌<◌, ◌≤◌, ◌↔◌, true, some, List, [], ◌∷◌, zero, number_eq, arith,
}
use tenso.Prelude.Maps.{get}
use tenso.Contention.{TxLocks, ScheduleResult, write, read, build_schedule, width_or_zero}
use tenso.Contention.Spec.{reference_steps, conflict}
use tenso.Contention.Shape.{Respects, build_schedule-respects_order}
use tenso.Contention.Least.{build_schedule-least}
use tenso.Contention.Conflicts.{reference_conflicts, build_schedule-reference_conflicts}
use tenso.Contention.Widths.{count, build_schedule-widths}

abbrev first_swap : TxLocks
first_swap = record {
  signature = "first";
  program_ids = "amm" ∷ [];
  locks = write "pool" ∷ read "mint" ∷ [];
}

abbrev reader : TxLocks
reader = record { signature = "reader"; program_ids = []; locks = read "pool" ∷ [] }

abbrev second_swap : TxLocks
second_swap = record {
  signature = "second";
  program_ids = "amm" ∷ [];
  locks = write "pool" ∷ read "mint" ∷ [];
}

abbrev apart : TxLocks
apart = record { signature = "apart"; program_ids = []; locks = write "wallet" ∷ [] }

abbrev block : List TxLocks
block = first_swap ∷ reader ∷ second_swap ∷ apart ∷ []

abbrev schedule : ScheduleResult
schedule = record {
  steps = 0 ∷ 1 ∷ 2 ∷ 0 ∷ [];
  depth = 3;
  width_per_step = (0, 2) ∷ (1, 1) ∷ (2, 1) ∷ [];
  conflicts =
      record {
        account = "pool";
        tx_signature = "second";
        program_ids = "amm" ∷ [];
        step = 2;
        caused_by_write = true;
      }
      ∷ [];
}

block-schedule : build_schedule block ≡ some schedule
unfolding build_schedule write read tenso.Contention.schedule_txs tenso.Contention.update_accounts
    get tenso.Contention.earliest_step tenso.Contention.entry_or_default tenso.Prelude.Maps.insert
    tenso.Prelude.text_discrete tenso.Contention.blocking_step tenso.Contention.depth_of
    tenso.Contention.count_widths tenso.Contention.conflict_event tenso.Contention.update_account
    tenso.Prelude.ℕ_discrete
block-schedule = refl

-- The reader waits for the first swap, and no event says so.
build_schedule-reference_steps_example :
    (r : ScheduleResult) × (build_schedule block ≡ some r) × (r.steps ≡ reference_steps [] block)
build_schedule-reference_steps_example =
    tenso.Contention.Schedule.build_schedule-reference_steps block

build_schedule-respects_order_example : 1 < 2
unfolding conflict write read tenso.Contention.Spec.any_conflict tenso.Contention.Spec.lock_conflict
    tenso.Prelude.text_discrete
build_schedule-respects_order_example =
    build_schedule-respects_order block 1 2 block-schedule (omega arith) refl refl refl refl refl

build_schedule-reference_conflicts_example :
    schedule.conflicts ≡ reference_conflicts [] block schedule.steps
build_schedule-reference_conflicts_example = build_schedule-reference_conflicts block block-schedule

build_schedule-widths_example :
    (width_or_zero (get 1 schedule.width_per_step) ≡ count 1 schedule.steps)
    × ((1 < schedule.depth) ↔ (0 < count 1 schedule.steps))
build_schedule-widths_example = build_schedule-widths block block-schedule 1

-- The order of the block itself keeps all conflicts in order.
in_order : Respects (first_swap ∷ second_swap ∷ []) (0 ∷ 5 ∷ [])
in_order zero zero p q s t lt hp hq hs ht c = absurd (omega arith)
in_order zero (suc zero) p q s t lt hp hq hs ht c =
    let first : 0 ≡ s = cc (hs) in let second : 5 ≡ t = cc (ht) in omega arith
in_order (suc i) zero p q s t lt hp hq hs ht c = absurd (omega arith)
in_order (suc i) (suc zero) p q s t lt hp hq hs ht c = absurd (omega arith)
in_order i (suc (suc j)) p q s t lt hp hq hs ht c = absurd (cc (ht))

abbrev pair : List TxLocks
pair = first_swap ∷ second_swap ∷ []

pair_scheduled :
    build_schedule pair
    ≡ some (record {
      steps = 0 ∷ 1 ∷ [];
      depth = 2;
      width_per_step = (0, 1) ∷ (1, 1) ∷ [];
      conflicts =
          record {
            account = "pool";
            tx_signature = "second";
            program_ids = "amm" ∷ [];
            step = 1;
            caused_by_write = true;
          }
          ∷ [];
    })
unfolding build_schedule tenso.Contention.schedule_txs tenso.Contention.update_accounts get
    tenso.Contention.earliest_step tenso.Contention.entry_or_default tenso.Prelude.Maps.insert
    tenso.Prelude.text_discrete write read tenso.Contention.blocking_step tenso.Contention.depth_of
    tenso.Contention.count_widths tenso.Contention.conflict_event tenso.Contention.update_account
    tenso.Prelude.ℕ_discrete
pair_scheduled = refl

build_schedule-least_example : 1 ≤ 5
build_schedule-least_example =
    build_schedule-least pair (0 ∷ 5 ∷ []) 1 pair_scheduled in_order refl refl
