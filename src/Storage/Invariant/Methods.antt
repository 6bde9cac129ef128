-- ===== src/Storage/Invariant/Methods.antt =====
-- The methods of crates/storage/src/repository.rs that write keep the tables consistent, however
-- they end, and so does a `ROLLBACK`.
use tenso.Prelude.{
  ℕ, String, Bool, Option, none, some, List, [], ◌∷◌, Bool-cases, Option-cases, inl, inr,
}
use tenso.Prelude.Int.{ℤ}
use tenso.Coalesce.{TokenBalanceRow}
use tenso.Contention.{ScheduleResult}
use tenso.Storage.{
  Tables, Conn, Db, Statement, TransactionRow, AccountLockRow, SlotBatchRow, ◌>>◌, done, execute,
  begin_transaction, commit, rollback, upsert_ingestion_status, replace_slot_data_inner,
  replace_each, replace_slots_batch, write_steps, write_schedule_steps,
}
use tenso.Storage.Runs.{Result-cases, bind-cases}
use tenso.Storage.Invariant.{
  Consistent, Keeps, Keeps-delete_locks, Keeps-delete_transactions, Keeps-delete_balances,
  Keeps-upsert_block, Keeps-upsert_status, Keeps-update_step, Keeps-append_transactions,
  Keeps-append_locks, Keeps-append_balances,
}

-- The tables at the `BEGIN` of an open transaction.
abbrev pub SavedConsistent : Option Tables → Type 0
SavedConsistent none = Unit
SavedConsistent (some t) = Consistent t

-- Both the tables and those that a rollback restores.
abbrev pub ConsistentConn : Conn → Type 0
ConsistentConn c = Consistent c.tables × SavedConsistent c.saved

-- However it ends.
pub record Preserves (m : Db (Unit {0})) : Type 0 where
  pub keeps : (c : Conn) → ConsistentConn c → ConsistentConn (m c).1

pub Preserves-done : Preserves done
Preserves-done = record { keeps = λ c w. w }

pub Preserves-bind : (m n : Db (Unit {0})) → Preserves m → Preserves n → Preserves (m >> n)
Preserves-bind m n km kn = record {
  keeps = λ c w. elim (bind-cases m n c) [
    | inl (o, g) ↦ rw g (kn.keeps (m c).1 (km.keeps c w))
    | inr (e, o, g) ↦ rw g (km.keeps c w)
  ];
}

module _ (fault : ℕ → Bool) where
  rollback-ConsistentConn : (c : Conn) → ConsistentConn c → ConsistentConn (rollback fault c)
  unfolding rollback
  rollback-ConsistentConn c w = elim (Bool-cases (fault c.clock)) [
    | inl f ↦ rw (f, rollback) w
    | inr f ↦ elim (Option-cases c.saved) [
      | inl e ↦ rw (f, e, rollback) w
      | inr (t, e) ↦ rw (f, e, rollback) (rw e at w.1, tt)
    ]
  ]

  Preserves-execute : (run : Statement) → Keeps run → Preserves (execute fault run)
  unfolding execute
  Preserves-execute run k = record {
    keeps = λ c w. elim (Bool-cases (fault c.clock)) [
      | inl f ↦ rw f w
      | inr f ↦ elim (Result-cases (run c.tables)) [
        | inl (t, e) ↦ rw (f, e) (k c.tables t w.0 e, w.1)
        | inr (x, e) ↦ rw (f, e) w
      ]
    ];
  }

  Preserves-begin_transaction : Preserves (begin_transaction fault)
  unfolding begin_transaction
  Preserves-begin_transaction = record {
    keeps = λ c w. elim (Bool-cases (fault c.clock)) [
      | inl f ↦ rw f w
      | inr f ↦ elim (Option-cases c.saved) [
        | inl e ↦ rw (f, e) (w.0, w.0)
        | inr (t, e) ↦ rw (f, e) w
      ]
    ];
  }

  Preserves-commit : Preserves (commit fault)
  unfolding commit
  Preserves-commit = record {
    keeps = λ c w. elim (Bool-cases (fault c.clock)) [ inl f ↦ rw f w | inr f ↦ rw f (w.0, tt) ];
  }

  pub Preserves-upsert_ingestion_status :
      (slot : ℕ) (status : String) (text : Option String)
      → Preserves (upsert_ingestion_status fault slot status text)
  unfolding upsert_ingestion_status
  Preserves-upsert_ingestion_status slot status text = Preserves-execute _ (Keeps-upsert_status _)

  Preserves-replace_slot_data_inner :
      (to_json : List String → String) (slot : ℕ) (block_time : Option ℤ) (ts : List TransactionRow)
      (ls : List AccountLockRow) (bs : List TokenBalanceRow)
      → Preserves (replace_slot_data_inner fault to_json slot block_time ts ls bs)
  unfolding replace_slot_data_inner
  Preserves-replace_slot_data_inner to_json slot block_time ts ls bs =
      Preserves-bind _ _ (Preserves-execute _ (Keeps-delete_locks _)) (
        Preserves-bind _ _ (Preserves-execute _ (Keeps-delete_balances _)) (
          Preserves-bind _ _ (Preserves-execute _ (Keeps-delete_transactions _)) (
            Preserves-bind _ _ (Preserves-execute _ (Keeps-upsert_block _)) (
              Preserves-bind _ _ (Preserves-execute _ (Keeps-append_transactions _)) (
                Preserves-bind _ _ (Preserves-execute _ (Keeps-append_locks _))
                  (Preserves-execute _ (Keeps-append_balances _)))))))

  Preserves-replace_each :
      (to_json : List String → String) (slots : List SlotBatchRow)
      → Preserves (replace_each fault to_json slots)
  unfolding replace_each
  Preserves-replace_each to_json [] = Preserves-commit
  Preserves-replace_each to_json (b ∷ slots) =
      Preserves-bind _ _
        (Preserves-replace_slot_data_inner to_json b.slot b.block_time b.transactions b.locks
          b.token_changes)
        (Preserves-replace_each to_json slots)

  pub Preserves-replace_slots_batch :
      (to_json : List String → String) (slots : List SlotBatchRow)
      → Preserves (replace_slots_batch fault to_json slots)
  unfolding replace_slots_batch
  Preserves-replace_slots_batch to_json slots =
      Preserves-bind _ _ Preserves-begin_transaction (record {
        keeps = λ c w.
            let each = replace_each fault to_json slots c in
            let keep = (Preserves-replace_each to_json slots).keeps c w in
            elim (Result-cases each.0) [
              | inl (u, e) ↦ rw e keep
              | inr (x, e) ↦ rw e (rollback-ConsistentConn each.1 keep)
            ];
      })

  Preserves-write_steps :
      (signatures : List String) (steps : List ℕ) → Preserves (write_steps fault signatures steps)
  unfolding write_steps
  Preserves-write_steps [] steps = Preserves-done
  Preserves-write_steps (sig ∷ signatures) [] = Preserves-done
  Preserves-write_steps (sig ∷ signatures) (step ∷ steps) =
      Preserves-bind _ _ (Preserves-execute _ (Keeps-update_step step sig))
        (Preserves-write_steps signatures steps)

  pub Preserves-write_schedule_steps :
      (signatures : List String) (schedule : ScheduleResult)
      → Preserves (write_schedule_steps fault signatures schedule)
  unfolding write_schedule_steps
  Preserves-write_schedule_steps signatures schedule =
      Preserves-write_steps signatures schedule.steps
