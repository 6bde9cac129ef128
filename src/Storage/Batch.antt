-- ===== src/Storage/Batch.antt =====
-- `replace_slots_batch` is atomic: all of its slots are replaced, or the tables are as before.
use tenso.Prelude.{
  ℕ, ◌+◌, ◌≡◌, refl, ◌∙◌, sym, ap, String, Bool, true, false, none, some, List, [], ◌∷◌, map, All,
  Bool-cases, arith, inl, inr, ◌⊎◌,
}
use tenso.Prelude.{◌≢◌}
use tenso.Prelude.Int.{ℤ}
use tenso.Storage.{
  as_i64, transaction_db_row, lock_db_row, balance_db_row, StorageError, ok, err, engine_error,
  Tables, Conn, Db, Statement, SlotBatchRow, begin_transaction, commit, rollback,
  replace_slot_data_inner, replace_each, replace_slots_batch,
}
use tenso.Storage.Runs.{bind-cases, and_then, and_then-ok, Result-cases}
use tenso.Coalesce.{coalesce_token_balance_rows}
use tenso.Storage.Replace.{
  block_row, slot_rows, slot_rows-replace_rows, slot_rows-replace_rows_ne, transaction_rows,
  lock_rows, balance_rows, replace_rows_idem, upsert_row_idem, replaced, slot_effect,
  slot_effect-ok, Runs-replace_slot,
}

-- Rows made by a function have what each of them has.
pub All-map :
    {A B : Type 0} (P : B → Type 0) (f : A → B) (xs : List A)
    → ((a : A) → P (f a))
    → All P (map f xs)
All-map P f [] h = tt
All-map P f (x ∷ xs) h = (h x, All-map P f xs h)

-- The tables with the rows of each slot of a batch replaced, in order.
unfoldable pub replaced_all : (List String → String) → List SlotBatchRow → Tables → Tables
replaced_all to_json [] t = t
replaced_all to_json (b ∷ slots) t = replaced_all to_json slots (replaced to_json b t)

-- What the statements of a batch do.
unfoldable pub batch_effect : (List String → String) → List SlotBatchRow → Statement
batch_effect to_json [] t = ok t
batch_effect to_json (b ∷ slots) t = and_then (slot_effect to_json b t) (batch_effect to_json slots)

module _ (fault : ℕ → Bool) (to_json : List String → String) where
  abbrev replace_one : SlotBatchRow → Db (Unit {0})
  replace_one b =
      replace_slot_data_inner fault to_json b.slot b.block_time b.transactions b.locks
        b.token_changes

  -- The connection after `BEGIN`.
  abbrev opened : Conn → Conn
  opened c = record c { saved = some c.tables; clock = c.clock + 1 }

  replace_each-ok :
      (slots : List SlotBatchRow) (c : Conn)
      → (replace_each fault to_json slots c).0 ≡ ok tt
      → ((replace_each fault to_json slots c).1.tables ≡ replaced_all to_json slots c.tables)
        × ((replace_each fault to_json slots c).1.saved ≡ none)
  unfolding replace_each replaced_all commit
  replace_each-ok [] c h = elim (Bool-cases (fault c.clock)) [
    | inl f ↦ absurd (let bad : err engine_error ≡ ok tt = rw f at h in cc (bad))
    | inr f ↦ rw f (refl, refl)
  ]
  replace_each-ok (b ∷ slots) c h =
      elim (bind-cases (replace_one b) (replace_each fault to_json slots) c) [
        | inl (o, g) ↦
            let same =
              slot_effect-ok to_json b c.tables (replace_one b c).1.tables
                ((Runs-replace_slot to_json b fault).applies c o) in
            let (ih, none_saved) =
              replace_each-ok slots (replace_one b c).1 (ap (λ x. x.0) (sym g) ∙ h) in
            rw (g) (ih ∙ ap (replaced_all to_json slots) same, none_saved)
        | inr (e, o, g) ↦ absurd (let bad : err e ≡ ok tt = ap (λ x. x.0) (sym g) ∙ h in cc (bad))
      ]

  replace_each-err :
      (slots : List SlotBatchRow) (c : Conn) (e : StorageError)
      → (replace_each fault to_json slots c).0 ≡ err e
      → (replace_each fault to_json slots c).1.saved ≡ c.saved
  unfolding replace_each commit
  replace_each-err [] c e h = ground arith
  replace_each-err (b ∷ slots) c e h =
      elim (bind-cases (replace_one b) (replace_each fault to_json slots) c) [
        | inl (o, g) ↦ rw (g) (
            replace_each-err slots (replace_one b c).1 e (ap (λ x. x.0) (sym g) ∙ h)
            ∙ (Runs-replace_slot to_json b fault).keeps_saved c)
        | inr (e', o, g) ↦ rw (g) ((Runs-replace_slot to_json b fault).keeps_saved c)
      ]

  replace_each-succeeds :
      (slots : List SlotBatchRow) (c : Conn) (t : Tables)
      → ((n : ℕ) → fault n ≡ false)
      → batch_effect to_json slots c.tables ≡ ok t
      → (replace_each fault to_json slots c).0 ≡ ok tt
  unfolding replace_each batch_effect commit
  replace_each-succeeds [] c t no_fault h = rw (no_fault c.clock) refl
  replace_each-succeeds (b ∷ slots) c t no_fault h =
      let runs = Runs-replace_slot to_json b fault in
      let (t', one, rest) =
        and_then-ok (slot_effect to_json b c.tables) (batch_effect to_json slots) t h in
      let o = runs.succeeds c t' no_fault one in
      let same : ok t' ≡ ok (replace_one b c).1.tables = sym one ∙ runs.applies c o in
      elim (bind-cases (replace_one b) (replace_each fault to_json slots) c) [
        | inl (o', g) ↦ rw (g) (
            replace_each-succeeds slots (replace_one b c).1 t no_fault
              (ap (λ r. and_then r (batch_effect to_json slots)) (sym same) ∙ rest))
        | inr (e, o', g) ↦ absurd (let bad : err e ≡ ok tt = sym o' ∙ o in cc (bad))
      ]

  -- What `rollback` does to an open transaction.
  rollback-cases :
      (c : Conn) (t : Tables)
      → c.saved ≡ some t
      → ((fault c.clock ≡ false)
          × (rollback fault c ≡ record c { tables = t; saved = none; clock = c.clock + 1 }))
        ⊎ ((fault c.clock ≡ true) × (rollback fault c ≡ record c { clock = c.clock + 1 }))
  unfolding rollback
  rollback-cases c t e = elim (Bool-cases (fault c.clock)) [
    | inl f ↦ inr (f, rw (f, rollback) refl)
    | inr f ↦ inl (f, rw (f, e, rollback) refl)
  ]

  -- On a connection with no open transaction: a batch that reports success has replaced every
  -- slot, in order, and closed its transaction. A batch that reports an error has either left the
  -- tables as they were, with no transaction open; or the engine has failed at its last statement
  -- too, the `ROLLBACK`, whose error is passed over: then the transaction is still open, and the
  -- tables that it would restore are those before the batch.
  pub replace_slots_batch-atomic :
      (slots : List SlotBatchRow) (c : Conn)
      → c.saved ≡ none
      → let (r, c') = replace_slots_batch fault to_json slots c in
        ((r ≡ ok tt) × (c'.saved ≡ none) × (c'.tables ≡ replaced_all to_json slots c.tables))
        ⊎ ((e : StorageError) × (r ≡ err e)
            × (((c'.saved ≡ none) × (c'.tables ≡ c.tables))
                ⊎ ((n : ℕ) × (c'.clock ≡ n + 1) × (fault n ≡ true) × (c'.saved ≡ some c.tables))))
  unfolding replace_slots_batch begin_transaction
  replace_slots_batch-atomic slots c idle = elim (Bool-cases (fault c.clock)) [
    | inl f ↦ rw f (inr (engine_error, refl, inl (idle, refl)))
    | inr f ↦
        let each = replace_each fault to_json slots (opened c) in
        elim (Result-cases each.0) [
          | inl (u, o) ↦
              let (all, closed) = replace_each-ok slots (opened c) o in
              rw (f, idle, o) (inl (refl, closed, all))
          | inr (e, o) ↦
              let open_still = replace_each-err slots (opened c) e o in
              elim (rollback-cases each.1 c.tables open_still) [
                | inl (g, same) ↦ rw (f, idle, o, same) (inr (e, refl, inl (refl, refl)))
                | inr (g, same) ↦
                    rw (f, idle, o, same) (inr (e, refl, inr (each.1.clock, refl, g, open_still)))
              ]
        ]
  ]

  -- A batch that reports success.
  pub replace_slots_batch-ok :
      (slots : List SlotBatchRow) (c : Conn)
      → c.saved ≡ none
      → (replace_slots_batch fault to_json slots c).0 ≡ ok tt
      → let c' = (replace_slots_batch fault to_json slots c).1 in
        (c'.saved ≡ none) × (c'.tables ≡ replaced_all to_json slots c.tables)
  replace_slots_batch-ok slots c idle o = elim (replace_slots_batch-atomic slots c idle) [
    | inl (same, closed, all) ↦ (closed, all)
    | inr (e, failed, left) ↦ absurd (let bad : err e ≡ ok tt = sym failed ∙ o in cc (bad))
  ]

  -- Where no statement fails, no transaction is open and the rows of the batch break no primary
  -- key, the batch succeeds.
  pub replace_slots_batch-succeeds :
      (slots : List SlotBatchRow) (c : Conn) (t : Tables)
      → ((n : ℕ) → fault n ≡ false)
      → c.saved ≡ none
      → batch_effect to_json slots c.tables ≡ ok t
      → (replace_slots_batch fault to_json slots c).0 ≡ ok tt
  unfolding replace_slots_batch begin_transaction
  replace_slots_batch-succeeds slots c t no_fault idle h =
      rw (no_fault c.clock, idle, replace_each-succeeds slots (opened c) t no_fault h) refl

-- Replacing a slot twice by the same rows is replacing it once.
replaced_idem :
    (to_json : List String → String) (b : SlotBatchRow) (t : Tables)
    → replaced to_json b (replaced to_json b t) ≡ replaced to_json b t
unfolding replaced
replaced_idem to_json b t =
    rw
      (
        upsert_row_idem (λ r. r.slot) (block_row to_json b) t.blocks,
        replace_rows_idem (λ r. r.slot) _ (transaction_rows to_json b) t.transactions
            (All-map _ _ b.transactions (λ r. refl)),
        replace_rows_idem (λ r. r.slot) _ (lock_rows to_json b) t.account_locks
            (All-map _ _ b.locks (λ r. refl)),
        replace_rows_idem (λ r. r.slot) _ (balance_rows to_json b) t.token_balance_changes
            (All-map _ _ (coalesce_token_balance_rows b.token_changes) (λ r. refl)),
      )
      refl

module _ (fault : ℕ → Bool) (to_json : List String → String) (b : SlotBatchRow) where
  replaced_one :
      (c : Conn)
      → (replace_slots_batch fault to_json (b ∷ []) c).0 ≡ ok tt
      → c.saved ≡ none
      → (replace_slots_batch fault to_json (b ∷ []) c).1.tables ≡ replaced to_json b c.tables
  unfolding replaced_all
  replaced_one c h idle = (replace_slots_batch-ok fault to_json (b ∷ []) c idle h).1

  -- Storing a slot a second time, where both runs report success and no transaction is open
  -- before the first, leaves the tables as the first run did.
  pub replace_slots_batch_idem :
      (c : Conn)
      → c.saved ≡ none
      → (replace_slots_batch fault to_json (b ∷ []) c).0 ≡ ok tt
      → (replace_slots_batch fault to_json
          (b ∷ [])
          (replace_slots_batch fault to_json (b ∷ []) c).1).0
        ≡ ok tt
      → let c' = (replace_slots_batch fault to_json (b ∷ []) c).1 in
        (replace_slots_batch fault to_json (b ∷ []) c').1.tables ≡ c'.tables
  replace_slots_batch_idem c idle o o' =
      let c' = (replace_slots_batch fault to_json (b ∷ []) c).1 in
      let one = replaced_one c o idle in
      replaced_one c' o' (replace_slots_batch-ok fault to_json (b ∷ []) c idle o).0
      ∙ rw one (replaced_idem to_json b c.tables)

  -- After a batch of one slot that reports success, where no transaction was open, the rows of
  -- the slot in each of the three tables are those made from the entry, with the balance changes
  -- coalesced.
  pub replace_slots_batch-slot_rows :
      (c : Conn)
      → c.saved ≡ none
      → (replace_slots_batch fault to_json (b ∷ []) c).0 ≡ ok tt
      → let t = (replace_slots_batch fault to_json (b ∷ []) c).1.tables in
        (slot_rows (λ r. r.slot) (as_i64 b.slot) t.transactions
          ≡ map (transaction_db_row to_json (as_i64 b.slot) b.block_time) b.transactions)
        × (slot_rows (λ r. r.slot) (as_i64 b.slot) t.account_locks
            ≡ map (lock_db_row (as_i64 b.slot)) b.locks)
        × (slot_rows (λ r. r.slot) (as_i64 b.slot) t.token_balance_changes
            ≡ map
                (balance_db_row (as_i64 b.slot) b.block_time)
                (coalesce_token_balance_rows b.token_changes))
  unfolding replaced
  replace_slots_batch-slot_rows c idle o = rw (replaced_one c o idle) (
    slot_rows-replace_rows _ _ _ _ (All-map _ _ b.transactions (λ r. refl)),
    slot_rows-replace_rows _ _ _ _ (All-map _ _ b.locks (λ r. refl)),
    slot_rows-replace_rows _ _ _ _
        (All-map _ _ (coalesce_token_balance_rows b.token_changes) (λ r. refl)),
  )

  -- A batch of one slot that reports success, where no transaction was open, keeps the rows of
  -- every other slot in the three tables, in their order.
  pub replace_slots_batch-other_slots :
      (c : Conn) (s : ℤ)
      → c.saved ≡ none
      → (replace_slots_batch fault to_json (b ∷ []) c).0 ≡ ok tt
      → as_i64 b.slot ≢ s
      → let t = (replace_slots_batch fault to_json (b ∷ []) c).1.tables in
        (slot_rows (λ r. r.slot) s t.transactions ≡ slot_rows (λ r. r.slot) s c.tables.transactions)
        × (slot_rows (λ r. r.slot) s t.account_locks
            ≡ slot_rows (λ r. r.slot) s c.tables.account_locks)
        × (slot_rows (λ r. r.slot) s t.token_balance_changes
            ≡ slot_rows (λ r. r.slot) s c.tables.token_balance_changes)
  unfolding replaced
  replace_slots_batch-other_slots c s idle o ne = rw (replaced_one c o idle) (
    slot_rows-replace_rows_ne _ _ s _ _ ne (All-map _ _ b.transactions (λ r. refl)),
    slot_rows-replace_rows_ne _ _ s _ _ ne (All-map _ _ b.locks (λ r. refl)),
    slot_rows-replace_rows_ne _ _ s _ _ ne
        (All-map _ _ (coalesce_token_balance_rows b.token_changes) (λ r. refl)),
  )
