-- ===== src/Storage/View/Refines.antt =====
-- `replace_slots_batch` of crates/storage/src/repository.rs, seen on the maps: what it promises.
use mathlib.Core.Path.{fun_ext, subst}
use tenso.Prelude.{
  ℕ, ◌+◌, ◌≡◌, refl, sym, ap, ◌∙◌, String, Bool, true, Option, none, some, List, [], ◌∷◌, ◌++◌, ite,
  Eq, Bool-cases, inl, inr, ◌⊎◌, text_eq, pair_eq,
}
use tenso.Prelude.Int.{ℤ, ℤ_discrete}
use tenso.Prelude.Maps.{or_else}
use tenso.Storage.{
  StorageError, Result, ok, err, engine_error, Tables, Conn, Statement, SlotBatchRow,
  TransactionDbRow, AccountLockDbRow, BalanceDbRow, BlockDbRow, StatusDbRow, transaction_key,
  lock_key, balance_key, delete_slot, commit, begin_transaction, replace_each,
  replace_slot_data_inner, replace_slots_batch,
}
use tenso.Storage.Runs.{Result-cases, bind-cases, and_then, and_then-ok}
use tenso.Storage.Replace.{
  slot_key, transaction_rows, lock_rows, balance_rows, block_row, replaced, slot_effect,
  slot_effect-ok, Runs-replace_slot,
}
use tenso.Storage.Batch.{batch_effect, replace_slots_batch-atomic}
use tenso.Storage.Invariant.{
  Unique, Consistent, Keeps, Keeps-delete_locks, Keeps-delete_transactions, Keeps-delete_balances,
  Keeps-upsert_block, Keeps-append_transactions, Keeps-append_locks, Keeps-append_balances,
}
use tenso.Storage.View.{
  unless_slot, lookup, lookup-append_last, lookup-delete_slot, lookup-upsert_row, slot_eq,
}

-- The tables as maps.
pub record Store : Type 0 where
  pub block : ℤ → Option BlockDbRow
  pub transaction : String → Option TransactionDbRow
  pub lock : String × String → Option AccountLockDbRow
  pub balance_change : String × String → Option BalanceDbRow
  pub status : ℤ → Option StatusDbRow

unfoldable pub view : Tables → Store
view t = record {
  block = lookup (λ b. b.slot) t.blocks;
  transaction = lookup transaction_key t.transactions;
  lock = lookup lock_key t.account_locks;
  balance_change = lookup balance_key t.token_balance_changes;
  status = lookup (λ r. r.slot) t.ingestion_status;
}

-- Rows given for a slot stand in a map in place of all that the slot had there.
abbrev pub in_place :
    {K R : Type 0} ⦃e : Eq K⦄ → (R → K) → (R → ℤ) → ℤ → List R → (K → Option R) → K → Option R
in_place key slot_of s rows m k = or_else (lookup key rows k) (unless_slot slot_of s (m k))

-- What replacing a slot promises.
unfoldable pub replace_spec : (List String → String) → SlotBatchRow → Store → Store
replace_spec to_json b m = record {
  block = λ k. ite (ℤ_discrete (slot_key to_json b) k) (some (block_row to_json b)) (m.block k);
  transaction =
      in_place transaction_key (λ r. r.slot) (slot_key to_json b) (transaction_rows to_json b)
        m.transaction;
  lock = in_place lock_key (λ r. r.slot) (slot_key to_json b) (lock_rows to_json b) m.lock;
  balance_change =
      in_place balance_key (λ r. r.slot) (slot_key to_json b) (balance_rows to_json b)
        m.balance_change;
  status = m.status;
}

-- The slots of a batch, one after the other.
unfoldable pub replace_spec_all : (List String → String) → List SlotBatchRow → Store → Store
replace_spec_all to_json [] m = m
replace_spec_all to_json (b ∷ slots) m = replace_spec_all to_json slots (replace_spec to_json b m)

stores_agree :
    (m n : Store)
    → m.block ≡ n.block
    → m.transaction ≡ n.transaction
    → m.lock ≡ n.lock
    → m.balance_change ≡ n.balance_change
    → m.status ≡ n.status
    → m ≡ n
stores_agree m n b t l c s = cc (b, t, l, c, s)

Keeps-and_then : (f g : Statement) → Keeps f → Keeps g → Keeps (λ t. and_then (f t) g)
Keeps-and_then f g kf kg t t' w h =
    let (mid, first, second) = and_then-ok (f t) g t' h in kg mid t' (kf t mid w first) second

lookup-replaced :
    {K R : Type 0} ⦃e : Eq K⦄ (key : R → K) (slot_of : R → ℤ) (s : ℤ) (rows table : List R) (k : K)
    → Unique key table
    → Unique key (delete_slot slot_of s table ++ rows)
    → lookup key (delete_slot slot_of s table ++ rows) k
      ≡ in_place key slot_of s rows (lookup key table) k
lookup-replaced key slot_of s rows table k u u' =
    lookup-append_last key (delete_slot slot_of s table) rows k u'
    ∙ ap (or_else (lookup key rows k)) (lookup-delete_slot key slot_of s table k u)

module _ (to_json : List String → String) where
  Keeps-slot_effect : (b : SlotBatchRow) → Keeps (slot_effect to_json b)
  unfolding slot_effect
  Keeps-slot_effect b = Keeps-and_then _ _ (Keeps-delete_locks _) (
      Keeps-and_then _ _ (Keeps-delete_balances _) (
        Keeps-and_then _ _ (Keeps-delete_transactions _) (
          Keeps-and_then _ _ (Keeps-upsert_block _) (
            Keeps-and_then _ _ (Keeps-append_transactions _)
              (Keeps-and_then _ _ (Keeps-append_locks _) (Keeps-append_balances _))))))

  view-replaced :
      (b : SlotBatchRow) (t : Tables)
      → Consistent t
      → Consistent (replaced to_json b t)
      → view (replaced to_json b t) ≡ replace_spec to_json b (view t)
  unfolding view replaced replace_spec
  view-replaced b t w w' =
      stores_agree _ _
        (fun_ext λ k. lookup-upsert_row (λ r. r.slot) (block_row to_json b) t.blocks k)
        (fun_ext λ k.
          lookup-replaced transaction_key (λ r. r.slot) (slot_key to_json b)
            (transaction_rows to_json b) t.transactions k w.transaction_keys w'.transaction_keys)
        (fun_ext λ k.
          lookup-replaced lock_key (λ r. r.slot) (slot_key to_json b) (lock_rows to_json b)
            t.account_locks k w.lock_keys w'.lock_keys)
        (fun_ext λ k.
          lookup-replaced balance_key (λ r. r.slot) (slot_key to_json b) (balance_rows to_json b)
            t.token_balance_changes k w.balance_keys w'.balance_keys)
        refl

  -- The statements for a slot, where they return, do to the maps what is promised.
  slot_effect-view :
      (b : SlotBatchRow) (t t' : Tables)
      → Consistent t
      → slot_effect to_json b t ≡ ok t'
      → view t' ≡ replace_spec to_json b (view t)
  slot_effect-view b t t' w h =
      let same = slot_effect-ok to_json b t t' h in
      let w' = subst Consistent same (Keeps-slot_effect b t t' w h) in
      ap view same ∙ view-replaced b t w w'

  batch_effect-view :
      (slots : List SlotBatchRow) (t t' : Tables)
      → Consistent t
      → batch_effect to_json slots t ≡ ok t'
      → view t' ≡ replace_spec_all to_json slots (view t)
  unfolding batch_effect replace_spec_all
  batch_effect-view [] t t' w h = let same : t ≡ t' = cc (h) in ap view (sym same)
  batch_effect-view (b ∷ slots) t t' w h =
      let (mid, first, second) =
        and_then-ok (slot_effect to_json b t) (batch_effect to_json slots) t' h in
      batch_effect-view slots mid t' (Keeps-slot_effect b t mid w first) second
      ∙ ap (replace_spec_all to_json slots) (slot_effect-view b t mid w first)

  module _ (fault : ℕ → Bool) where
    abbrev replace_one : SlotBatchRow → Conn → Result (Unit {0}) × Conn
    replace_one b =
        replace_slot_data_inner fault to_json b.slot b.block_time b.transactions b.locks
          b.token_changes

    -- The loop and its `COMMIT`, where they succeed, have run the statements of the batch.
    replace_each-effect :
        (slots : List SlotBatchRow) (c : Conn)
        → (replace_each fault to_json slots c).0 ≡ ok tt
        → batch_effect to_json slots c.tables ≡ ok (replace_each fault to_json slots c).1.tables
    unfolding replace_each batch_effect commit
    replace_each-effect [] c h = elim (Bool-cases (fault c.clock)) [
      | inl e ↦ absurd (let bad : err engine_error ≡ ok tt = rw e at h in cc (bad))
      | inr e ↦ rw e refl
    ]
    replace_each-effect (b ∷ slots) c h =
        elim (bind-cases (replace_one b) (replace_each fault to_json slots) c) [
          | inl (o, g) ↦
              let here = (Runs-replace_slot to_json b fault).applies c o in
              let later =
                replace_each-effect slots (replace_one b c).1 (ap (λ x. x.0) (sym g) ∙ h) in
              rw g (ap (λ r. and_then r (batch_effect to_json slots)) here ∙ later)
          | inr (e, o, g) ↦ absurd (let bad : err e ≡ ok tt = ap (λ x. x.0) (sym g) ∙ h in cc (bad))
        ]

    replaced-view :
        (slots : List SlotBatchRow) (c : Conn)
        → c.saved ≡ none
        → Consistent c.tables
        → (replace_slots_batch fault to_json slots c).0 ≡ ok tt
        → view (replace_slots_batch fault to_json slots c).1.tables
          ≡ replace_spec_all to_json slots (view c.tables)
    unfolding replace_slots_batch begin_transaction
    replaced-view slots c idle w good = elim (Bool-cases (fault c.clock)) [
      | inl e ↦ absurd (let bad : err engine_error ≡ ok tt = rw e at good in cc (bad))
      | inr e ↦
          let opened : Conn = record c { saved = some c.tables; clock = c.clock + 1 } in
          elim (Result-cases (replace_each fault to_json slots opened).0) [
            | inl (u, o) ↦
                rw (e, idle, o)
                  (batch_effect-view slots c.tables _ w (replace_each-effect slots opened o))
            | inr (x, o) ↦ absurd (let bad : err x ≡ ok tt = rw (e, idle, o) at good in cc (bad))
          ]
    ]

    -- On a connection with no open transaction and consistent tables: a batch that reports success
    -- does to the tables, taken as maps from their primary keys, what replacing its slots one after
    -- the other promises, and no transaction is open. A batch that reports an error leaves the maps
    -- as they were, with no transaction open; or, where the engine has failed at its last statement
    -- too, the `ROLLBACK`, it leaves a transaction open, and the maps of the tables that this would
    -- restore are those before the batch.
    pub replace_slots_batch-view :
        (slots : List SlotBatchRow) (c : Conn)
        → c.saved ≡ none
        → Consistent c.tables
        → let (r, c') = replace_slots_batch fault to_json slots c in
          ((r ≡ ok tt)
            × (c'.saved ≡ none)
            × (view c'.tables ≡ replace_spec_all to_json slots (view c.tables)))
          ⊎ ((e : StorageError) × (r ≡ err e)
              × (((c'.saved ≡ none) × (view c'.tables ≡ view c.tables))
                  ⊎ ((n : ℕ) × (t : Tables) × (c'.clock ≡ n + 1)
                      × (fault n ≡ true)
                      × (c'.saved ≡ some t)
                      × (view t ≡ view c.tables))))
    unfolding replace_slots_batch begin_transaction
    replace_slots_batch-view slots c idle w =
        elim (replace_slots_batch-atomic fault to_json slots c idle) [
          | inl (good, closed, all) ↦ inl (good, closed, replaced-view slots c idle w good)
          | inr (e, bad, inl (closed, same)) ↦ inr (e, bad, inl (closed, ap view same))
          | inr (e, bad, inr (n, last, failed, still)) ↦
              inr (e, bad, inr (n, c.tables, last, failed, still, refl))
        ]
